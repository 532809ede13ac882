-- ===== src/Net/RoundTrip.antt =====
-- net_mode.rs: `from_persist_bytes` on the bytes of `to_persist_bytes`.
use hash_chat.Prelude.{
  ℕ, ◌+◌, ◌%◌, ◌^◌, ◌<◌, ◌≡◌, refl, ap, ap₂, subst, sym, Bool, true, false, ◌&&◌, Option, none,
  some, [], ◌∷◌, ◌++◌, length, length-append, take, drop, take-append, drop-append, inl, inr, arith,
  ok, err, if◌then◌else◌, ◌>>=◌, ◌>>◌, refuse_if, append-nil, append_assoc, ltb, le→ltb,
}
use hash_chat.Prelude.Bytes.{Bytes, be32, length-be32, from_be_bytes-be32}
use hash_chat.Prelude.Utf8.{
  Text, IsText, as_bytes, encode_char, from_utf8-as_bytes, is_blank, same_text, trim,
  to_ascii_lowercase, is_whitespace, trim_start, trim_end,
}
use hash_chat.Net.{
  NetConfig, NetworkMode, DnsPreference, PostureProfile, tor, i2p, clearnet, system, quad9, custom,
  standard, extreme, force, is_custom, parse_mode, parse_dns, parse_posture, mode_str, dns_str,
  posture_str, custom_dns_required, lacks_address,
}
use hash_chat.Net.Lock.{IsLocked}
use hash_chat.Net.Persist.{
  is_end, bridges_bytes, from_persist_bytes, to_persist_bytes, read_fields, assemble, Fields,
  address_of, address_str, write_persist_str, read_persist_str, text_of, flag_str, parse_bool,
  read_flag,
}

-- a string that fits the 32-bit length field
pub record IsShort (s : Text) : Type 0 where
  pub text : IsText s
  pub size : length (as_bytes s) < 2 ^ 32

text_of_lem :
    (s : Text) (rest : Bytes)
    → IsText s
    → text_of (length (as_bytes s)) (as_bytes s ++ rest) ≡ some (s, rest)
text_of_lem s rest t =
    rw (take-append (as_bytes s) rest, drop-append (as_bytes s) rest, from_utf8-as_bytes s t) refl

length-write : (n : ℕ) (s : Bytes) → length (be32 n ++ s) ≡ 4 + length s
length-write n s = omega (arith, length-append (be32 n) s, length-be32 n)

take-write : (n : ℕ) (s : Bytes) → take 4 (be32 n ++ s) ≡ be32 n
take-write n s = rw (← length-be32 n) (take-append (be32 n) s)

drop-write : (n : ℕ) (s : Bytes) → drop 4 (be32 n ++ s) ≡ s
drop-write n s = rw (← length-be32 n) (drop-append (be32 n) s)

pub read_write :
    (s : Text) (rest : Bytes)
    → IsShort s
    → read_persist_str (write_persist_str s ++ rest) ≡ some (s, rest)
unfolding read_persist_str write_persist_str
read_write s rest v =
    let n = length (as_bytes s) in
    let body = as_bytes s ++ rest in
    let small : n % 2 ^ 32 ≡ n = omega (arith, v.size) in
    let long : ltb (length (be32 n ++ body)) 4 ≡ false =
      le→ltb _ _ (omega (arith, length-write n body)) in
    let enough : ltb (length body) n ≡ false =
      le→ltb _ _ (omega (arith, length-append (as_bytes s) rest)) in
    rw
      (
        small,
        append_assoc (be32 n) (as_bytes s) rest,
        long,
        drop-write n body,
        take-write n body,
        from_be_bytes-be32 n v.size,
        enough,
      )
      (text_of_lem s rest v.text)

pub mode_back : (m : NetworkMode) → parse_mode (mode_str m) ≡ ok m
unfolding parse_mode mode_str same_text trim to_ascii_lowercase trim_start trim_end is_whitespace
mode_back tor = refl
mode_back i2p = refl
mode_back clearnet = refl

pub dns_back : (d : DnsPreference) → parse_dns (dns_str d) ≡ ok d
unfolding parse_dns dns_str same_text trim to_ascii_lowercase trim_start trim_end is_whitespace
dns_back system = refl
dns_back quad9 = refl
dns_back custom = refl

pub posture_back : (p : PostureProfile) → parse_posture (posture_str p) ≡ ok p
unfolding parse_posture posture_str same_text trim to_ascii_lowercase trim_start trim_end
    is_whitespace
posture_back standard = refl
posture_back extreme = refl

flag_back : (b : Bool) → parse_bool (flag_str b) ≡ ok b
unfolding parse_bool flag_str same_text trim to_ascii_lowercase trim_start trim_end is_whitespace
flag_back true = refl
flag_back false = refl

flag-IsShort : (b : Bool) → IsShort (flag_str b)
unfolding flag_str as_bytes encode_char
flag-IsShort true = record { text = omega arith; size = omega arith }
flag-IsShort false = record { text = omega arith; size = omega arith }

pub mode-IsShort : (m : NetworkMode) → IsShort (mode_str m)
unfolding mode_str as_bytes encode_char
mode-IsShort tor = record { text = omega arith; size = omega arith }
mode-IsShort i2p = record { text = omega arith; size = omega arith }
mode-IsShort clearnet = record { text = omega arith; size = omega arith }

pub dns-IsShort : (d : DnsPreference) → IsShort (dns_str d)
unfolding dns_str as_bytes encode_char
dns-IsShort system = record { text = omega arith; size = omega arith }
dns-IsShort quad9 = record { text = omega arith; size = omega arith }
dns-IsShort custom = record { text = omega arith; size = omega arith }

pub posture-IsShort : (p : PostureProfile) → IsShort (posture_str p)
unfolding posture_str as_bytes encode_char
posture-IsShort standard = record { text = omega arith; size = omega arith }
posture-IsShort extreme = record { text = omega arith; size = omega arith }

-- an address that is stored is short and not empty
abbrev pub IsAddress : Option Text → Type 0
IsAddress none = Unit
IsAddress (some s) = IsShort s × (is_blank s ≡ false)

pub address-IsShort : (o : Option Text) → IsAddress o → IsShort (address_str o)
unfolding as_bytes
address-IsShort none h = record { text = tt; size = omega arith }
address-IsShort (some s) h = h.0

pub address_back : (o : Option Text) → IsAddress o → address_of (address_str o) ≡ o
address_back none h = refl
address_back (some []) h = cc (h.1)
address_back (some (ch ∷ s)) h = refl

pub blank_address : (o : Option Text) → is_blank (address_str o) ≡ lacks_address o
blank_address none = refl
blank_address (some s) = refl

read_flag-some :
    (absent : Bool) (bs : Bytes) {s : Text} {r : Bytes} {b : Bool}
    → is_end bs ≡ false
    → read_persist_str bs ≡ some (s, r)
    → parse_bool s ≡ ok b
    → read_flag absent bs ≡ ok (b, r)
unfolding read_flag
read_flag-some absent [] e h p = cc
read_flag-some absent (x ∷ xs) e h p = rw (h, ◌>>=◌, p) refl

write_goes_on : (s : Text) (rest : Bytes) → is_end (write_persist_str s ++ rest) ≡ false
unfolding write_persist_str be32
write_goes_on s rest = refl

pub flag_read :
    (absent b : Bool) (rest : Bytes)
    → read_flag absent (write_persist_str (flag_str b) ++ rest) ≡ ok (b, rest)
flag_read absent b rest =
    read_flag-some absent _ (write_goes_on (flag_str b) rest)
      (read_write (flag_str b) rest (flag-IsShort b)) (flag_back b)

pub bridges_read : (b : Bool) → read_flag false (bridges_bytes b) ≡ ok (b, [])
unfolding bridges_bytes read_flag
bridges_read false = refl
bridges_read true =
    subst (λ bs. read_flag false bs ≡ ok (true, []))
      (append-nil (write_persist_str (flag_str true))) (flag_read false true [])

unfoldable pub fields_of : NetConfig → Fields
fields_of cfg = record {
  mode_s = mode_str cfg.mode;
  dns_s = dns_str cfg.dns;
  custom_s = address_str cfg.custom_dns;
  posture_s = posture_str cfg.posture;
  socks_isolation = cfg.socks_isolation;
  require_bridges = cfg.require_bridges;
}

fields_read :
    (cfg : NetConfig)
    → IsAddress cfg.custom_dns
    → read_fields (to_persist_bytes cfg) ≡ ok (fields_of cfg)
unfolding read_fields to_persist_bytes fields_of
fields_read cfg v =
    rw
      (
        read_write (mode_str cfg.mode) _ (mode-IsShort cfg.mode),
        ◌>>=◌,
        read_write (dns_str cfg.dns) _ (dns-IsShort cfg.dns),
        read_write (address_str cfg.custom_dns) _ (address-IsShort cfg.custom_dns v),
        read_write (posture_str cfg.posture) _ (posture-IsShort cfg.posture),
        flag_read true cfg.socks_isolation (bridges_bytes cfg.require_bridges),
        bridges_read cfg.require_bridges,
      )
      refl

pub forced_same :
    (cfg : NetConfig) → IsLocked cfg → (p : PostureProfile) → p ≡ cfg.posture → force p cfg ≡ cfg
forced_same cfg v standard e = refl
forced_same cfg v extreme e = elim v.locked [
  | inl s ↦ cc
  | inr (x, m, i) ↦ sym (ap₂ (λ t on. record cfg { mode = t; socks_isolation = on }) m i)
]

pub finish :
    (bad : Bool) {cfg d : NetConfig}
    → d ≡ cfg
    → (refuse_if bad custom_dns_required >> ok d)
      ≡ (if bad then err custom_dns_required else ok cfg)
finish true e = refl
finish false e = ap ok e

-- Preferences that obey their posture and whose address, if any, is not empty and fits the length
-- field come back from their bytes as they were; but a custom DNS preference without an address is
-- written and then refused.
pub from_persist_bytes-to_persist_bytes :
    (cfg : NetConfig)
    → IsLocked cfg
    → IsAddress cfg.custom_dns
    → from_persist_bytes (to_persist_bytes cfg) ≡ (
        if is_custom cfg.dns && lacks_address cfg.custom_dns
        then err custom_dns_required
        else ok cfg)
unfolding from_persist_bytes assemble fields_of
from_persist_bytes-to_persist_bytes cfg v a =
    rw
      (
        fields_read cfg a,
        ◌>>=◌,
        mode_back cfg.mode,
        dns_back cfg.dns,
        posture_back cfg.posture,
        blank_address cfg.custom_dns,
        address_back cfg.custom_dns a,
      )
      (finish (is_custom cfg.dns && lacks_address cfg.custom_dns)
        (forced_same cfg v cfg.posture refl))
