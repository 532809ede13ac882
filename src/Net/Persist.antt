-- ===== src/Net/Persist.antt =====
-- net_mode.rs: the preferences as bytes, and back. The read position is the rest of the bytes.
use hash_chat.Prelude.{
  ℕ, ◌%◌, ◌^◌, Bool, true, false, not, ◌&&◌, ◌||◌, Option, none, some, [], ◌∷◌, ◌++◌, length, take,
  drop, ltb, if◌then◌else◌, Result, ok, err, ok_or, refuse_if, ◌>>=◌, ◌>>◌,
}
use hash_chat.Prelude.Bytes.{Bytes, be32, from_be_bytes}
use hash_chat.Prelude.Utf8.{
  Text, chars, same_text, is_blank, trim, to_ascii_lowercase, as_bytes, from_utf8,
}
use hash_chat.Net.{
  NetConfig, NetModeError, invalid_mode, invalid_dns, invalid_posture, custom_dns_required,
  mode_str, parse_mode, dns_str, parse_dns, posture_str, parse_posture, is_custom, force,
}

unfoldable pub write_persist_str : Text → Bytes
write_persist_str s = be32 (length (as_bytes s) % 2 ^ 32) ++ as_bytes s

unfoldable pub flag_str : Bool → Text
unfolding chars
flag_str true = chars "on"
flag_str false = chars "off"

abbrev pub address_str : Option Text → Text
address_str none = []
address_str (some s) = s

unfoldable pub bridges_bytes : Bool → Bytes
bridges_bytes true = write_persist_str (flag_str true)
bridges_bytes false = []

unfoldable pub to_persist_bytes : NetConfig → Bytes
unfolding bridges_bytes
to_persist_bytes cfg =
    write_persist_str (mode_str cfg.mode)
    ++ (write_persist_str (dns_str cfg.dns)
        ++ (write_persist_str (address_str cfg.custom_dns)
            ++ (write_persist_str (posture_str cfg.posture)
                ++ (write_persist_str (flag_str cfg.socks_isolation)
                    ++ bridges_bytes cfg.require_bridges))))

abbrev pub with_rest : Option Text → Bytes → Option (Text × Bytes)
with_rest none r = none
with_rest (some s) r = some (s, r)

abbrev pub text_of : ℕ → Bytes → Option (Text × Bytes)
text_of n r = with_rest (from_utf8 (take n r)) (drop n r)

-- a string, and what is left
unfoldable pub read_persist_str : Bytes → Option (Text × Bytes)
read_persist_str buf =
    if ltb (length buf) 4
    then none
    else if ltb (length (drop 4 buf)) (from_be_bytes (take 4 buf))
    then none
    else text_of (from_be_bytes (take 4 buf)) (drop 4 buf)

unfoldable pub parse_bool : Text → Result NetModeError Bool
parse_bool s =
    let t = to_ascii_lowercase (trim s) in
    if same_text t (chars "on")
      || same_text t (chars "1")
      || same_text t (chars "true")
      || same_text t (chars "yes")
    then ok true
    else if same_text t (chars "off")
        || same_text t (chars "0")
        || same_text t (chars "false")
        || same_text t (chars "no")
    then ok false
    else err invalid_mode

abbrev pub is_end : Bytes → Bool
is_end [] = true
is_end (b ∷ bs) = false

-- a flag that older blobs lack
unfoldable pub read_flag : Bool → Bytes → Result NetModeError (Bool × Bytes)
read_flag absent [] = ok (absent, [])
read_flag absent (x ∷ xs) = do
  (s, r) ← ok_or (read_persist_str (x ∷ xs)) invalid_mode
  b ← parse_bool s
  ok (b, r)

abbrev pub address_of : Text → Option Text
address_of [] = none
address_of (ch ∷ s) = some (ch ∷ s)

-- the fields as they are read
pub record Fields : Type 0 where
  pub mode_s : Text
  pub dns_s : Text
  pub custom_s : Text
  pub posture_s : Text
  pub socks_isolation : Bool
  pub require_bridges : Bool

unfoldable pub read_fields : Bytes → Result NetModeError Fields
read_fields buf = do
  (mode_s, r) ← ok_or (read_persist_str buf) invalid_mode
  (dns_s, r) ← ok_or (read_persist_str r) invalid_dns
  (custom_s, r) ← ok_or (read_persist_str r) invalid_dns
  (posture_s, r) ← ok_or (read_persist_str r) invalid_posture
  (socks_isolation, r) ← read_flag true r
  (require_bridges, r) ← read_flag false r
  refuse_if (not (is_end r)) invalid_mode
  ok (record {
    mode_s = mode_s;
    dns_s = dns_s;
    custom_s = custom_s;
    posture_s = posture_s;
    socks_isolation = socks_isolation;
    require_bridges = require_bridges;
  })

-- what the fields stand for
unfoldable pub assemble : Fields → Result NetModeError NetConfig
assemble f = do
  mode ← parse_mode f.mode_s
  dns ← parse_dns f.dns_s
  posture ← parse_posture f.posture_s
  refuse_if (is_custom dns && is_blank f.custom_s) custom_dns_required
  ok (
      force posture (record {
        mode = mode;
        dns = dns;
        custom_dns = address_of f.custom_s;
        posture = posture;
        socks_isolation = f.socks_isolation;
        require_bridges = f.require_bridges;
      }))

unfoldable pub from_persist_bytes : Bytes → Result NetModeError NetConfig
from_persist_bytes buf = do fields ← read_fields buf; assemble fields
