-- ===== src/ContactLink.antt =====
-- src/rust/contact_link.rs: signed contact links.
pub mod Hex
pub mod RoundTrip
pub mod Bound
pub mod BoundRoundTrip
use hash_chat.Prelude.{
  ℕ, zero, suc, ◌+◌, ◌-◌, ◌*◌, ◌/◌, ◌%◌, ◌≡◌, ◌<◌, Bool, true, false, not, ◌&&◌, ◌||◌, Option, none,
  some, List, [], ◌∷◌, ◌++◌, length, take, ltb, leb, ◌==◌, if◌then◌else◌, Result, ok, err, ok_or,
  refuse_if, ◌>>=◌, ◌>>◌, All,
}
use hash_chat.Prelude.Bytes.{Bytes}
use hash_chat.Prelude.Utf8.{Text, as_bytes, chars, same_text, trim, to_ascii_lowercase}
use hash_chat.Ratchet.Crypto.{Crypto, ascii}
use hash_chat.Ratchet.State.{DoubleRatchet, new}
use hash_chat.Ratchet.Bootstrap.{init_directional}
use hash_chat.Identity.{
  Signing, LongTermIdentity, ed25519_public_bytes, x25519_public_bytes, x25519_dh_checked, sign,
  verify,
}
use hash_chat.OnionBinding.{
  Hazmat, strip_suffix, strip_prefix, unwrap_or, onion_public_key, sign_binding, verify_binding,
}
use hash_chat.ContactLink.Hex.{
  ContactLinkError, bad_format, bad_hex, bad_length, bad_onion, bad_signature, bad_onion_binding,
  unsigned_rejected, dh_failed, hex_encode, hex_decode_fixed,
}

-- SHA-256 of the crate sha2, and the standard library's Unicode `str::to_lowercase`
pub record Texts : Type 0 where
  pub sha256 : Bytes → Bytes
  pub to_lowercase : Text → Text

pub record IsTexts (t : Texts) : Type 0 where
  pub lowercase_ascii :
      (s : Text) → All (λ ch. ch < 128) s → t.to_lowercase s ≡ to_ascii_lowercase s

pub record SignedContact : Type 0 where
  pub onion : Text
  pub x25519 : Bytes
  pub ed25519 : Bytes
  pub sig : Bytes
  pub onion_bound : Bool

unfoldable pub prefix : Text
unfolding chars
prefix = chars "hashchat://contact/v1/"

unfoldable pub canonical_payload : Text → Bytes → Bytes
unfolding ascii
canonical_payload onion_no_suffix x25519 = ascii "v1" ++ (as_bytes onion_no_suffix ++ x25519)

abbrev pub is_base32 : ℕ → Bool
is_base32 c = leb 97 c && leb c 122 || leb 50 c && leb c 55

unfoldable pub all_base32 : Bytes → Bool
all_base32 [] = true
all_base32 (c ∷ cs) = is_base32 c && all_base32 cs

unfoldable pub is_v3_onion_label : Text → Bool
unfolding all_base32
is_v3_onion_label label = length (as_bytes label) == 56 && all_base32 (as_bytes label)

abbrev pub is_none {ℓ} : {A : Type ℓ} → Option A → Bool
is_none none = true
is_none (some a) = false

-- a digit of `{:02X}`
unfoldable pub upper_digit : ℕ → ℕ
upper_digit d = if ltb d 10 then 48 + d else 55 + d

unfoldable pub upper_hex : Bytes → Text
unfolding upper_digit
upper_hex [] = []
upper_hex (b ∷ bs) = upper_digit (b / 16) ∷ upper_digit (b % 16) ∷ upper_hex bs

-- the pieces of a text between its slashes
abbrev pub cons_head : ℕ → List Text → List Text
cons_head ch [] = (ch ∷ []) ∷ []
cons_head ch (part ∷ parts) = (ch ∷ part) ∷ parts

unfoldable pub split_slash : Text → List Text
split_slash [] = [] ∷ []
split_slash (ch ∷ s) = let rest = split_slash s in if ch == 47 then [] ∷ rest else cons_head ch rest

-- `s.contains('.')`
unfoldable pub has_dot : Text → Bool
has_dot [] = false
has_dot (ch ∷ s) = ch == 46 || has_dot s

abbrev pub slash : ℕ
slash = 47

unfoldable pub sas_fingerprint : Texts → Bytes → Bytes → Text → Text
unfolding upper_hex
sas_fingerprint t ed25519 x25519 onion_full =
    let dig = upper_hex (take 4 (t.sha256 (ed25519 ++ (x25519 ++ as_bytes onion_full)))) in
    take 4 dig ++ 45 ∷ drop_four dig
  where
    drop_four : Text → Text
    drop_four (a ∷ b ∷ c ∷ d ∷ rest) = rest
    drop_four s = []

module _ (c : Crypto) (g : Signing) (h : Hazmat) (t : Texts) where
  -- the full name, and the one without `.onion`
  unfoldable pub normalize_onion_parts : Text → Result ContactLinkError (Text × Text)
  unfolding chars strip_suffix is_v3_onion_label
  normalize_onion_parts onion =
      let o = t.to_lowercase (trim onion) in
      let bare = unwrap_or o (strip_suffix (chars ".onion") o) in
      if not (is_v3_onion_label bare) || is_none (onion_public_key h bare)
      then err bad_onion
      else ok (bare ++ chars ".onion", bare)

  -- the link of an identity, with the fields after the prefix
  abbrev pub link_of : Text → Bytes → Bytes → Bytes → Text → Text
  link_of bare x ed sig more =
      prefix
      ++ (bare
          ++ slash ∷ (hex_encode x ++ slash ∷ (hex_encode ed ++ slash ∷ (hex_encode sig ++ more))))

  unfoldable pub format_signed_contact_link : LongTermIdentity → Text → Result ContactLinkError Text
  unfolding canonical_payload
  format_signed_contact_link id onion = do
    (full, bare) ← normalize_onion_parts onion
    let x = x25519_public_bytes c g id
    let ed = ed25519_public_bytes c g id
    ok (link_of bare x ed (sign c g id (canonical_payload bare x)) [])

  unfoldable pub format_bound_contact_link :
      LongTermIdentity → Text → Bytes → Result ContactLinkError Text
  unfolding format_signed_contact_link
  format_bound_contact_link id onion onion_key = do
    base ← format_signed_contact_link id onion
    (full, bare) ← normalize_onion_parts onion
    (hs_sig, pk) ←
        ok_or
          (sign_binding h g onion_key (ed25519_public_bytes c g id) (x25519_public_bytes c g id))
          bad_onion_binding
    own ← ok_or (onion_public_key h full) bad_onion_binding
    refuse_if (not (same_text own pk)) bad_onion_binding
    ok (base ++ slash ∷ hex_encode hs_sig)

  -- whether the link is bound to the onion, by the field that may follow the signature
  unfoldable pub bound_of : Text → Bytes → Bytes → List Text → Result ContactLinkError Bool
  bound_of full ed25519 x25519 [] = ok false
  bound_of full ed25519 x25519 (field ∷ more) = do
    hs_sig ← hex_decode_fixed 64 field
    refuse_if (not (verify_binding h g full ed25519 x25519 hs_sig)) bad_onion_binding
    ok true

  -- the four fields that every signed link has, and what may follow
  unfoldable pub parse_fields :
      Text → Text → Text → Text → List Text → Result ContactLinkError SignedContact
  unfolding bound_of has_dot canonical_payload
  parse_fields p0 p1 p2 p3 more = do
    (full, bare) ← normalize_onion_parts p0
    refuse_if (has_dot p0) bad_format
    x25519 ← hex_decode_fixed 32 p1
    ed25519 ← hex_decode_fixed 32 p2
    sig ← hex_decode_fixed 64 p3
    refuse_if (not (verify c g ed25519 (canonical_payload bare x25519) sig)) bad_signature
    onion_bound ← bound_of full ed25519 x25519 more
    ok (record {
      onion = full;
      x25519 = x25519;
      ed25519 = ed25519;
      sig = sig;
      onion_bound = onion_bound;
    })

  unfoldable pub parse_parts : List Text → Result ContactLinkError SignedContact
  unfolding parse_fields
  parse_parts (p0 ∷ p1 ∷ []) = err unsigned_rejected
  parse_parts (p0 ∷ p1 ∷ p2 ∷ p3 ∷ []) = parse_fields p0 p1 p2 p3 []
  parse_parts (p0 ∷ p1 ∷ p2 ∷ p3 ∷ p4 ∷ []) = parse_fields p0 p1 p2 p3 (p4 ∷ [])
  parse_parts parts = err bad_format

  unfoldable pub parse_signed_contact_link : Text → Result ContactLinkError SignedContact
  unfolding parse_parts split_slash strip_prefix
  parse_signed_contact_link raw = do
    rest ← ok_or (strip_prefix prefix (trim raw)) bad_format
    parse_parts (split_slash rest)

  -- `secret` is the key that `DoubleRatchet::new` draws
  unfoldable pub bootstrap_ratchet_from_signed_link :
      Bytes → LongTermIdentity → Text → Result ContactLinkError (DoubleRatchet × Text)
  unfolding parse_signed_contact_link sas_fingerprint
  bootstrap_ratchet_from_signed_link secret local link = do
    peer ← parse_signed_contact_link link
    shared ← ok_or (x25519_dh_checked c g local peer.x25519) dh_failed
    ok (
      init_directional c shared (x25519_public_bytes c g local) peer.x25519 (new c secret),
      sas_fingerprint t peer.ed25519 peer.x25519 peer.onion,
    )
