-- ===== src/ContactLink/RoundTrip.antt =====
-- contact_link.rs: parsing a link that was formatted.
use hash_chat.Prelude.{
  ℕ, ◌≤◌, ◌<◌, ◌≡◌, ◌≢◌, ◌⊎◌, refl, ap, ◌∙◌, subst, Bool, true, false, not, ◌||◌, none, some, List,
  [], ◌∷◌, ◌++◌, length, if◌then◌else◌, ok, err, ◌>>=◌, All, All-append, append-nil, arith,
}
use hash_chat.Prelude.Bytes.{Bytes, IsBytes}
use hash_chat.Prelude.Utf8.{Text, as_bytes, encode_char, chars, same_text, trim, to_ascii_lowercase}
use hash_chat.Prelude.Plain.{IsPlain, trim_plain}
use hash_chat.Ratchet.Crypto.{Crypto, IsLawful}
use hash_chat.Identity.{
  Signing, IsSigning, LongTermIdentity, ed25519_public_bytes, x25519_public_bytes, sign, verify,
}
use hash_chat.OnionBinding.{Hazmat, strip_suffix, strip_prefix, unwrap_or, onion_public_key}
use hash_chat.ContactLink.Hex.{
  ContactLinkError, bad_onion, hex_encode, IsHex, hex_encode-IsHex, IsHex-IsPlain, decode_fixed_lem,
}
use hash_chat.ContactLink.{
  Texts, IsTexts, prefix, canonical_payload, all_base32, is_v3_onion_label, is_none, split_slash,
  has_dot, slash, normalize_onion_parts, link_of, format_signed_contact_link, bound_of,
  parse_fields, parse_parts, parse_signed_contact_link,
}

-- a character of an onion label
abbrev pub IsLabel : ℕ → Type 0
IsLabel ch = ((97 ≤ ch) × (ch ≤ 122)) ⊎ ((50 ≤ ch) × (ch ≤ 55))

IsLabel-plain : (s : Text) → all_base32 (as_bytes s) ≡ true → All IsLabel s
unfolding all_base32 as_bytes encode_char
IsLabel-plain [] h = tt
IsLabel-plain (ch ∷ s) h = ground (arith, IsLabel-plain s, h)

pub strip-prefix_append : (p s : Text) → strip_prefix p (p ++ s) ≡ some s
unfolding strip_prefix
strip-prefix_append [] s = refl
strip-prefix_append (x ∷ p) s = ground (arith, strip-prefix_append p s)

strip_none : (s : Text) → All IsLabel s → strip_suffix (chars ".onion") s ≡ none
unfolding strip_suffix chars same_text
strip_none [] h = refl
strip_none (ch ∷ s) h = ground (arith, strip_none s h.1, h.0)

lower_label : (s : Text) → All IsLabel s → to_ascii_lowercase s ≡ s
unfolding to_ascii_lowercase
lower_label [] h = refl
lower_label (ch ∷ s) h = ground (arith, lower_label s h.1, h.0)

pub dotless : (s : Text) → All IsLabel s → has_dot s ≡ false
unfolding has_dot
dotless [] h = refl
dotless (ch ∷ s) h = ground (arith, dotless s h.1, h.0)

pub split_last : (s : Text) → All (λ ch. ch ≢ slash) s → split_slash s ≡ s ∷ []
unfolding split_slash
split_last [] h = refl
split_last (ch ∷ s) h = ground (arith, split_last s h.1, h.0)

pub split_field :
    (s rest : Text)
    → All (λ ch. ch ≢ slash) s
    → split_slash (s ++ slash ∷ rest) ≡ s ∷ split_slash rest
unfolding split_slash
split_field [] rest h = refl
split_field (ch ∷ s) rest h = ground (arith, split_field s rest h.1, h.0)

module _ {A : ℕ → Type 0} {B : ℕ → Type 0} (f : (n : ℕ) → A n → B n) where
  pub All-imp : (s : Text) → All A s → All B s
  All-imp [] h = tt
  All-imp (ch ∷ s) h = (f ch h.0, All-imp s h.1)

pub label-IsPlain : (n : ℕ) → IsLabel n → IsPlain n
label-IsPlain n h = omega arith

label-ascii : (n : ℕ) → IsLabel n → n < 128
label-ascii n h = omega arith

pub label_slash : (n : ℕ) → IsLabel n → n ≢ slash
label_slash n h = omega arith

pub hex_slash : (n : ℕ) → IsHex n → n ≢ slash
hex_slash n h = omega arith

-- the label of an address that was accepted
pub record IsBare (c : Crypto) (g : Signing) (h : Hazmat) (t : Texts) (full bare : Text)
    : Type 0 where
  pub label : All IsLabel bare
  pub size : length (as_bytes bare) ≡ 56
  pub again : normalize_onion_parts c g h t bare ≡ ok (full, bare)

accepted :
    (b : Bool) (e : ContactLinkError) {x y : Text × Text}
    → (if b then err e else ok x) ≡ ok y
    → (b ≡ false) × (x ≡ y)
accepted true e h = cc
accepted false e h = (refl, cc)

neither : (a b : Bool) → (not a || b) ≡ false → (a ≡ true) × (b ≡ false)
neither true false e = (refl, refl)
neither true true e = cc
neither false b e = cc

prefix_plain : All IsPlain prefix
unfolding prefix
prefix_plain = omega arith

label_size : (s : Text) → is_v3_onion_label s ≡ true → length (as_bytes s) ≡ 56
unfolding is_v3_onion_label
label_size s k = ground (arith, k)

base32_of : (s : Text) → is_v3_onion_label s ≡ true → all_base32 (as_bytes s) ≡ true
unfolding is_v3_onion_label
base32_of s k = ground (arith, k)

module _ (c : Crypto) (g : Signing) (h : Hazmat) (t : Texts) (lt : IsTexts t) where
  normalize_again :
      (bare : Text)
      → All IsLabel bare
      → is_v3_onion_label bare ≡ true
      → is_none (onion_public_key h bare) ≡ false
      → normalize_onion_parts c g h t bare ≡ ok (bare ++ chars ".onion", bare)
  unfolding normalize_onion_parts
  normalize_again bare label shape keyed =
      rw
        (
          trim_plain bare (All-imp label-IsPlain bare label),
          lt.lowercase_ascii bare (All-imp label-ascii bare label),
          lower_label bare label,
          strip_none bare label,
          shape,
          keyed,
        )
        refl

  pub normalize-IsBare :
      (onion : Text) {full bare : Text}
      → normalize_onion_parts c g h t onion ≡ ok (full, bare)
      → IsBare c g h t full bare
  unfolding normalize_onion_parts
  normalize-IsBare onion {full} {bare} e =
      let o = t.to_lowercase (trim onion) in
      let own = unwrap_or o (strip_suffix (chars ".onion") o) in
      let (passes, same) =
        accepted (not (is_v3_onion_label own) || is_none (onion_public_key h own)) bad_onion e in
      let (shape, keyed) =
        neither (is_v3_onion_label own) (is_none (onion_public_key h own)) passes in
      let label = IsLabel-plain own (base32_of own shape) in
      subst (λ p. IsBare c g h t p.0 p.1) same
        (record {
          label = label;
          size = label_size own shape;
          again = normalize_again own label shape keyed;
        })

  module _ (lg : IsSigning g) (lc : IsLawful c)
      (byte_keys : (secret : Bytes) → IsBytes (c.public_of secret)) where
    -- the fields of a link that was formatted
    pub fields_lem :
        (id : LongTermIdentity) (full bare : Text)
        → IsBare c g h t full bare
        → (more : List Text) (bound : Bool)
        → let x = x25519_public_bytes c g id in
          let ed = ed25519_public_bytes c g id in
          let sig = sign c g id (canonical_payload bare x) in
          bound_of c g h t full ed x more ≡ ok bound
          → parse_fields c g h t bare (hex_encode x) (hex_encode ed) (hex_encode sig) more
            ≡ ok (record { onion = full; x25519 = x; ed25519 = ed; sig = sig; onion_bound = bound })
    unfolding parse_fields x25519_public_bytes ed25519_public_bytes sign verify
    fields_lem id full bare b more bound e =
        let x = c.public_of id.x25519_secret in
        let ed = g.verifying_key id.ed25519_signing in
        let sig = g.sign id.ed25519_signing (canonical_payload bare x) in
        rw
          (
            b.again,
            ◌>>=◌,
            dotless bare b.label,
            decode_fixed_lem 32 x (byte_keys id.x25519_secret)
                (lc.length-public_of id.x25519_secret),
            decode_fixed_lem 32 ed (lg.verifying_key-IsBytes id.ed25519_signing)
                (lg.length-verifying_key id.ed25519_signing),
            decode_fixed_lem 64 sig (lg.sign-IsBytes id.ed25519_signing _)
                (lg.length-sign id.ed25519_signing _),
            lg.is_key-verifying_key id.ed25519_signing,
            lg.verifies-sign id.ed25519_signing (canonical_payload bare x),
            e,
          )
          refl

    -- the pieces of a link, and that a trim leaves it
    pub pieces :
        (id : LongTermIdentity) (bare : Text) (sig : Bytes) (more : Text) (parts : List Text)
        → All IsLabel bare
        → All IsPlain more
        → IsBytes sig
        → split_slash (hex_encode sig ++ more) ≡ hex_encode sig ∷ parts
        → let x = x25519_public_bytes c g id in
          let ed = ed25519_public_bytes c g id in
          parse_signed_contact_link c g h t (link_of c g h t bare x ed sig more)
          ≡ parse_parts c g h t (bare ∷ hex_encode x ∷ hex_encode ed ∷ hex_encode sig ∷ parts)
    unfolding parse_signed_contact_link x25519_public_bytes ed25519_public_bytes
    pieces id bare sig more parts label plain bytes split =
        let x = c.public_of id.x25519_secret in
        let ed = g.verifying_key id.ed25519_signing in
        let xs = hex_encode-IsHex x (byte_keys id.x25519_secret) in
        let eds = hex_encode-IsHex ed (lg.verifying_key-IsBytes id.ed25519_signing) in
        let sigs = hex_encode-IsHex sig bytes in
        let rest = hex_encode ed ++ slash ∷ (hex_encode sig ++ more) in
        let tail = hex_encode x ++ slash ∷ rest in
        let plain_rest : All IsPlain rest =
          All-append IsPlain (hex_encode ed) (slash ∷ (hex_encode sig ++ more))
            (IsHex-IsPlain (hex_encode ed) eds)
            (
              omega arith,
              All-append IsPlain (hex_encode sig) more (IsHex-IsPlain (hex_encode sig) sigs) plain,
            ) in
        let plain_tail : All IsPlain tail =
          All-append IsPlain (hex_encode x) (slash ∷ rest) (IsHex-IsPlain (hex_encode x) xs)
            (omega arith, plain_rest) in
        let plain_link : All IsPlain (prefix ++ (bare ++ slash ∷ tail)) =
          All-append IsPlain prefix (bare ++ slash ∷ tail) prefix_plain (
            All-append IsPlain bare (slash ∷ tail) (All-imp label-IsPlain bare label)
              (omega arith, plain_tail)) in
        rw
          (
            trim_plain _ plain_link,
            strip-prefix_append prefix (bare ++ slash ∷ tail),
            ◌>>=◌,
            split_field bare tail (All-imp label_slash bare label),
            split_field (hex_encode x) rest (All-imp hex_slash (hex_encode x) xs),
            split_field (hex_encode ed) (hex_encode sig ++ more)
                (All-imp hex_slash (hex_encode ed) eds),
            split,
          )
          refl

    -- A link that an identity signs for an address is parsed back into that address, the identity's
    -- keys and its signature, and counts as not bound to the onion.
    pub parse_signed-format :
        (id : LongTermIdentity) (onion : Text) {full bare : Text}
        → normalize_onion_parts c g h t onion ≡ ok (full, bare)
        → (format_signed_contact_link c g h t id onion >>= parse_signed_contact_link c g h t)
          ≡ ok (record {
            onion = full;
            x25519 = x25519_public_bytes c g id;
            ed25519 = ed25519_public_bytes c g id;
            sig = sign c g id (canonical_payload bare (x25519_public_bytes c g id));
            onion_bound = false;
          })
    unfolding format_signed_contact_link parse_parts sign bound_of
    parse_signed-format id onion {full} {bare} e =
        let b = normalize-IsBare onion e in
        let sig = g.sign id.ed25519_signing (canonical_payload bare (x25519_public_bytes c g id)) in
        let bytes =
          lg.sign-IsBytes id.ed25519_signing
            (canonical_payload bare (x25519_public_bytes c g id)) in
        let hex = hex_encode-IsHex sig bytes in
        rw (e, ◌>>=◌)
          (pieces id bare sig [] [] b.label tt bytes (
              ap split_slash (append-nil (hex_encode sig))
              ∙ split_last (hex_encode sig) (All-imp hex_slash (hex_encode sig) hex))
            ∙ fields_lem id full bare b [] false refl)
