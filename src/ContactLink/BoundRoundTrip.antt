-- ===== src/ContactLink/BoundRoundTrip.antt =====
-- contact_link.rs: a link that was formatted, bound to its onion or not, and its parsing.
use hash_chat.Prelude.{
  ◌≡◌, refl, sym, ◌∙◌, Bool, true, false, Option, none, some, [], ◌∷◌, ◌++◌, append_assoc, Result,
  ok, ◌>>=◌, goes_on,
}
use hash_chat.Prelude.Bytes.{Bytes, IsBytes}
use hash_chat.Prelude.Utf8.{Text}
use hash_chat.Ratchet.Crypto.{Crypto, IsLawful}
use hash_chat.Identity.{
  Signing, IsSigning, LongTermIdentity, ed25519_public_bytes, x25519_public_bytes, sign,
}
use hash_chat.OnionBinding.{Hazmat}
use hash_chat.ContactLink.Hex.{ContactLinkError, bad_onion_binding, hex_encode, decode_fixed_lem}
use hash_chat.ContactLink.{
  Texts, IsTexts, prefix, canonical_payload, normalize_onion_parts, link_of,
  format_signed_contact_link, format_bound_contact_link, bound_of, parse_parts,
  parse_signed_contact_link,
}
use hash_chat.ContactLink.RoundTrip.{IsBare, fields_lem, pieces}
use hash_chat.ContactLink.Bound.{
  IsHazmat, IsTail, tail_of, parts_of, is_bound, tail-IsPlain, split-tail, bound_steps,
}

-- a contact link, which the key of the onion binds if it is given
abbrev pub format_contact :
    Crypto
    → Signing
    → Hazmat
    → Texts
    → Option Bytes
    → LongTermIdentity
    → Text
    → Result ContactLinkError Text
format_contact c g h t none id onion = format_signed_contact_link c g h t id onion
format_contact c g h t (some key) id onion = format_bound_contact_link c g h t id onion key

abbrev pub is_given : Option Bytes → Bool
is_given none = false
is_given (some key) = true

pub result : {E A : Type 0} {a b : A} → Path (Result E A) (ok a) (ok b) → a ≡ b
result q = cc

module _ (c : Crypto) (g : Signing) (h : Hazmat) (t : Texts) where
  abbrev signature : LongTermIdentity → Text → Bytes
  signature id bare = sign c g id (canonical_payload bare (x25519_public_bytes c g id))

  abbrev linked : LongTermIdentity → Text → Text → Text
  linked id bare more =
      link_of c g h t bare (x25519_public_bytes c g id) (ed25519_public_bytes c g id)
        (signature id bare) more

  longer_link :
      (id : LongTermIdentity) (bare more : Text) → linked id bare [] ++ more ≡ linked id bare more
  longer_link id bare more =
      rw
        (
          append_assoc prefix _ more,
          append_assoc bare _ more,
          append_assoc (hex_encode (x25519_public_bytes c g id)) _ more,
          append_assoc (hex_encode (ed25519_public_bytes c g id)) _ more,
          append_assoc (hex_encode (signature id bare)) [] more,
        )
        refl

  signed_link :
      (id : LongTermIdentity) (onion : Text) {full bare : Text}
      → normalize_onion_parts c g h t onion ≡ ok (full, bare)
      → format_signed_contact_link c g h t id onion ≡ ok (linked id bare [])
  unfolding format_signed_contact_link
  signed_link id onion e = rw (e, ◌>>=◌) refl

  -- what a link is made of
  pub formatted_lem :
      (key : Option Bytes) (id : LongTermIdentity) (onion : Text) {full bare contact : Text}
      → IsHazmat g h
      → normalize_onion_parts c g h t onion ≡ ok (full, bare)
      → format_contact c g h t key id onion ≡ ok contact
      → (o : Option Bytes) × (contact ≡ linked id bare (tail_of o))
        × IsTail h g full (ed25519_public_bytes c g id) (x25519_public_bytes c g id) o
        × (is_bound o ≡ is_given key)
  unfolding format_bound_contact_link
  formatted_lem none id onion l e run = (none, result (sym run ∙ signed_link id onion e), tt, refl)
  formatted_lem (some key) id onion {full} {bare} l e run =
      let run =
        goes_on (format_signed_contact_link c g h t id onion) _ (signed_link id onion e) run in
      let run = goes_on (normalize_onion_parts c g h t onion) _ e run in
      let (hs_sig, end, v) =
        bound_steps g h l bad_onion_binding key (ed25519_public_bytes c g id)
          (x25519_public_bytes c g id) full _ run in
      (some hs_sig, result (sym end) ∙ longer_link id bare (tail_of (some hs_sig)), v, refl)

  -- A link that was formatted for an address, bound to it or not, is parsed back into the address, the
  -- identity's keys and its signature, and counts as bound if it is.
  pub parse_contact-format :
      (lt : IsTexts t) (lg : IsSigning g) (lc : IsLawful c)
      (byte_keys : (secret : Bytes) → IsBytes (c.public_of secret)) (id : LongTermIdentity)
      {full bare : Text} (o : Option Bytes)
      → IsBare c g h t full bare
      → IsTail h g full (ed25519_public_bytes c g id) (x25519_public_bytes c g id) o
      → parse_signed_contact_link c g h t (linked id bare (tail_of o))
        ≡ ok (record {
          onion = full;
          x25519 = x25519_public_bytes c g id;
          ed25519 = ed25519_public_bytes c g id;
          sig = signature id bare;
          onion_bound = is_bound o;
        })
  unfolding parse_parts sign bound_of
  parse_contact-format lt lg lc byte_keys id {full} {bare} o b v =
      let ed = ed25519_public_bytes c g id in
      let x = x25519_public_bytes c g id in
      let sigs = lg.sign-IsBytes id.ed25519_signing (canonical_payload bare x) in
      pieces c g h t lt lg lc byte_keys id bare (signature id bare) (tail_of o) (parts_of o) b.label
        (tail-IsPlain h g full ed x o v) sigs
        (split-tail h g full ed x (signature id bare) o sigs v)
      ∙ by_tail o v
    where
      by_tail :
          (p : Option Bytes)
          → IsTail h g full (ed25519_public_bytes c g id) (x25519_public_bytes c g id) p
          → parse_parts c g h t (
              bare
              ∷ hex_encode (x25519_public_bytes c g id)
              ∷ hex_encode (ed25519_public_bytes c g id)
              ∷ hex_encode (signature id bare)
              ∷ parts_of p)
            ≡ ok (record {
              onion = full;
              x25519 = x25519_public_bytes c g id;
              ed25519 = ed25519_public_bytes c g id;
              sig = signature id bare;
              onion_bound = is_bound p;
            })
      by_tail none w = fields_lem c g h t lt lg lc byte_keys id full bare b [] false refl
      by_tail (some hs_sig) w =
          fields_lem c g h t lt lg lc byte_keys id full bare b (hex_encode hs_sig ∷ []) true
            (rw (bound_of, decode_fixed_lem 64 hs_sig w.bytes w.size, ◌>>=◌, w.checks) refl)
