-- ===== src/Invites/Contact.antt =====
-- contact_link.rs and invite.rs: the contact link that a reply to an invite carries.
use hash_chat.Prelude.{
  ◌≤◌, Bool, Option, none, some, ◌≡◌, refl, ap, sym, ◌∙◌, false, [], ◌∷◌, ◌++◌, length,
  length-append, ok, All, All-append, arith,
}
use hash_chat.Prelude.Bytes.{Bytes, IsBytes}
use hash_chat.Prelude.Utf8.{Text, as_bytes, is_blank}
use hash_chat.Prelude.Plain.{IsPlain, as_bytes-plain}
use hash_chat.Ratchet.Crypto.{Crypto, IsLawful}
use hash_chat.Identity.{
  Signing, IsSigning, LongTermIdentity, ed25519_public_bytes, x25519_public_bytes, sign,
}
use hash_chat.OnionBinding.{Hazmat}
use hash_chat.ContactLink.Hex.{hex_encode, length-hex_encode}
use hash_chat.ContactLink.{
  Texts, IsTexts, SignedContact, normalize_onion_parts, slash, canonical_payload,
  format_signed_contact_link, parse_signed_contact_link, sas_fingerprint, link_of,
}
use hash_chat.ContactLink
use hash_chat.ContactLink.RoundTrip.{IsLabel, normalize-IsBare, All-imp, label-IsPlain}
use hash_chat.ContactLink.Bound.{IsHazmat, IsTail, tail_of, tail-IsPlain}
use hash_chat.ContactLink.BoundRoundTrip.{
  format_contact, is_given, formatted_lem, parse_contact-format,
}
use hash_chat.Invites.Link.{contact_prefix}
use hash_chat.Invites.LinkFields.{slashed-IsPlain, hex-IsPlain}
use hash_chat.Invites.Reply.{IsMac, IsBody}

-- the crates behind the links do what their documentation says
pub record IsLinking (c : Crypto) (g : Signing) (h : Hazmat) (t : Texts)
    (hmac : Bytes → Bytes → Bytes) : Type 0 where
  pub crypto : IsLawful c
  pub signing : IsSigning g
  pub hazmat : IsHazmat g h
  pub texts : IsTexts t
  pub mac : IsMac hmac
  pub keys : (secret : Bytes) → IsBytes (c.public_of secret)

same_prefix : contact_prefix ≡ ContactLink.prefix
unfolding contact_prefix ContactLink.prefix
same_prefix = refl

module _ (c : Crypto) (g : Signing) (h : Hazmat) (t : Texts) (hmac : Bytes → Bytes → Bytes)
    (l : IsLinking c g h t hmac) where
  -- what stands behind the prefix of a contact link
  abbrev body_of : Text → Bytes → Bytes → Bytes → Text → Text
  body_of bare x ed sig more =
      bare ++ slash ∷ (hex_encode x ++ slash ∷ (hex_encode ed ++ slash ∷ (hex_encode sig ++ more)))

  not_blank : (s rest : Text) → length (as_bytes s) ≡ 56 → is_blank (s ++ rest) ≡ false
  unfolding as_bytes
  not_blank [] rest e = absurd (omega (arith, e))
  not_blank (ch ∷ s) rest e = refl

  IsBody-IsBody :
      (bare : Text) (x ed sig : Bytes) (more : Text)
      → All IsLabel bare
      → length (as_bytes bare) ≡ 56
      → IsBytes x
      → IsBytes ed
      → IsBytes sig
      → length x ≡ 32
      → length ed ≡ 32
      → length sig ≡ 64
      → All IsPlain more
      → length more ≤ 129
      → IsBody (body_of bare x ed sig more)
  IsBody-IsBody bare x ed sig more label size bx be bs lx le ls plain_more few =
      let r3 = hex_encode sig ++ more in
      let r2 = hex_encode ed ++ slash ∷ r3 in
      let r1 = hex_encode x ++ slash ∷ r2 in
      let same = as_bytes-plain bare (All-imp label-IsPlain bare label) in
      record {
        plain = All-append IsPlain bare (slash ∷ r1) (All-imp label-IsPlain bare label) (
            slashed-IsPlain (hex_encode x) (slash ∷ r2) (hex-IsPlain x bx) (
              slashed-IsPlain (hex_encode ed) (slash ∷ r3) (hex-IsPlain ed be)
                (slashed-IsPlain (hex_encode sig) more (hex-IsPlain sig bs) plain_more)));
        present = not_blank bare (slash ∷ r1) size;
        short = omega (
          arith,
          length-append bare (slash ∷ r1),
          length-append (hex_encode x) (slash ∷ r2),
          length-append (hex_encode ed) (slash ∷ r3),
          length-append (hex_encode sig) more,
          length-hex_encode x,
          length-hex_encode ed,
          length-hex_encode sig,
          ap length same,
          size,
          lx,
          le,
          ls,
          few,
        );
      }

  tail_short :
      (full : Text) (ed x : Bytes) (o : Option Bytes)
      → IsTail h g full ed x o
      → length (tail_of o) ≤ 129
  tail_short full ed x none w = omega arith
  tail_short full ed x (some hs_sig) w = omega (arith, length-hex_encode hs_sig, w.size)

  -- the contact as a link of an identity says it
  abbrev pub contact_of : Option Bytes → LongTermIdentity → Text → Text → SignedContact
  contact_of key id full bare = record {
    onion = full;
    x25519 = x25519_public_bytes c g id;
    ed25519 = ed25519_public_bytes c g id;
    sig = sign c g id (canonical_payload bare (x25519_public_bytes c g id));
    onion_bound = is_given key;
  }

  -- a contact link that was formatted: its two parts, and what it is parsed as
  pub contact_lem :
      (key : Option Bytes) (id : LongTermIdentity) (onion : Text) {full bare contact : Text}
      → normalize_onion_parts c g h t onion ≡ ok (full, bare)
      → format_contact c g h t key id onion ≡ ok contact
      → (body : Text) × (contact ≡ contact_prefix ++ body)
        × IsBody body
        × (parse_signed_contact_link c g h t contact ≡ ok (contact_of key id full bare))
  unfolding x25519_public_bytes ed25519_public_bytes sign
  contact_lem key id onion {full} {bare} {contact} e f =
      let x = c.public_of id.x25519_secret in
      let ed = g.verifying_key id.ed25519_signing in
      let sig = g.sign id.ed25519_signing (canonical_payload bare x) in
      let b = normalize-IsBare c g h t l.texts onion e in
      let (o, made, w, bound) = formatted_lem c g h t key id onion l.hazmat e f in
      (
        body_of bare x ed sig (tail_of o),
        made ∙ ap (λ p. p ++ body_of bare x ed sig (tail_of o)) (sym same_prefix),
        IsBody-IsBody bare x ed sig (tail_of o) b.label b.size (l.keys id.x25519_secret)
            (l.signing.verifying_key-IsBytes id.ed25519_signing)
            (l.signing.sign-IsBytes id.ed25519_signing (canonical_payload bare x))
            (l.crypto.length-public_of id.x25519_secret)
            (l.signing.length-verifying_key id.ed25519_signing)
            (l.signing.length-sign id.ed25519_signing (canonical_payload bare x))
            (tail-IsPlain h g full ed x o w) (tail_short full ed x o w),
        ap (parse_signed_contact_link c g h t) made
            ∙ parse_contact-format c g h t l.texts l.signing l.crypto l.keys id o b w
            ∙ ap {A = Bool} (λ k. ok (record (contact_of key id full bare) { onion_bound = k }))
                bound,
      )
