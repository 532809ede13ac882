-- ===== src/Invites/LinkRoundTrip.antt =====
-- invite.rs: parsing an invite link that was formatted.
use hash_chat.Prelude.{
  ℕ, ◌<◌, ◌≡◌, refl, ap, ◌∙◌, false, goes_on, Option, none, some, sym, >>=-eq-ok, ◌∷◌, ◌++◌, leb,
  ok, map_err, ◌>>=◌, All, All-append, arith,
}
use hash_chat.Prelude.Bytes.{Bytes, IsBytes}
use hash_chat.Prelude.Utf8.{Text}
use hash_chat.Prelude.Plain.{IsPlain, trim_plain}
use hash_chat.Prelude.Decimal.{decimal, decimal-IsDigit}
use hash_chat.Ratchet.Crypto.{Crypto, IsLawful}
use hash_chat.Identity.{
  Signing, IsSigning, LongTermIdentity, ed25519_public_bytes, x25519_public_bytes, sign, verify,
}
use hash_chat.OnionBinding.{Hazmat}
use hash_chat.ContactLink.Hex.{hex_encode}
use hash_chat.ContactLink.{Texts, IsTexts, normalize_onion_parts, slash}
use hash_chat.ContactLink.RoundTrip.{
  IsLabel, IsBare, strip-prefix_append, split_field, All-imp, label-IsPlain, label_slash, dotless,
}
use hash_chat.ContactLink.Bound.{
  IsHazmat, IsTail, tail_of, parts_of, is_bound, tail-IsPlain, split-tail, bound_steps,
}
use hash_chat.ContactLink.BoundRoundTrip.{is_given, result}
use hash_chat.Invites.{bad_onion_binding, bad_format, be128}
use hash_chat.Invites.RoundTrip.{length-be128, from_be_bytes-be128}
use hash_chat.Invites.Link.{
  prefix, invite_payload, bare_onion, link_of, binding_field, format_invite, bound_of, parse_fields,
  parse_parts, parse_invite,
}
use hash_chat.Invites.LinkFields.{
  be128-IsBytes, expires_lem, fixed_lem, IsIssue, slashed-IsPlain, hex-IsPlain, hex_field,
  digit-IsPlain, digit_slash, prefix_plain,
}

module _ (c : Crypto) (g : Signing) (h : Hazmat) (t : Texts) (lt : IsTexts t) (lg : IsSigning g)
    (lc : IsLawful c) (byte_keys : (secret : Bytes) → IsBytes (c.public_of secret)) where
  bound_lem :
      (full : Text) (ed x : Bytes) (o : Option Bytes)
      → IsTail h g full ed x o
      → bound_of c g h t full ed x (parts_of o) ≡ ok (is_bound o)
  unfolding bound_of
  bound_lem full ed x none w = refl
  bound_lem full ed x (some hs_sig) w =
      rw (fixed_lem 64 hs_sig w.bytes w.size, ◌>>=◌, w.checks) refl

  fields_lem :
      (id : LongTermIdentity) (full bare : Text) (invite_id : ℕ) (salt : Bytes) (expires now : ℕ)
      (o : Option Bytes)
      → IsTail h g full (ed25519_public_bytes c g id) (x25519_public_bytes c g id) o
      → IsBare c g h t full bare
      → IsIssue invite_id salt expires
      → now < expires
      → let x = x25519_public_bytes c g id in
        let ed = ed25519_public_bytes c g id in
        let sig = sign c g id (invite_payload bare x invite_id salt expires) in
        parse_fields c g h t now bare
          (hex_encode x)
          (hex_encode ed)
          (hex_encode (be128 invite_id))
          (hex_encode salt)
          (decimal expires)
          (hex_encode sig)
          (parts_of o)
        ≡ ok (record {
          onion = full;
          x25519 = x;
          ed25519 = ed;
          invite_id = invite_id;
          salt = salt;
          expires = expires;
          onion_bound = is_bound o;
        })
  unfolding parse_fields bare_onion x25519_public_bytes ed25519_public_bytes sign verify
  fields_lem id full bare invite_id salt expires now o w b v live =
      let x = c.public_of id.x25519_secret in
      let ed = g.verifying_key id.ed25519_signing in
      let payload = invite_payload bare x invite_id salt expires in
      let sig = g.sign id.ed25519_signing payload in
      rw
        (
          dotless bare b.label,
          b.again,
          ◌>>=◌,
          fixed_lem 32 x (byte_keys id.x25519_secret) (lc.length-public_of id.x25519_secret),
          fixed_lem 32 ed (lg.verifying_key-IsBytes id.ed25519_signing)
              (lg.length-verifying_key id.ed25519_signing),
          fixed_lem 16 (be128 invite_id) (be128-IsBytes invite_id) (length-be128 invite_id),
          fixed_lem 32 salt v.salt_bytes v.salt_size,
          expires_lem expires v.expires_word,
          fixed_lem 64 sig (lg.sign-IsBytes id.ed25519_signing payload)
              (lg.length-sign id.ed25519_signing payload),
          from_be_bytes-be128 invite_id v.id,
          lg.is_key-verifying_key id.ed25519_signing,
          lg.verifies-sign id.ed25519_signing payload,
          bound_lem full ed x o w,
          in_time expires now live,
        )
        refl
    where
      in_time : (a b : ℕ) → b < a → leb a b ≡ false
      in_time a b k = ground arith

  pieces :
      (id : LongTermIdentity) (bare : Text) (invite_id : ℕ) (salt : Bytes) (expires now : ℕ)
      (full : Text) (sig : Bytes) (o : Option Bytes)
      → IsTail h g full (ed25519_public_bytes c g id) (x25519_public_bytes c g id) o
      → All IsLabel bare
      → IsIssue invite_id salt expires
      → IsBytes sig
      → let x = x25519_public_bytes c g id in
        let ed = ed25519_public_bytes c g id in
        parse_invite c g h t (link_of c g h t bare x ed invite_id salt expires sig (tail_of o)) now
        ≡ parse_parts c g h t now (
            bare
            ∷ hex_encode x
            ∷ hex_encode ed
            ∷ hex_encode (be128 invite_id)
            ∷ hex_encode salt
            ∷ decimal expires
            ∷ hex_encode sig
            ∷ parts_of o)
  unfolding parse_invite x25519_public_bytes ed25519_public_bytes
  pieces id bare invite_id salt expires now full sig o w label v bytes =
      let x = c.public_of id.x25519_secret in
      let ed = g.verifying_key id.ed25519_signing in
      let xs = byte_keys id.x25519_secret in
      let eds = lg.verifying_key-IsBytes id.ed25519_signing in
      let r6 = hex_encode sig ++ tail_of o in
      let r5 = decimal expires ++ slash ∷ r6 in
      let r4 = hex_encode salt ++ slash ∷ r5 in
      let r3 = hex_encode (be128 invite_id) ++ slash ∷ r4 in
      let r2 = hex_encode ed ++ slash ∷ r3 in
      let r1 = hex_encode x ++ slash ∷ r2 in
      let plain = All-append IsPlain prefix (bare ++ slash ∷ r1) prefix_plain (
        All-append IsPlain bare (slash ∷ r1) (All-imp label-IsPlain bare label) (
          slashed-IsPlain (hex_encode x) (slash ∷ r2) (hex-IsPlain x xs) (
            slashed-IsPlain (hex_encode ed) (slash ∷ r3) (hex-IsPlain ed eds) (
              slashed-IsPlain (hex_encode (be128 invite_id)) (slash ∷ r4)
                (hex-IsPlain (be128 invite_id) (be128-IsBytes invite_id))
                (slashed-IsPlain (hex_encode salt) (slash ∷ r5) (hex-IsPlain salt v.salt_bytes) (
                  slashed-IsPlain (decimal expires) (slash ∷ r6)
                    (All-imp digit-IsPlain (decimal expires) (decimal-IsDigit expires))
                    (slashed-IsPlain (hex_encode sig) (tail_of o) (hex-IsPlain sig bytes)
                      (tail-IsPlain h g full ed x o w)))))))) in
      rw
        (
          trim_plain _ plain,
          strip-prefix_append prefix (bare ++ slash ∷ r1),
          ◌>>=◌,
          split_field bare r1 (All-imp label_slash bare label),
          hex_field x r2 xs,
          hex_field ed r3 eds,
          hex_field (be128 invite_id) r4 (be128-IsBytes invite_id),
          hex_field salt r5 v.salt_bytes,
          split_field (decimal expires) r6
              (All-imp digit_slash (decimal expires) (decimal-IsDigit expires)),
          split-tail h g full ed x sig o bytes w,
        )
        refl

  -- an invite link with the fields of an issue, bound to its onion or not, is parsed back
  pub parse_link :
      (id : LongTermIdentity) (full bare : Text) (invite_id : ℕ) (salt : Bytes) (expires now : ℕ)
      (o : Option Bytes)
      → IsTail h g full (ed25519_public_bytes c g id) (x25519_public_bytes c g id) o
      → IsBare c g h t full bare
      → IsIssue invite_id salt expires
      → now < expires
      → let x = x25519_public_bytes c g id in
        let ed = ed25519_public_bytes c g id in
        let sig = sign c g id (invite_payload bare x invite_id salt expires) in
        parse_invite c g h t (link_of c g h t bare x ed invite_id salt expires sig (tail_of o)) now
        ≡ ok (record {
          onion = full;
          x25519 = x;
          ed25519 = ed;
          invite_id = invite_id;
          salt = salt;
          expires = expires;
          onion_bound = is_bound o;
        })
  unfolding sign parse_parts
  parse_link id full bare invite_id salt expires now o w b v live =
      let payload = invite_payload bare (x25519_public_bytes c g id) invite_id salt expires in
      pieces id bare invite_id salt expires now full (g.sign id.ed25519_signing payload) o w b.label
        v (lg.sign-IsBytes id.ed25519_signing payload)
      ∙ seven o _ _ _ _ _ _ _
      ∙ fields_lem id full bare invite_id salt expires now o w b v live
    where
      seven :
          (p : Option Bytes) (p0 p1 p2 p3 p4 p5 p6 : Text)
          → parse_parts c g h t now (p0 ∷ p1 ∷ p2 ∷ p3 ∷ p4 ∷ p5 ∷ p6 ∷ parts_of p)
            ≡ parse_fields c g h t now p0 p1 p2 p3 p4 p5 p6 (parts_of p)
      seven none p0 p1 p2 p3 p4 p5 p6 = refl
      seven (some hs_sig) p0 p1 p2 p3 p4 p5 p6 = refl

  -- what an invite link is made of
  pub formatted_lem :
      (key : Option Bytes) (id : LongTermIdentity) (onion : Text) {full bare link : Text}
      (invite_id : ℕ) (salt : Bytes) (expires : ℕ)
      → IsHazmat g h
      → normalize_onion_parts c g h t onion ≡ ok (full, bare)
      → format_invite c g h t id onion key invite_id salt expires ≡ ok link
      → let x = x25519_public_bytes c g id in
        let ed = ed25519_public_bytes c g id in
        let sig = sign c g id (invite_payload bare x invite_id salt expires) in
        (o : Option Bytes) × (link
          ≡ link_of c g h t bare x ed invite_id salt expires sig (tail_of o))
        × IsTail h g full ed x o
        × (is_bound o ≡ is_given key)
  unfolding format_invite bare_onion binding_field
  formatted_lem none id onion {full} {bare} invite_id salt expires l e run =
      (none, result (sym run ∙ rw (e, ◌>>=◌) refl), tt, refl)
  formatted_lem (some key) id onion {full} {bare} invite_id salt expires l e run =
      let ed = ed25519_public_bytes c g id in
      let x = x25519_public_bytes c g id in
      let sig = sign c g id (invite_payload bare x invite_id salt expires) in
      let run = goes_on (bare_onion c g h t onion) _ (ap (map_err (λ x. bad_format)) e) run in
      let (more, field, run) = >>=-eq-ok (binding_field c g h t (some key) full ed x) _ run in
      let (hs_sig, end, w) = bound_steps g h l bad_onion_binding key ed x full _ field in
      (
        some hs_sig,
        sym (result run)
            ∙ ap (link_of c g h t bare x ed invite_id salt expires sig) (sym (result end)),
        w,
        refl,
      )
