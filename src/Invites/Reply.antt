-- ===== src/Invites/Reply.antt =====
-- invite.rs: splitting a reply that was formatted.
use hash_chat.Prelude.{
  ℕ, ◌^◌, ◌≤◌, ◌<◌, ◌≡◌, ◌≢◌, refl, false, some, [], ◌∷◌, ◌++◌, length, length-take, ltb, le→ltb,
  ok, ◌>>=◌, All, All-append, All-take, arith,
}
use hash_chat.Prelude.Bytes.{Bytes, IsBytes}
use hash_chat.Prelude.Utf8.{Text, is_blank}
use hash_chat.Prelude.Plain.{IsPlain, trim_plain, as_bytes-plain}
use hash_chat.ContactLink.Hex.{hex_encode, hex_encode-IsHex}
use hash_chat.ContactLink.{slash}
use hash_chat.ContactLink.RoundTrip.{strip-prefix_append, All-imp, hex_slash}
use hash_chat.Invites.{be128}
use hash_chat.Invites.RoundTrip.{length-be128, from_be_bytes-be128}
use hash_chat.Invites.Link.{
  Invite, reply_prefix, contact_prefix, split_once, reply_tag, format_invite_reply,
  split_invite_reply,
}
use hash_chat.Invites.LinkFields.{be128-IsBytes, fixed_lem, slashed-IsPlain, hex-IsPlain}

-- HMAC-SHA256 gives 32 bytes
pub record IsMac (hmac : Bytes → Bytes → Bytes) : Type 0 where
  pub size : (key text : Bytes) → length (hmac key text) ≡ 32
  pub bytes : (key text : Bytes) → IsBytes (hmac key text)

split-once_field :
    (s rest : Text) → All (λ ch. ch ≢ slash) s → split_once (s ++ slash ∷ rest) ≡ some (s, rest)
unfolding split_once
split-once_field [] rest h = refl
split-once_field (ch ∷ s) rest h = ground (arith, split-once_field s rest h.1, h.0)

reply_prefix_plain : All IsPlain reply_prefix
unfolding reply_prefix
reply_prefix_plain = omega arith

contact_prefix_plain : All IsPlain contact_prefix
unfolding contact_prefix
contact_prefix_plain = omega arith

-- the contact link of a reply
pub record IsBody (body : Text) : Type 0 where
  pub plain : All IsPlain body
  pub present : is_blank body ≡ false
  pub short : length body ≤ 1024

module _ (hmac : Bytes → Bytes → Bytes) (mac : IsMac hmac) where
  pub tag-size : (salt : Bytes) (id : ℕ) (link : Text) → length (reply_tag hmac salt id link) ≡ 16
  unfolding reply_tag
  tag-size salt id link = omega (arith, length-take 16 (hmac salt _), mac.size salt _)

  pub tag-IsBytes : (salt : Bytes) (id : ℕ) (link : Text) → IsBytes (reply_tag hmac salt id link)
  unfolding reply_tag
  tag-IsBytes salt id link = All-take (λ b. b < 256) 16 (hmac salt _) (mac.bytes salt _)

  -- A reply to an invite splits into the id, the tag and the contact link it was made of.
  pub split-format :
      (inv : Invite) (body : Text)
      → inv.invite_id < 2 ^ 128
      → IsBody body
      → let link = contact_prefix ++ body in
        (format_invite_reply hmac inv link >>= split_invite_reply)
        ≡ ok (inv.invite_id, reply_tag hmac inv.salt inv.invite_id link, link)
  unfolding format_invite_reply split_invite_reply
  split-format inv body small v =
      let link = contact_prefix ++ body in
      let id = be128 inv.invite_id in
      let tag = reply_tag hmac inv.salt inv.invite_id link in
      let ids = be128-IsBytes inv.invite_id in
      let tags = tag-IsBytes inv.salt inv.invite_id link in
      let r1 = hex_encode tag ++ slash ∷ body in
      let plain = All-append IsPlain reply_prefix (hex_encode id ++ slash ∷ r1) reply_prefix_plain (
        All-append IsPlain (hex_encode id) (slash ∷ r1) (hex-IsPlain id ids) (
          slashed-IsPlain (hex_encode tag) (slash ∷ body) (hex-IsPlain tag tags)
            (omega arith, v.plain))) in
      let few : ltb 1024 (length body) ≡ false = le→ltb _ _ v.short in
      rw
        (
          trim_plain link (All-append IsPlain contact_prefix body contact_prefix_plain v.plain),
          strip-prefix_append contact_prefix body,
          ◌>>=◌,
          trim_plain _ plain,
          strip-prefix_append reply_prefix (hex_encode id ++ slash ∷ r1),
          split-once_field (hex_encode id) r1
              (All-imp hex_slash (hex_encode id) (hex_encode-IsHex id ids)),
          fixed_lem 16 id ids (length-be128 inv.invite_id),
          split-once_field (hex_encode tag) body
              (All-imp hex_slash (hex_encode tag) (hex_encode-IsHex tag tags)),
          fixed_lem 16 tag tags (tag-size inv.salt inv.invite_id link),
          v.present,
          as_bytes-plain body v.plain,
          few,
          from_be_bytes-be128 inv.invite_id small,
        )
        refl
