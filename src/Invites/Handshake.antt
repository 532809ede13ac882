-- ===== src/Invites/Handshake.antt =====
-- invite.rs: an invite from its issue to the two ratchets.
use hash_chat.Prelude.{
  goes_on, Bool, Option, ℕ, ◌<◌, ◌≡◌, ◌≢◌, refl, ap, sym, ◌∙◌, subst, true, false, some, length,
  leb, ok, map_err, ◌>>=◌, arith,
}
use hash_chat.Prelude.Bytes.{Bytes}
use hash_chat.Prelude.Utf8.{Text}
use hash_chat.Prelude.Words.{same_text_refl}
use hash_chat.Prelude.BTreeMap.{get, remove}
use hash_chat.Ratchet.Crypto.{Crypto}
use hash_chat.Ratchet.State.{DoubleRatchet, new}
use hash_chat.Ratchet.Bootstrap.{init_directional_with_salt}
use hash_chat.Ratchet.Session.{InStep}
use hash_chat.Ratchet.Session.Start.{salted_start}
use hash_chat.Identity.{
  Signing, LongTermIdentity, ed25519_public_bytes, x25519_public_bytes, x25519_dh_checked,
}
use hash_chat.OnionBinding.{Hazmat}
use hash_chat.ContactLink.{
  Texts, SignedContact, normalize_onion_parts, parse_signed_contact_link, sas_fingerprint,
}
use hash_chat.ContactLink.RoundTrip.{normalize-IsBare}
use hash_chat.Invites.{PendingInvites, redeem, redeemed}
use hash_chat.Invites.Link.{
  Invite, format_invite, parse_invite, bootstrap_from_invite, salted_ratchet, reply_tag,
  format_invite_reply, split_invite_reply,
}
use hash_chat.Invites.Accept.{start_with, check_reply, replied, accept_reply}
use hash_chat.Invites.LinkFields.{IsIssue}
use hash_chat.Invites.LinkRoundTrip.{formatted_lem, parse_link}
use hash_chat.Invites.Reply.{split-format}
use hash_chat.ContactLink.BoundRoundTrip.{format_contact, is_given}
use hash_chat.Invites.Contact.{IsLinking, contact_lem}

module _ (c : Crypto) (g : Signing) (h : Hazmat) (t : Texts) (hmac : Bytes → Bytes → Bytes)
    (l : IsLinking c g h t hmac) where
  agreed :
      (local peer : LongTermIdentity)
      → c.was_contributory (c.diffie_hellman local.x25519_secret (c.public_of peer.x25519_secret))
        ≡ true
      → x25519_dh_checked c g local (x25519_public_bytes c g peer)
        ≡ some (c.diffie_hellman local.x25519_secret (c.public_of peer.x25519_secret))
  unfolding x25519_dh_checked x25519_public_bytes
  agreed local peer e = rw e refl

  -- the invite as the redeemer reads it
  abbrev pub invite_of : Option Bytes → LongTermIdentity → Text → ℕ → Bytes → ℕ → Invite
  invite_of key inviter full id salt expires = record {
    onion = full;
    x25519 = x25519_public_bytes c g inviter;
    ed25519 = ed25519_public_bytes c g inviter;
    invite_id = id;
    salt = salt;
    expires = expires;
    onion_bound = is_given key;
  }

  -- one side's ratchet
  abbrev pub side : Bytes → LongTermIdentity → LongTermIdentity → Bytes → DoubleRatchet
  side secret local peer salt =
      init_directional_with_salt c
        (c.diffie_hellman local.x25519_secret (c.public_of peer.x25519_secret))
        (x25519_public_bytes c g local) (x25519_public_bytes c g peer) salt (new c secret)

  redeemer_lem :
      (key : Option Bytes) (secret : Bytes) (redeemer inviter : LongTermIdentity) (full link : Text)
      (id : ℕ) (salt : Bytes) (expires now : ℕ)
      → parse_invite c g h t link now ≡ ok (invite_of key inviter full id salt expires)
      → c.was_contributory
          (c.diffie_hellman redeemer.x25519_secret (c.public_of inviter.x25519_secret))
        ≡ true
      → bootstrap_from_invite c g h t secret redeemer link now
        ≡ ok (
          side secret redeemer inviter salt,
          sas_fingerprint t
              (ed25519_public_bytes c g inviter)
              (x25519_public_bytes c g inviter)
              full,
          invite_of key inviter full id salt expires,
        )
  unfolding bootstrap_from_invite salted_ratchet
  redeemer_lem key secret redeemer inviter full link id salt expires now e live =
      rw (e, ◌>>=◌, agreed redeemer inviter live) refl

  inviter_lem :
      (secret : Bytes) (inviter redeemer : LongTermIdentity) (id : ℕ) (salt : Bytes)
      (expires now : ℕ) (contact reply : Text) (peer : SignedContact) (p : PendingInvites)
      → split_invite_reply reply ≡ ok (id, reply_tag hmac salt id contact, contact)
      → parse_signed_contact_link c g h t contact ≡ ok peer
      → peer.x25519 ≡ x25519_public_bytes c g redeemer
      → get id p.invites ≡ some (record { salt = salt; expires = expires })
      → now < expires
      → c.was_contributory
          (c.diffie_hellman inviter.x25519_secret (c.public_of redeemer.x25519_secret))
        ≡ true
      → accept_reply c g h t hmac secret inviter reply now p ≡ (
        ok (
          side secret inviter redeemer salt,
          sas_fingerprint t peer.ed25519 peer.x25519 peer.onion,
          peer,
        ),
        record { invites = remove id p.invites },
      )
  unfolding accept_reply replied redeem redeemed check_reply start_with salted_ratchet
  inviter_lem secret inviter redeemer id salt expires now contact reply peer p split parsed key here
        live agree =
      rw
        (
          split,
          here,
          in_time expires now live,
          ◌>>=◌,
          same_text_refl (reply_tag hmac salt id contact),
          parsed,
          map_err,
          key,
          agreed inviter redeemer agree,
        )
        refl
    where
      in_time : (a b : ℕ) → b < a → leb a b ≡ false
      in_time a b k = ground arith

  -- the invite that a link carries
  invite_lem :
      (key : Option Bytes) (inviter : LongTermIdentity) (onion : Text) {full bare link : Text}
      (id : ℕ) (salt : Bytes) (expires now : ℕ)
      → normalize_onion_parts c g h t onion ≡ ok (full, bare)
      → format_invite c g h t inviter onion key id salt expires ≡ ok link
      → IsIssue id salt expires
      → now < expires
      → parse_invite c g h t link now ≡ ok (invite_of key inviter full id salt expires)
  invite_lem key inviter onion {full} {bare} {link} id salt expires now e made v live =
      let b = normalize-IsBare c g h t l.texts onion e in
      let (o, same, w, bound) =
        formatted_lem c g h t l.texts l.signing l.crypto l.keys key inviter onion id salt expires
          l.hazmat e made in
      ap (λ k. parse_invite c g h t k now) same
      ∙ parse_link c g h t l.texts l.signing l.crypto l.keys inviter full bare id salt expires now o
          w b v live
      ∙ ap {A = Bool}
          (λ k. ok (record (invite_of key inviter full id salt expires) { onion_bound = k })) bound

  -- An invite that the inviter's link carries to the redeemer, and the redeemer's reply to it that
  -- reaches the inviter while the invite is open, each link bound to its onion by the onion's key or
  -- not: both sides accept, the invite is gone from the store, and each side's ratchet is in step
  -- with the other's. The invite has 16 bytes of id, 32 of salt and an expiry of 64 bits, which is
  -- ahead when either side reads; the two identities have different static keys that agree on a
  -- secret, and each side's own ratchet secret has 32 bytes. The crates behind the links keep the
  -- laws of `IsLinking`: the ratchet's laws, signatures and onion bindings that verify, lower case
  -- that keeps ASCII lower case, the sizes of keys and tags.
  pub handshake :
      (inviter redeemer : LongTermIdentity) (secret_i secret_r : Bytes) (onion_i onion_r : Text)
      (key_i key_r : Option Bytes) {full_i bare_i full_r bare_r link contact reply : Text} (id : ℕ)
      (salt : Bytes) (expires read_at back_at : ℕ) (p : PendingInvites)
      → normalize_onion_parts c g h t onion_i ≡ ok (full_i, bare_i)
      → normalize_onion_parts c g h t onion_r ≡ ok (full_r, bare_r)
      → format_invite c g h t inviter onion_i key_i id salt expires ≡ ok link
      → format_contact c g h t key_r redeemer onion_r ≡ ok contact
      → format_invite_reply hmac (invite_of key_i inviter full_i id salt expires) contact ≡ ok reply
      → IsIssue id salt expires
      → read_at < expires
      → back_at < expires
      → get id p.invites ≡ some (record { salt = salt; expires = expires })
      → c.was_contributory
          (c.diffie_hellman inviter.x25519_secret (c.public_of redeemer.x25519_secret))
        ≡ true
      → x25519_public_bytes c g redeemer ≢ x25519_public_bytes c g inviter
      → length secret_i ≡ 32
      → length secret_r ≡ 32
      → (r s : DoubleRatchet) × (sas_i sas_r : Text) × (peer : SignedContact)
        × (bootstrap_from_invite c g h t secret_r redeemer link read_at
            ≡ ok (r, sas_i, invite_of key_i inviter full_i id salt expires))
        × (accept_reply c g h t hmac secret_i inviter reply back_at p
            ≡ (ok (s, sas_r, peer), record { invites = remove id p.invites }))
        × (peer.onion ≡ full_r)
        × (peer.onion_bound ≡ is_given key_r)
        × InStep c r s
        × InStep c s r
  handshake inviter redeemer secret_i secret_r onion_i onion_r key_i key_r {full_i} {bare_i}
        {full_r} {bare_r} {link} {contact} {reply} id salt expires read_at back_at p ni nr made_link
        made_contact made_reply v read back here agree differ size_i size_r =
      let inv = invite_of key_i inviter full_i id salt expires in
      let flip = l.crypto.agreement inviter.x25519_secret redeemer.x25519_secret in
      let parsed_invite =
        invite_lem key_i inviter onion_i id salt expires read_at ni made_link v read in
      let (body, two_parts, sound, parsed_contact) =
        contact_lem c g h t hmac l key_r redeemer onion_r nr made_contact in
      let split = goes_on (format_invite_reply hmac inv contact) _ made_reply (
        subst
          (λ k.
            (format_invite_reply hmac inv k >>= split_invite_reply)
            ≡ ok (id, reply_tag hmac salt id k, k))
          (sym two_parts) (split-format hmac l.mac inv body v.id sound)) in
      let steps =
        salted_start c l.crypto
          (c.diffie_hellman redeemer.x25519_secret (c.public_of inviter.x25519_secret)) salt
          (x25519_public_bytes c g redeemer) (x25519_public_bytes c g inviter) differ secret_r
          secret_i size_r size_i in
      let same_side : init_directional_with_salt c
            (c.diffie_hellman redeemer.x25519_secret (c.public_of inviter.x25519_secret))
            (x25519_public_bytes c g inviter) (x25519_public_bytes c g redeemer) salt
            (new c secret_i)
          ≡ side secret_i inviter redeemer salt =
        ap
          (λ k.
            init_directional_with_salt c k (x25519_public_bytes c g inviter)
              (x25519_public_bytes c g redeemer) salt (new c secret_i))
          (sym flip) in
      (
        side secret_r redeemer inviter salt,
        side secret_i inviter redeemer salt,
        _,
        _,
        _,
        redeemer_lem key_i secret_r redeemer inviter full_i link id salt expires read_at
            parsed_invite (ap c.was_contributory (sym flip) ∙ agree),
        inviter_lem secret_i inviter redeemer id salt expires back_at contact reply _ p split
            parsed_contact refl here back agree,
        refl,
        refl,
        subst (InStep c (side secret_r redeemer inviter salt)) same_side steps.0,
        subst (λ k. InStep c k (side secret_r redeemer inviter salt)) same_side steps.1,
      )
