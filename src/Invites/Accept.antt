-- ===== src/Invites/Accept.antt =====
-- invite.rs: issuing invites, accepting replies to them, and hello frames.
use hash_chat.Prelude.{
  ℕ, Bool, true, false, not, ◌&&◌, Option, none, some, [], ◌∷◌, ◌++◌, ◌==◌, if◌then◌else◌, Result,
  ok, err, panic, ok_or, refuse_if, map_err, ◌>>=◌, ◌>>◌,
}
use hash_chat.Prelude.Bytes.{Bytes}
use hash_chat.Prelude.Utf8.{Text, as_bytes, from_utf8, same_text}
use hash_chat.Prelude.BTreeMap.{Map}
use hash_chat.Padding.{pad, unpad}
use hash_chat.Wire.{FrameV3, frame_v3_sealed, is_sealed_hint}
use hash_chat.Ratchet.Crypto.{Crypto, ascii}
use hash_chat.Ratchet.State.{DoubleRatchet}
use hash_chat.Ratchet.Frame.{build_wire_aad_v3, encrypt_with_key, decrypt_with_key}
use hash_chat.Identity.{Signing, LongTermIdentity, x25519_dh_checked}
use hash_chat.OnionBinding.{Hazmat}
use hash_chat.ContactLink.Hex.{
  ContactLinkError, bad_format, bad_hex, bad_length, bad_onion, bad_signature, bad_onion_binding,
  unsigned_rejected, dh_failed,
}
use hash_chat.ContactLink.{Texts, SignedContact, parse_signed_contact_link, sas_fingerprint}
use hash_chat.Invites.{
  InviteError, PendingEntry, PendingInvites, be128, issue_with, redeem, revoke, purge_expired,
  unknown_or_used, bad_reply_tag,
}
use hash_chat.Invites
use hash_chat.Invites.Link.{
  Invite, format_invite, salted_ratchet, reply_tag, format_invite_reply, split_invite_reply,
}

-- `InviteError::from`
abbrev pub from_link_error : ContactLinkError → InviteError
from_link_error bad_signature = Invites.bad_signature
from_link_error bad_onion_binding = Invites.bad_onion_binding
from_link_error dh_failed = Invites.dh_failed
from_link_error bad_format = Invites.bad_format
from_link_error bad_hex = Invites.bad_format
from_link_error bad_length = Invites.bad_format
from_link_error bad_onion = Invites.bad_format
from_link_error unsigned_rejected = Invites.bad_format

-- what an accepted reply gives: the ratchet, the peer's SAS and its link
abbrev pub Accepted : Type 0
Accepted = DoubleRatchet × Text × SignedContact

-- the salt was redeemed or not, and the store is what is left
abbrev pub with_salt {ℓ} :
    {A : Type ℓ}
    → (Bytes → Result InviteError A)
    → Result InviteError Bytes × PendingInvites
    → Result InviteError A × PendingInvites
with_salt finish (salt, left) = (salt >>= finish, left)

-- `open.is_empty()`
abbrev pub no_entries : Map PendingEntry → Bool
no_entries [] = true
no_entries (e ∷ m) = false

unfoldable pub looks_like_hello : FrameV3 → Bool
looks_like_hello frame = is_sealed_hint frame.hint && (frame.step == 0 && frame.epoch_start == 0)

module _ (c : Crypto) where
  unfoldable pub hello_key : Bytes → Bytes → ℕ → Bytes
  unfolding ascii be128
  hello_key dh salt invite_id =
      c.expand (some salt) dh (ascii "hc-invite-hello-v1" ++ be128 invite_id)

  -- the first open invite whose key opens the frame, and what it holds
  unfoldable pub try_open : Bytes → Bytes → Bytes → Map PendingEntry → Option (ℕ × Bytes)
  unfolding hello_key decrypt_with_key
  try_open dh ciphertext aad [] = none
  try_open dh ciphertext aad ((id, e) ∷ m) =
      elim (decrypt_with_key c (hello_key dh e.salt id) ciphertext aad) [
        | ok plain ↦ some (id, plain)
        | err x ↦ try_open dh ciphertext aad m
        | panic ↦ none
      ]

module _ (c : Crypto) (g : Signing) (h : Hazmat) (t : Texts) where
  -- with the id and the salt that are drawn
  unfoldable pub issue :
      Option ℕ
      → Bytes
      → LongTermIdentity
      → Text
      → Option Bytes
      → ℕ
      → ℕ
      → PendingInvites
      → Result InviteError Text × PendingInvites
  unfolding issue_with format_invite
  issue drawn salt id onion onion_key now ttl_secs p =
      issue_with drawn salt
        (λ invite_id expires. format_invite c g h t id onion onion_key invite_id salt expires) now
        ttl_secs p

  -- the peer's link, and the ratchet that starts with it
  unfoldable pub start_with : Bytes → LongTermIdentity → Text → Bytes → Result InviteError Accepted
  unfolding parse_signed_contact_link salted_ratchet sas_fingerprint
  start_with secret local link salt = do
    peer ← map_err from_link_error (parse_signed_contact_link c g h t link)
    r ← salted_ratchet c g h t secret local peer.x25519 salt
    ok (r, sas_fingerprint t peer.ed25519 peer.x25519 peer.onion, peer)

  unfoldable pub accept :
      Bytes
      → LongTermIdentity
      → ℕ
      → Text
      → ℕ
      → PendingInvites
      → Result InviteError (DoubleRatchet × Text) × PendingInvites
  unfolding start_with redeem
  accept secret local invite_id peer_contact_link now p =
      with_salt
        (λ salt. do (r, sas, peer) ← start_with secret local peer_contact_link salt; ok (r, sas))
        (redeem invite_id now p)

  module _ (hmac : Bytes → Bytes → Bytes) where
    -- the tag is checked before the link
    unfoldable pub check_reply :
        Bytes → LongTermIdentity → ℕ → Bytes → Text → Bytes → Result InviteError Accepted
    unfolding reply_tag start_with
    check_reply secret local invite_id tag link salt = do
      refuse_if (not (same_text (reply_tag hmac salt invite_id link) tag)) bad_reply_tag
      start_with secret local link salt

    unfoldable pub replied :
        Bytes
        → LongTermIdentity
        → ℕ
        → PendingInvites
        → Result InviteError (ℕ × Bytes × Text)
        → Result InviteError Accepted × PendingInvites
    unfolding check_reply redeem
    replied secret local now p (ok (invite_id, tag, link)) =
        with_salt (check_reply secret local invite_id tag link) (redeem invite_id now p)
    replied secret local now p (err e) = (err e, p)
    replied secret local now p panic = (panic, p)

    unfoldable pub accept_reply :
        Bytes
        → LongTermIdentity
        → Text
        → ℕ
        → PendingInvites
        → Result InviteError Accepted × PendingInvites
    unfolding replied split_invite_reply
    accept_reply secret local reply now p = replied secret local now p (split_invite_reply reply)

    -- `eph` is the ephemeral secret that is drawn, and `nonce` the nonce
    unfoldable pub invite_hello_frame :
        Bytes → Option Bytes → Invite → Text → Result InviteError Bytes
    unfolding format_invite_reply hello_key pad build_wire_aad_v3 encrypt_with_key frame_v3_sealed
    invite_hello_frame eph nonce inv my_contact_link = do
      reply ← format_invite_reply hmac inv my_contact_link
      let shared = c.diffie_hellman eph inv.x25519
      refuse_if (not (c.was_contributory shared)) Invites.dh_failed
      padded ← map_err (λ e. Invites.bad_format) (pad (as_bytes reply))
      let aad = build_wire_aad_v3 [] 0 0 (c.public_of eph)
      ct ←
          map_err (λ e. Invites.bad_format)
            (encrypt_with_key c nonce (hello_key c shared inv.salt inv.invite_id) padded aad)
      ok (frame_v3_sealed 0 0 (c.public_of eph) ct)

    -- the reply in a frame that opened under the key of `id`
    unfoldable pub reply_in : Bytes → Result InviteError Text
    unfolding unpad
    reply_in padded = do
      raw ← map_err (λ e. Invites.bad_format) (unpad padded)
      ok_or (from_utf8 raw) Invites.bad_format

    -- the reply must name the invite whose key opened the frame
    unfoldable pub names_invite : ℕ → Result InviteError (ℕ × Bytes × Text) → Bool
    names_invite id (ok (rid, tag, link)) = rid == id
    names_invite id (err e) = false
    names_invite id panic = false

    unfoldable pub carried :
        Bytes
        → LongTermIdentity
        → ℕ
        → ℕ
        → PendingInvites
        → Result InviteError Text
        → Result InviteError Accepted × PendingInvites
    unfolding accept_reply names_invite revoke
    carried secret local id now p (ok reply) =
        if names_invite id (split_invite_reply reply)
        then accept_reply secret local reply now p
        else (err bad_reply_tag, (revoke id p).1)
    carried secret local id now p (err e) = (err e, (revoke id p).1)
    carried secret local id now p panic = (panic, p)

    unfoldable pub tried :
        Bytes
        → LongTermIdentity
        → ℕ
        → PendingInvites
        → Option (ℕ × Bytes)
        → Result InviteError Accepted × PendingInvites
    unfolding carried reply_in
    tried secret local now p none = (err unknown_or_used, p)
    tried secret local now p (some (id, padded)) = carried secret local id now p (reply_in padded)

    unfoldable pub with_dh :
        Bytes
        → LongTermIdentity
        → FrameV3
        → ℕ
        → PendingInvites
        → Option Bytes
        → Result InviteError Accepted × PendingInvites
    unfolding tried try_open build_wire_aad_v3
    with_dh secret local frame now p none = (err Invites.dh_failed, p)
    with_dh secret local frame now p (some dh) =
        tried secret local now p
          (try_open c dh frame.ciphertext (build_wire_aad_v3 [] 0 0 frame.sender_dh) p.invites)

    unfoldable pub open_hello :
        Bytes
        → LongTermIdentity
        → FrameV3
        → ℕ
        → PendingInvites
        → Result InviteError Accepted × PendingInvites
    unfolding looks_like_hello purge_expired with_dh
    open_hello secret local frame now p =
        let left = purge_expired now p in
        if not (looks_like_hello frame)
        then (err Invites.bad_format, p)
        else if no_entries left.invites
        then (err unknown_or_used, left)
        else with_dh secret local frame now left (x25519_dh_checked c g local frame.sender_dh)
