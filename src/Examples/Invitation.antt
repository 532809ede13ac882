-- ===== src/Examples/Invitation.antt =====
-- An invite, and its reply.
use hash_chat.Prelude.{
  ℕ, zero, suc, ◌+◌, ◌<◌, ◌≤◌, ◌≡◌, ◌≢◌, refl, ap, Option, none, some, List, [], ◌∷◌, ◌++◌, ◌∙◌,
  >>=-eq-ok, length, replicate, Result, ok, err, panic, Bool, true, false, ◌>>=◌, arith,
}
use hash_chat.Prelude.Bytes.{Bytes}
use hash_chat.Prelude.Utf8.{Text, chars}
use hash_chat.Prelude.BTreeMap.{get, remove}
use hash_chat.Ratchet.State.{DoubleRatchet}
use hash_chat.Ratchet.Session.{InStep}
use hash_chat.Ratchet.Frame.{build_wire_aad_v3}
use hash_chat.Wire.{FrameV3}
use hash_chat.Identity.{LongTermIdentity, ed25519_public_bytes, x25519_public_bytes}
use hash_chat.ContactLink.{SignedContact, normalize_onion_parts, format_signed_contact_link}
use hash_chat.Invites.{PendingInvites, no_invites, from_bytes, to_bytes}
use hash_chat.Invites.RoundTrip.{invites_from_bytes-to_bytes}
use hash_chat.Invites.View.{Call, issues, redeems, revokes, purges, after, answer, Refines, refines}
use hash_chat.Invites.Once.{handed, issued, handed_once}
use hash_chat.Invites.Link.{
  Invite, contact_prefix, format_invite, bare_onion, binding_field, format_invite_reply,
  bootstrap_from_invite,
}
use hash_chat.Invites.LinkFields.{IsIssue}
use hash_chat.Invites.Accept.{accept_reply, hello_key}
use hash_chat.ContactLink.{format_bound_contact_link}
use hash_chat.ContactLink.BoundRoundTrip.{format_contact}
use hash_chat.OnionBinding.{sign_binding, binding_message, onion_public_key}
use hash_chat.Invites.Contact.{contact_lem}
use hash_chat.Invites.Handshake.{handshake, invite_of}
use hash_chat.Invites.Reply.{split-format}
use hash_chat.Examples.Toy.{toy, block, tag}
use hash_chat.Examples.ToyLinks.{
  toy_signing, toy_hazmat, toy_texts, toy_hmac, toy-IsLinking, alice, bob, address, onion_key,
}

abbrev value {ℓ κ} : {E : Type ℓ} {A : Type κ} → A → Result E A → A
value d (ok a) = a
value d (err e) = d
value d panic = d

abbrev is_good {ℓ κ} : {E : Type ℓ} {A : Type κ} → Result E A → Bool
is_good (ok a) = true
is_good (err e) = false
is_good panic = false

good_value : {E A : Type 0} (d : A) (r : Result E A) → is_good r ≡ true → r ≡ ok (value d r)
good_value d (ok a) h = refl
good_value d (err e) h = cc
good_value d panic h = cc

abbrev full : Text
unfolding chars
full = chars "aaaaaaaaaaaaaaaaaaaaaaaaaaaaaaaaaaaaaaaaaaaaaaaaaaaaaaad.onion"

abbrev salt : Bytes
salt = replicate 32 9

abbrev waiting : PendingInvites
waiting = record { invites = (5, record { salt = salt; expires = 100 }) ∷ [] }

link : Text
unfolding format_invite
link =
    value []
      (format_invite toy toy_signing toy_hazmat toy_texts alice address (some onion_key) 5 salt 100)

contact : Text
contact =
    value [] (format_contact toy toy_signing toy_hazmat toy_texts (some onion_key) bob address)

reply : Text
unfolding contact
reply = value [] (
    format_invite_reply toy_hmac
      (invite_of toy toy_signing toy_hazmat toy_texts toy_hmac toy-IsLinking (some onion_key) alice
        full 5 salt 100)
      contact)

own_key : onion_public_key toy_hazmat full ≡ some (replicate 32 0)
unfolding onion_public_key hash_chat.Prelude.Utf8.as_bytes hash_chat.Prelude.Utf8.to_ascii_lowercase
    hash_chat.Prelude.Utf8.trim hash_chat.Prelude.Utf8.is_whitespace
    hash_chat.Prelude.Utf8.same_text hash_chat.Prelude.Utf8.encode_char
    hash_chat.OnionBinding.base32_decode
own_key = refl

-- the binding of an identity by that key
abbrev binding : LongTermIdentity → Bytes × Bytes
binding id = (
  toy_hazmat.raw_sign (replicate 64 0) (
      binding_message (replicate 32 0) (ed25519_public_bytes toy toy_signing id)
        (x25519_public_bytes toy toy_signing id)),
  replicate 32 0,
)

signed_by :
    (id : LongTermIdentity)
    → sign_binding toy_hazmat toy_signing onion_key
        (ed25519_public_bytes toy toy_signing id)
        (x25519_public_bytes toy toy_signing id)
      ≡ some (binding id)
unfolding sign_binding hash_chat.OnionBinding.expanded_of hash_chat.OnionBinding.base64_decode
    hash_chat.Prelude.Utf8.from_utf8 hash_chat.Prelude.Utf8.trim
    hash_chat.Prelude.Utf8.is_whitespace hash_chat.Prelude.Utf8.as_bytes
    hash_chat.Prelude.Utf8.encode_char hash_chat.Prelude.Utf8.lead
signed_by id = refl

address_stands :
    normalize_onion_parts toy toy_signing toy_hazmat toy_texts address ≡ ok (full, address)
unfolding normalize_onion_parts hash_chat.Prelude.Utf8.as_bytes
    hash_chat.Prelude.Utf8.to_ascii_lowercase hash_chat.Prelude.Utf8.trim
    hash_chat.Prelude.Utf8.is_whitespace hash_chat.Prelude.Utf8.same_text
    hash_chat.Prelude.Utf8.encode_char hash_chat.OnionBinding.onion_public_key
    hash_chat.OnionBinding.base32_decode
address_stands = refl

link_made :
    format_invite toy toy_signing toy_hazmat toy_texts alice address (some onion_key) 5 salt 100
    ≡ ok link
unfolding link format_invite bare_onion binding_field hash_chat.Prelude.Utf8.same_text
link_made = good_value [] _ (rw (address_stands, ◌>>=◌, signed_by alice, own_key) refl)

contact_made :
    format_contact toy toy_signing toy_hazmat toy_texts (some onion_key) bob address ≡ ok contact
unfolding contact format_bound_contact_link format_signed_contact_link
    hash_chat.Prelude.Utf8.same_text
contact_made = good_value [] _ (rw (address_stands, ◌>>=◌, signed_by bob, own_key) refl)

abbrev inv : Invite
inv =
    invite_of toy toy_signing toy_hazmat toy_texts toy_hmac toy-IsLinking (some onion_key) alice
      full 5 salt 100

reply_good : is_good (format_invite_reply toy_hmac inv contact) ≡ true
reply_good =
    let (body, parts, sound, parsed) =
      contact_lem toy toy_signing toy_hazmat toy_texts toy_hmac toy-IsLinking (some onion_key) bob
        address address_stands contact_made in
    let (made, runs, rest) =
      >>=-eq-ok (format_invite_reply toy_hmac inv (contact_prefix ++ body)) _
        (split-format toy_hmac toy-IsLinking.mac inv body (omega arith) sound) in
    ap is_good (ap (format_invite_reply toy_hmac inv) parts ∙ runs)

reply_made : format_invite_reply toy_hmac inv contact ≡ ok reply
unfolding reply
reply_made = good_value [] _ reply_good

open_there : get 5 waiting.invites ≡ some (record { salt = salt; expires = 100 })
unfolding get
open_there = refl

differ : x25519_public_bytes toy toy_signing bob ≢ x25519_public_bytes toy toy_signing alice
unfolding x25519_public_bytes
differ e = cc e

handshake_example :
    (r s : DoubleRatchet) × (sas_i sas_r : Text) × (peer : SignedContact) × (bootstrap_from_invite
        toy toy_signing toy_hazmat toy_texts
        (replicate 32 7)
        bob
        link
        50
      ≡ ok (r, sas_i, inv))
    × (accept_reply toy toy_signing toy_hazmat toy_texts toy_hmac
          (replicate 32 8)
          alice
          reply
          60
          waiting
        ≡ (ok (s, sas_r, peer), record { invites = remove 5 waiting.invites }))
    × (peer.onion ≡ full)
    × (peer.onion_bound ≡ true)
    × InStep toy r s
    × InStep toy s r
handshake_example =
    handshake toy toy_signing toy_hazmat toy_texts toy_hmac toy-IsLinking alice bob (replicate 32 8)
      (replicate 32 7) address address (some onion_key) (some onion_key) 5 salt 100 50 60 waiting
      address_stands address_stands link_made contact_made reply_made issue (omega arith)
      (omega arith) open_there refl differ refl refl
  where
    issue : IsIssue 5 salt 100
    issue = record {
      id = omega arith;
      salt_size = refl;
      salt_bytes = omega arith;
      expires_word = omega arith;
    }

invites_from_bytes-to_bytes_example : from_bytes (to_bytes waiting) ≡ ok waiting
invites_from_bytes-to_bytes_example = invites_from_bytes-to_bytes waiting (record {
  sorted = (tt, tt);
  entries = (record { id = omega arith; salt = refl; expires = omega arith }, tt);
  capped = omega arith;
})

refines_example :
    Refines (redeems 5 60) waiting (answer (redeems 5 60) waiting) (after (redeems 5 60) waiting)
refines_example = refines (redeems 5 60) waiting (tt, tt)

-- issued once, redeemed twice
abbrev calls : List Call
calls =
    issues (some 5) salt (λ id expires. ok []) 10 90
    ∷ redeems 5 60
    ∷ redeems 5 60
    ∷ revokes 5
    ∷ purges 70
    ∷ []

handed_once_example : handed 5 calls no_invites ≤ issued 5 calls no_invites
handed_once_example = handed_once 5 calls

-- sealed under the key that the open invite gives
abbrev hello : FrameV3
hello =
    let sender_dh : Bytes = replicate 32 1 in
    let nonce : Bytes = replicate 12 0 in
    record {
      hint = [];
      step = 0;
      epoch_start = 0;
      sender_dh = sender_dh;
      ciphertext =
          nonce
          ++ (tag (hello_key toy (block 34) salt 5) nonce (build_wire_aad_v3 [] 0 0 sender_dh)
              ++ replicate 30 0);
    }
