-- ===== src/Invites/Link.antt =====
-- invite.rs: invite links and the replies to them. An invite id is written as its 16 bytes.
use hash_chat.Prelude.{
  ℕ, ◌^◌, Bool, true, false, not, ◌&&◌, ◌||◌, Option, none, some, List, [], ◌∷◌, ◌++◌, length, take,
  ltb, leb, ◌==◌, if◌then◌else◌, Result, ok, err, ok_or, refuse_if, map_err, ◌>>=◌, ◌>>◌,
}
use hash_chat.Prelude.Bytes.{Bytes, be64, from_be_bytes}
use hash_chat.Prelude.Utf8.{Text, as_bytes, chars, same_text, trim, is_blank}
use hash_chat.Prelude.Decimal.{decimal, value_of}
use hash_chat.Ratchet.Crypto.{Crypto, ascii}
use hash_chat.Ratchet.State.{DoubleRatchet, new}
use hash_chat.Ratchet.Bootstrap.{init_directional_with_salt}
use hash_chat.Identity.{
  Signing, LongTermIdentity, ed25519_public_bytes, x25519_public_bytes, x25519_dh_checked, sign,
  verify,
}
use hash_chat.OnionBinding.{Hazmat, strip_prefix, onion_public_key, sign_binding, verify_binding}
use hash_chat.ContactLink.Hex.{hex_encode, hex_decode_fixed}
use hash_chat.ContactLink.{
  Texts, normalize_onion_parts, split_slash, has_dot, slash, sas_fingerprint,
}
use hash_chat.Invites.{
  InviteError, bad_format, bad_signature, bad_onion_binding, expired, dh_failed, be128,
}

pub record Invite : Type 0 where
  pub onion : Text
  pub x25519 : Bytes
  pub ed25519 : Bytes
  pub invite_id : ℕ
  pub salt : Bytes
  pub expires : ℕ
  pub onion_bound : Bool

unfoldable pub prefix : Text
unfolding chars
prefix = chars "hashchat://invite/v1/"

unfoldable pub reply_prefix : Text
unfolding chars
reply_prefix = chars "hashchat://invite-reply/v1/"

unfoldable pub contact_prefix : Text
unfolding chars
contact_prefix = chars "hashchat://contact/v1/"

unfoldable pub invite_payload : Text → Bytes → ℕ → Bytes → ℕ → Bytes
unfolding ascii be128
invite_payload onion_bare x25519 invite_id salt expires =
    ascii "hc-invite-v1"
    ++ (as_bytes onion_bare ++ (x25519 ++ (be128 invite_id ++ (salt ++ be64 expires))))

-- a field of `n` bytes
unfoldable pub fixed : ℕ → Text → Result InviteError Bytes
fixed n s = map_err (λ e. bad_format) (hex_decode_fixed n s)

-- `bytes().all(|b| b.is_ascii_digit())`
unfoldable pub all_digits : Bytes → Bool
all_digits [] = true
all_digits (b ∷ bs) = leb 48 b && leb b 57 && all_digits bs

-- decimal digits that fit `u64`
unfoldable pub parse_expires : Text → Result InviteError ℕ
unfolding all_digits value_of
parse_expires s =
    if is_blank s || not (all_digits (as_bytes s))
    then err bad_format
    else if ltb (value_of s) (2 ^ 64)
    then ok (value_of s)
    else err bad_format

unfoldable pub is_invite_link : Text → Bool
unfolding strip_prefix
is_invite_link raw = elim (strip_prefix prefix (trim raw)) [ none ↦ false | some rest ↦ true ]

unfoldable pub is_invite_reply : Text → Bool
unfolding strip_prefix
is_invite_reply raw = elim (strip_prefix reply_prefix (trim raw)) [
  | none ↦ false
  | some rest ↦ true
]

-- the text up to the first slash, and what follows it
unfoldable pub split_once : Text → Option (Text × Text)
split_once [] = none
split_once (ch ∷ s) =
    let rest = split_once s in
    if ch == slash then some ([], s) else elim rest [ none ↦ none | some (a, b) ↦ some (ch ∷ a, b) ]

module _ (c : Crypto) (g : Signing) (h : Hazmat) (t : Texts) where
  -- as `normalize_onion_parts`, with one error
  unfoldable pub bare_onion : Text → Result InviteError (Text × Text)
  bare_onion onion = map_err (λ e. bad_format) (normalize_onion_parts c g h t onion)

  abbrev pub link_of : Text → Bytes → Bytes → ℕ → Bytes → ℕ → Bytes → Text → Text
  link_of bare x ed id salt expires sig more =
      prefix
      ++ (bare
          ++ slash
            ∷ (hex_encode x
                ++ slash
                  ∷ (hex_encode ed
                      ++ slash
                        ∷ (hex_encode (be128 id)
                            ++ slash
                              ∷ (hex_encode salt
                                  ++ slash
                                    ∷ (decimal expires ++ slash ∷ (hex_encode sig ++ more)))))))

  -- the last field of a link that is bound to its onion
  unfoldable pub binding_field : Option Bytes → Text → Bytes → Bytes → Result InviteError Text
  binding_field none full ed x = ok []
  binding_field (some key) full ed x = do
    (hs_sig, pk) ← ok_or (sign_binding h g key ed x) bad_onion_binding
    own ← ok_or (onion_public_key h full) bad_onion_binding
    refuse_if (not (same_text own pk)) bad_onion_binding
    ok (slash ∷ hex_encode hs_sig)

  unfoldable pub format_invite :
      LongTermIdentity → Text → Option Bytes → ℕ → Bytes → ℕ → Result InviteError Text
  unfolding bare_onion invite_payload binding_field
  format_invite id onion onion_key invite_id salt expires = do
    (full, bare) ← bare_onion onion
    let x = x25519_public_bytes c g id
    let ed = ed25519_public_bytes c g id
    let sig = sign c g id (invite_payload bare x invite_id salt expires)
    more ← binding_field onion_key full ed x
    ok (link_of bare x ed invite_id salt expires sig more)

  unfoldable pub bound_of : Text → Bytes → Bytes → List Text → Result InviteError Bool
  unfolding fixed
  bound_of full ed25519 x25519 [] = ok false
  bound_of full ed25519 x25519 (field ∷ more) = do
    hs_sig ← fixed 64 field
    refuse_if (not (verify_binding h g full ed25519 x25519 hs_sig)) bad_onion_binding
    ok true

  unfoldable pub parse_fields :
      ℕ → Text → Text → Text → Text → Text → Text → Text → List Text → Result InviteError Invite
  unfolding bare_onion fixed parse_expires invite_payload bound_of
  parse_fields now p0 p1 p2 p3 p4 p5 p6 more = do
    refuse_if (has_dot p0) bad_format
    (full, bare) ← bare_onion p0
    x25519 ← fixed 32 p1
    ed25519 ← fixed 32 p2
    raw_id ← fixed 16 p3
    salt ← fixed 32 p4
    expires ← parse_expires p5
    sig ← fixed 64 p6
    let invite_id = from_be_bytes raw_id
    let payload = invite_payload bare x25519 invite_id salt expires
    refuse_if (not (verify c g ed25519 payload sig)) bad_signature
    onion_bound ← bound_of full ed25519 x25519 more
    refuse_if (leb expires now) expired
    ok (record {
      onion = full;
      x25519 = x25519;
      ed25519 = ed25519;
      invite_id = invite_id;
      salt = salt;
      expires = expires;
      onion_bound = onion_bound;
    })

  unfoldable pub parse_parts : ℕ → List Text → Result InviteError Invite
  unfolding parse_fields
  parse_parts now (p0 ∷ p1 ∷ p2 ∷ p3 ∷ p4 ∷ p5 ∷ p6 ∷ []) = parse_fields now p0 p1 p2 p3 p4 p5 p6 []
  parse_parts now (p0 ∷ p1 ∷ p2 ∷ p3 ∷ p4 ∷ p5 ∷ p6 ∷ p7 ∷ []) =
      parse_fields now p0 p1 p2 p3 p4 p5 p6 (p7 ∷ [])
  parse_parts now parts = err bad_format

  unfoldable pub parse_invite : Text → ℕ → Result InviteError Invite
  unfolding parse_parts
  parse_invite raw now = do
    rest ← ok_or (strip_prefix prefix (trim raw)) bad_format
    parse_parts now (split_slash rest)

  -- `secret` is the key that `DoubleRatchet::new` draws
  unfoldable pub salted_ratchet :
      Bytes → LongTermIdentity → Bytes → Bytes → Result InviteError DoubleRatchet
  salted_ratchet secret local peer_x25519 salt = do
    shared ← ok_or (x25519_dh_checked c g local peer_x25519) dh_failed
    ok (
        init_directional_with_salt c shared (x25519_public_bytes c g local) peer_x25519 salt
          (new c secret))

  unfoldable pub bootstrap_from_invite :
      Bytes → LongTermIdentity → Text → ℕ → Result InviteError (DoubleRatchet × Text × Invite)
  unfolding parse_invite salted_ratchet
  bootstrap_from_invite secret local link now = do
    inv ← parse_invite link now
    r ← salted_ratchet secret local inv.x25519 inv.salt
    ok (r, sas_fingerprint t inv.ed25519 inv.x25519 inv.onion, inv)

-- `hmac` is HMAC-SHA256 of the crate ring, at a key and the text
module _ (hmac : Bytes → Bytes → Bytes) where
  unfoldable pub reply_tag : Bytes → ℕ → Text → Bytes
  unfolding ascii
  reply_tag salt invite_id contact_link =
      take 16 (hmac salt (ascii "hc-invite-reply-v1" ++ (be128 invite_id ++ as_bytes contact_link)))

  unfoldable pub format_invite_reply : Invite → Text → Result InviteError Text
  unfolding reply_tag
  format_invite_reply inv my_contact_link = do
    let link = trim my_contact_link
    body ← ok_or (strip_prefix contact_prefix link) bad_format
    ok (
        reply_prefix
        ++ (hex_encode (be128 inv.invite_id)
            ++ slash ∷ (hex_encode (reply_tag inv.salt inv.invite_id link) ++ slash ∷ body)))

-- the id, the tag and the contact link of a reply
unfoldable pub split_invite_reply : Text → Result InviteError (ℕ × Bytes × Text)
unfolding fixed split_once
split_invite_reply raw = do
  rest ← ok_or (strip_prefix reply_prefix (trim raw)) bad_format
  (first, rest) ← ok_or (split_once rest) bad_format
  id ← fixed 16 first
  (second, body) ← ok_or (split_once rest) bad_format
  tag ← fixed 16 second
  refuse_if (is_blank body || ltb 1024 (length (as_bytes body))) bad_format
  ok (from_be_bytes id, tag, contact_prefix ++ body)
