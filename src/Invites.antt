-- ===== src/Invites.antt =====
-- src/rust/invite.rs: the open invites of a profile. A bootstrap salt and an expiry stand under each
-- invite id, `[u8; 16]`, which is the number that its bytes spell: arrays of one length are in the
-- order of these numbers.
pub mod Link
pub mod Accept
pub mod LinkFields
pub mod LinkRoundTrip
pub mod Reply
pub mod Contact
pub mod Handshake
pub mod Hello
pub mod View
pub mod Once
pub mod RoundTrip
use hash_chat.Prelude.{
  ℕ, zero, suc, min, ◌+◌, ◌-◌, ◌*◌, ◌/◌, ◌%◌, ◌^◌, ◌<◌, Bool, true, false, not, ◌&&◌, ◌||◌, Option,
  none, some, List, [], ◌∷◌, ◌++◌, length, take, drop, ltb, leb, ◌==◌, if◌then◌else◌, Result, ok,
  err, panic, refuse_if, ◌>>=◌, ◌>>◌,
}
use hash_chat.Prelude.Bytes.{Bytes, be64, from_be_bytes}
use hash_chat.Prelude.Utf8.{Text}
use hash_chat.Prelude.BTreeMap.{Map, get, contains_key, insert, remove}

abbrev pub max_pending_invites : ℕ
max_pending_invites = 64

-- 7 days
abbrev pub max_invite_ttl_secs : ℕ
max_invite_ttl_secs = 7 * 24 * 3600

pub data InviteError : Type 0 where
  bad_format bad_signature bad_onion_binding expired unknown_or_used bad_reply_tag : InviteError
  too_many_pending bad_ttl dh_failed : InviteError

pub record PendingEntry : Type 0 where
  pub salt : Bytes
  pub expires : ℕ

pub record PendingInvites : Type 0 where
  pub invites : Map PendingEntry

abbrev pub no_invites : PendingInvites
no_invites = record { invites = [] }

-- `open.retain(|_, e| now < e.expires)`
unfoldable pub retain_open : ℕ → Map PendingEntry → Map PendingEntry
retain_open now [] = []
retain_open now ((id, e) ∷ m) =
    let rest = retain_open now m in if ltb now e.expires then (id, e) ∷ rest else rest

unfoldable pub purge_expired : ℕ → PendingInvites → PendingInvites
unfolding retain_open
purge_expired now p = record { invites = retain_open now p.invites }

-- the invite is stored once its link could be formatted
unfoldable pub store_issued :
    ℕ
    → PendingEntry
    → PendingInvites
    → Result InviteError Text
    → Result InviteError Text × PendingInvites
store_issued id e p (ok link) = (ok link, record { invites = insert id e p.invites })
store_issued id e p (err x) = (err x, p)
store_issued id e p panic = (panic, p)

-- a random id is drawn, or the generator fails
unfoldable pub issue_drawn :
    Bytes
    → ℕ
    → (ℕ → ℕ → Result InviteError Text)
    → PendingInvites
    → Option ℕ
    → Result InviteError Text × PendingInvites
unfolding store_issued
issue_drawn salt expires format p none = (err bad_format, p)
issue_drawn salt expires format p (some id) =
    store_issued id (record { salt = salt; expires = expires }) p (format id expires)

-- `issue`, with the id and the salt that are drawn, and the link of an expiry
unfoldable pub issue_with :
    Option ℕ
    → Bytes
    → (ℕ → ℕ → Result InviteError Text)
    → ℕ
    → ℕ
    → PendingInvites
    → Result InviteError Text × PendingInvites
unfolding purge_expired issue_drawn
issue_with drawn salt format now ttl_secs p =
    let open_now = purge_expired now p in
    let expires = min (now + ttl_secs) (2 ^ 64 - 1) in
    if ttl_secs == 0 || ltb max_invite_ttl_secs ttl_secs
    then (err bad_ttl, p)
    else if leb max_pending_invites (length open_now.invites)
    then (err too_many_pending, open_now)
    else issue_drawn salt expires format open_now drawn

unfoldable pub revoke : ℕ → PendingInvites → Bool × PendingInvites
revoke invite_id p =
    (contains_key invite_id p.invites, record { invites = remove invite_id p.invites })

unfoldable pub redeemed : ℕ → Option PendingEntry → Result InviteError Bytes
redeemed now none = err unknown_or_used
redeemed now (some entry) = if leb entry.expires now then err expired else ok entry.salt

unfoldable pub redeem : ℕ → ℕ → PendingInvites → Result InviteError Bytes × PendingInvites
unfolding redeemed
redeem invite_id now p =
    (redeemed now (get invite_id p.invites), record { invites = remove invite_id p.invites })

-- an id as its 16 bytes
unfoldable pub be128 : ℕ → Bytes
be128 n = be64 (n / 2 ^ 64 % 2 ^ 64) ++ be64 (n % 2 ^ 64)

unfoldable pub entry_bytes : ℕ × PendingEntry → Bytes
unfolding be128
entry_bytes (id, e) = be128 id ++ (e.salt ++ be64 e.expires)

unfoldable pub open_bytes : Map PendingEntry → Bytes
unfolding entry_bytes
open_bytes [] = []
open_bytes (e ∷ m) = entry_bytes e ++ open_bytes m

unfoldable pub to_bytes : PendingInvites → Bytes
unfolding open_bytes
to_bytes p = open_bytes p.invites

-- the chunks of 56 bytes, with the entries that were read
unfoldable pub read_chunks : ℕ → Bytes → Map PendingEntry → Result InviteError (Map PendingEntry)
read_chunks zero raw invites = ok invites
read_chunks (suc n) raw invites = do
  let chunk = take 56 raw
  let id = from_be_bytes (take 16 chunk)
  let salt = take 32 (drop 16 chunk)
  let expires = from_be_bytes (drop 48 chunk)
  refuse_if (contains_key id invites) bad_format
  read_chunks n (drop 56 raw) (insert id (record { salt = salt; expires = expires }) invites)

unfoldable pub from_bytes : Bytes → Result InviteError PendingInvites
unfolding read_chunks
from_bytes raw = do
  refuse_if (not (length raw % 56 == 0) || ltb max_pending_invites (length raw / 56)) bad_format
  invites ← read_chunks (length raw / 56) raw []
  ok (record { invites = invites })
