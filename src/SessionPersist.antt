-- ===== src/SessionPersist.antt =====
-- src/rust/session_persist.rs: the session state, and the operations of the contact and policy lists.
pub mod Pending
pub mod Contacts
pub mod Tokens
pub mod Codec
pub mod Valid
pub mod KeepsLists
pub mod KeepsContacts
pub mod Life
use hash_chat.Prelude.{
  ℕ, zero, suc, ◌+◌, Bool, true, false, not, ◌&&◌, ◌||◌, Option, none, some, List, [], ◌∷◌, ◌++◌,
  length, replicate, ltb, leb, if◌then◌else◌, Result, ok, err,
}
use hash_chat.Prelude.Bytes.{Bytes}
use hash_chat.Prelude.Utf8.{Text, chars, same_text, is_blank, trim, to_ascii_lowercase}
use hash_chat.Prelude.Words.{has_text, retain_other}
use hash_chat.Net.{NetConfig, PostureProfile, standard, extreme, default}

-- src/rust/disappearing.rs
abbrev pub default_lock_timeout_secs : ℕ
default_lock_timeout_secs = 300

-- src/rust/binary_check.rs
abbrev pub no_binary_digest : Bytes
no_binary_digest = replicate 32 0

pub record IdentityOnionState : Type 0 where
  pub seed : Bytes
  pub onion : Text
  pub onion_key : Bytes

pub record PersistedContact : Type 0 where
  pub id : Text
  pub display_name : Text
  pub onion : Text
  pub x25519 : Bytes
  pub ed25519 : Bytes

-- src/rust/wipe_settings.rs
pub record WipeSettings : Type 0 where
  pub deadman_days : ℕ
  pub failwipe_limit : ℕ
  pub duress_digest : Bytes

pub record SessionState : Type 0 where
  pub identity : IdentityOnionState
  pub contacts : List PersistedContact
  pub ratchets : List (Text × Bytes)
  pub pending : List (Text × Bytes)
  pub net : NetConfig
  pub disappear_ttl_secs : ℕ
  pub blocked_ids : List Text
  pub muted_ids : List Text
  pub verified_ids : List Text
  pub lock_timeout_secs : ℕ
  pub send_jitter_secs : ℕ
  pub clock_mark_unix : ℕ
  pub binary_digest : Bytes
  pub wipe_settings : Option WipeSettings
  pub save_id : Option Bytes
  pub pending_invites : Bytes

unfoldable pub from_identity_with_net : IdentityOnionState → NetConfig → SessionState
from_identity_with_net identity net = record {
  identity = identity;
  contacts = [];
  ratchets = [];
  pending = [];
  net = net;
  disappear_ttl_secs = 0;
  blocked_ids = [];
  muted_ids = [];
  verified_ids = [];
  lock_timeout_secs = default_lock_timeout_secs;
  send_jitter_secs = 0;
  clock_mark_unix = 0;
  binary_digest = no_binary_digest;
  wipe_settings = none;
  save_id = none;
  pending_invites = [];
}

unfoldable pub from_identity : IdentityOnionState → SessionState
unfolding from_identity_with_net
from_identity identity = from_identity_with_net identity default

unfoldable pub is_blocked_id : Text → SessionState → Bool
is_blocked_id contact_id s = has_text contact_id s.blocked_ids

unfoldable pub is_muted_id : Text → SessionState → Bool
is_muted_id contact_id s = has_text contact_id s.muted_ids

unfoldable pub is_verified_id : Text → SessionState → Bool
is_verified_id contact_id s = has_text contact_id s.verified_ids

pub data SendRefusal : Type 0 where
  blocked_contact unverified_contact : SendRefusal

unfoldable pub refuse_send_if_blocked : Text → SessionState → Result SendRefusal (Unit {0})
unfolding is_blocked_id
refuse_send_if_blocked contact_id s =
    if is_blocked_id contact_id s then err blocked_contact else ok tt

unfoldable pub refuse_send_if_unverified : Text → SessionState → Result SendRefusal (Unit {0})
unfolding is_verified_id
refuse_send_if_unverified contact_id s =
    if is_verified_id contact_id s then ok tt else err unverified_contact

pub data InboundDenyPolicy : Type 0 where
  accept decrypt_no_display drop_no_decrypt : InboundDenyPolicy

unfoldable pub inbound_deny_policy : Text → SessionState → InboundDenyPolicy
unfolding is_blocked_id is_muted_id
inbound_deny_policy contact_id s =
    if is_blocked_id contact_id s
    then drop_no_decrypt
    else if is_muted_id contact_id s
    then decrypt_no_display
    else accept

-- the new state stands behind the value that is returned
unfoldable pub verify_contact_id : Text → SessionState → Bool × SessionState
verify_contact_id id s =
    if has_text id s.verified_ids
    then (false, s)
    else (true, record s { verified_ids = s.verified_ids ++ id ∷ [] })

unfoldable pub block_contact_id : Text → SessionState → Bool × SessionState
block_contact_id id s =
    let unmuted = record s { muted_ids = retain_other id s.muted_ids } in
    if has_text id s.blocked_ids
    then (false, unmuted)
    else (true, record unmuted { blocked_ids = s.blocked_ids ++ id ∷ [] })

pub data MuteRefusal : Type 0 where
  contact_is_blocked : MuteRefusal

unfoldable pub mute_contact_id : Text → SessionState → Result MuteRefusal Bool × SessionState
unfolding is_blocked_id
mute_contact_id id s =
    if is_blocked_id id s
    then (err contact_is_blocked, s)
    else if has_text id s.muted_ids
    then (ok false, s)
    else (ok true, record s { muted_ids = s.muted_ids ++ id ∷ [] })

abbrev pub is_extreme : NetConfig → Bool
is_extreme net = elim net.posture [ standard ↦ false | extreme ↦ true ]

-- what a save under the extreme posture leaves out
abbrev pub stripped : SessionState → SessionState
stripped s = record s {
  contacts = [];
  ratchets = [];
  pending = [];
  blocked_ids = [];
  muted_ids = [];
  verified_ids = [];
  pending_invites = [];
}

unfoldable pub for_disk : SessionState → SessionState
for_disk s = if not (is_extreme s.net) then s else stripped s

unfoldable pub clear_pending_secure : SessionState → SessionState
clear_pending_secure s = record s { pending = [] }

unfoldable pub clear_ratchets_secure : SessionState → SessionState
clear_ratchets_secure s = record s { ratchets = [] }

-- an array is overwritten with zeros; a vector is then emptied
unfoldable pub wipe_memory_secure : SessionState → SessionState
wipe_memory_secure s = record {
  identity = record { seed = replicate 32 0; onion = []; onion_key = [] };
  contacts = [];
  ratchets = [];
  pending = [];
  net = default;
  disappear_ttl_secs = 0;
  blocked_ids = [];
  muted_ids = [];
  verified_ids = [];
  lock_timeout_secs = 0;
  send_jitter_secs = 0;
  clock_mark_unix = 0;
  binary_digest = replicate 32 0;
  wipe_settings = none;
  save_id = none;
  pending_invites = [];
}
