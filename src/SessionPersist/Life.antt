-- ===== src/SessionPersist/Life.antt =====
-- session_persist.rs: the life of a session state, over any sequence of its operations.
use hash_chat.Prelude.{◌≡◌, some, arith}
use hash_chat.Prelude.Bytes.{Bytes}
use hash_chat.Prelude.Utf8.{Text}
use hash_chat.Net.{NetConfig}
use hash_chat.ContactLink.{Texts}
use hash_chat.SessionPersist.{
  SessionState, IdentityOnionState, from_identity_with_net, verify_contact_id, block_contact_id,
  mute_contact_id, for_disk, clear_pending_secure, clear_ratchets_secure, wipe_memory_secure,
}
use hash_chat.SessionPersist.Pending.{
  set_ratchet_bytes, queue_pending, ack_pending_frame, remove_first,
}
use hash_chat.SessionPersist.Contacts.{
  Link, ContactUpsert, upsert_contact_from_link, rename_contact_display_name, delete_contact_secure,
}
use hash_chat.SessionPersist.Tokens.{unverify_contact_id, unblock_contact_id, unmute_contact_id}
use hash_chat.SessionPersist.Valid.{IsValid, slot-IsDistinct, remove_first-shorter}
use hash_chat.SessionPersist.KeepsLists.{
  queue-IsValid, acked-IsValid, verify-IsValid, block-IsValid, mute-IsValid, unverify-IsValid,
  unblock-IsValid, unmute-IsValid,
}
use hash_chat.SessionPersist.KeepsContacts.{
  upsert-IsValid, rename-IsValid, delete-IsValid, empty-IsValid, for_disk-IsValid,
}

-- One operation on the session state.
pub data Step (t : Texts) : SessionState → SessionState → Type 0 where
  imports :
      {s after : SessionState} {u : ContactUpsert} (l : Link) (label : Text)
      → upsert_contact_from_link l label s ≡ some (u, after)
      → Step t s after
  renames : {s : SessionState} (id name : Text) → Step t s (rename_contact_display_name id name s).1
  deletes : {s : SessionState} (id : Text) → Step t s (delete_contact_secure id s).1
  sets_ratchet :
      {s : SessionState} (id : Text) (bytes : Bytes) → Step t s (set_ratchet_bytes id bytes s)
  queues :
      {s : SessionState} (onion : Text) (frame : Bytes) → Step t s (queue_pending onion frame s).1
  acks :
      {s : SessionState} (onion : Text) (frame : Bytes)
      → Step t s (ack_pending_frame onion frame s).1
  verifies : {s : SessionState} (id : Text) → Step t s (verify_contact_id id s).1
  unverifies : {s : SessionState} (token : Text) → Step t s (unverify_contact_id t token s).1
  blocks : {s : SessionState} (id : Text) → Step t s (block_contact_id id s).1
  unblocks : {s : SessionState} (token : Text) → Step t s (unblock_contact_id t token s).1
  mutes : {s : SessionState} (id : Text) → Step t s (mute_contact_id id s).1
  unmutes : {s : SessionState} (token : Text) → Step t s (unmute_contact_id t token s).1
  stores : {s : SessionState} → Step t s (for_disk s)
  clears_pending : {s : SessionState} → Step t s (clear_pending_secure s)
  clears_ratchets : {s : SessionState} → Step t s (clear_ratchets_secure s)
  wipes : {s : SessionState} → Step t s (wipe_memory_secure s)

-- any number of operations, from a new session on
pub data Run (t : Texts) : SessionState → Type 0 where
  starts :
      (identity : IdentityOnionState) (net : NetConfig)
      → Run t (from_identity_with_net identity net)
  next : {s after : SessionState} → Run t s → Step t s after → Run t after

Step-IsValid : (t : Texts) (s after : SessionState) → Step t s after → IsValid s → IsValid after
unfolding set_ratchet_bytes ack_pending_frame clear_pending_secure clear_ratchets_secure
    wipe_memory_secure
Step-IsValid t s after (imports l label run) v = upsert-IsValid l label s run v
Step-IsValid t s after (renames id name) v = rename-IsValid id name s v
Step-IsValid t s after (deletes id) v = delete-IsValid id s v
Step-IsValid t s after (sets_ratchet id bytes) v = record {
  contacts = v.contacts;
  ratchets = slot-IsDistinct id bytes s.ratchets v.ratchets;
  queue = v.queue;
  lists = v.lists;
}
Step-IsValid t s after (queues onion frame) v = queue-IsValid onion frame s v
Step-IsValid t s after (acks onion frame) v =
    acked-IsValid s (remove_first onion frame s.pending)
      (λ kept e. remove_first-shorter onion frame s.pending e) v
Step-IsValid t s after (verifies id) v = verify-IsValid id s v
Step-IsValid t s after (unverifies token) v = unverify-IsValid t token s v
Step-IsValid t s after (blocks id) v = block-IsValid id s v
Step-IsValid t s after (unblocks token) v = unblock-IsValid t token s v
Step-IsValid t s after (mutes id) v = mute-IsValid id s v
Step-IsValid t s after (unmutes token) v = unmute-IsValid t token s v
Step-IsValid t s after stores v = for_disk-IsValid s v
Step-IsValid t s after clears_pending v = record {
  contacts = v.contacts;
  ratchets = v.ratchets;
  queue = omega arith;
  lists = v.lists;
}
Step-IsValid t s after clears_ratchets v = record {
  contacts = v.contacts;
  ratchets = tt;
  queue = v.queue;
  lists = v.lists;
}
Step-IsValid t s after wipes v = empty-IsValid (wipe_memory_secure s)

-- Whatever operations a new session goes through, no two contacts share an id and no two ratchets a
-- key, no id stands twice in a policy list or is both blocked and muted, and at most 64 frames wait.
pub session-Run-IsValid : (t : Texts) {s : SessionState} → Run t s → IsValid s
unfolding from_identity_with_net
session-Run-IsValid t (starts identity net) = record {
  contacts = tt;
  ratchets = tt;
  queue = omega arith;
  lists = record { blocked = tt; muted = tt; verified = tt; apart = tt };
}
session-Run-IsValid t (next r step) = Step-IsValid t _ _ step (session-Run-IsValid t r)
