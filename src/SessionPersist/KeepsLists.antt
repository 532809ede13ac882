-- ===== src/SessionPersist/KeepsLists.antt =====
-- session_persist.rs: the invariant after the operations on the queue and the policy lists.
use hash_chat.Prelude.{
  ℕ, suc, ◌+◌, ◌≤◌, ◌≡◌, refl, Bool, true, false, Option, none, some, List, [], ◌∷◌, length,
  length-append, leb, arith, if◌then◌else◌, Bool-cases, inl, inr,
}
use hash_chat.Prelude.Bytes.{Bytes}
use hash_chat.Prelude.Utf8.{Text, is_blank, trim}
use hash_chat.Prelude.Words.{has_text, IsDistinct-retain, IsDistinct-last}
use hash_chat.ContactLink.{Texts}
use hash_chat.SessionPersist.{
  SessionState, is_blocked_id, verify_contact_id, block_contact_id, mute_contact_id,
}
use hash_chat.SessionPersist.Pending.{queue_pending, acked, max_pending_frames}
use hash_chat.SessionPersist.Tokens.{unverify_contact_id, unblock_contact_id, unmute_contact_id}
use hash_chat.SessionPersist.Valid.{
  IsValid, IsLists, thin-IsDistinct, thin_blocked, thin_muted, drop_token-Thins, drops, same,
  blocked-lists, muted-lists,
}

pub queue-IsValid :
    (onion : Text) (frame : Bytes) (s : SessionState)
    → IsValid s
    → IsValid (queue_pending onion frame s).1
unfolding queue_pending
queue-IsValid onion frame s v = elim (Bool-cases (leb max_pending_frames (length s.pending))) [
  | inl e ↦ rw e v
  | inr e ↦ rw e (record {
    contacts = v.contacts;
    ratchets = v.ratchets;
    queue = room (length s.pending) e (length-append s.pending ((onion, frame) ∷ []));
    lists = v.lists;
  })
]
  where
    room : (n : ℕ) {m : ℕ} → leb max_pending_frames n ≡ false → m ≡ n + 1 → m ≤ max_pending_frames
    room n f q = ground (arith, f, q)

pub acked-IsValid :
    (s : SessionState) (o : Option (List (Text × Bytes)))
    → ((kept : List (Text × Bytes)) → o ≡ some kept → suc (length kept) ≡ length s.pending)
    → IsValid s
    → IsValid (acked s o).1
unfolding acked
acked-IsValid s none h v = v
acked-IsValid s (some kept) h v = record {
  contacts = v.contacts;
  ratchets = v.ratchets;
  queue = omega (arith, h kept refl, v.queue);
  lists = v.lists;
}

pub with_lists :
    (s : SessionState) {blocked muted verified : List Text}
    → IsLists blocked muted verified
    → IsValid s
    → IsValid (record s { blocked_ids = blocked; muted_ids = muted; verified_ids = verified })
with_lists s l v = record {
  contacts = v.contacts;
  ratchets = v.ratchets;
  queue = v.queue;
  lists = l;
}

pub verify-IsValid : (id : Text) (s : SessionState) → IsValid s → IsValid (verify_contact_id id s).1
unfolding verify_contact_id
verify-IsValid id s v = elim (Bool-cases (has_text id s.verified_ids)) [
  | inl e ↦ rw e v
  | inr e ↦ rw e (
      with_lists s
        (record {
          blocked = v.lists.blocked;
          muted = v.lists.muted;
          verified = IsDistinct-last id s.verified_ids e v.lists.verified;
          apart = v.lists.apart;
        })
        v)
]

pub block-IsValid : (id : Text) (s : SessionState) → IsValid s → IsValid (block_contact_id id s).1
unfolding block_contact_id
block-IsValid id s v = elim (Bool-cases (has_text id s.blocked_ids)) [
  | inl e ↦ rw e (
      with_lists s
        (record {
          blocked = v.lists.blocked;
          muted = IsDistinct-retain id s.muted_ids v.lists.muted;
          verified = v.lists.verified;
          apart = thin_muted s.blocked_ids (drops id same) v.lists.apart;
        })
        v)
  | inr e ↦ rw e (
      with_lists s
        (record {
          blocked = IsDistinct-last id s.blocked_ids e v.lists.blocked;
          muted = IsDistinct-retain id s.muted_ids v.lists.muted;
          verified = v.lists.verified;
          apart = blocked-lists id s.blocked_ids s.muted_ids v.lists.apart;
        })
        v)
]

pub mute-IsValid : (id : Text) (s : SessionState) → IsValid s → IsValid (mute_contact_id id s).1
unfolding mute_contact_id is_blocked_id
mute-IsValid id s v = elim (Bool-cases (has_text id s.blocked_ids)) [
  | inl e ↦ rw e v
  | inr free ↦ elim (Bool-cases (has_text id s.muted_ids)) [
    | inl e ↦ rw (free, e) v
    | inr e ↦
        rw (free, e)
          (with_lists s
            (record {
              blocked = v.lists.blocked;
              muted = IsDistinct-last id s.muted_ids e v.lists.muted;
              verified = v.lists.verified;
              apart = muted-lists id s.blocked_ids s.muted_ids free v.lists.apart;
            })
            v)
  ]
]

pub when_named :
    (b : Bool) (x : Bool) {s after : SessionState}
    → IsValid s
    → IsValid after
    → IsValid (if◌then◌else◌ {A = Bool × SessionState} b (false, s) (x, after)).1
when_named true x v w = v
when_named false x v w = w

pub unverify-IsValid :
    (t : Texts) (token : Text) (s : SessionState)
    → IsValid s
    → IsValid (unverify_contact_id t token s).1
unfolding unverify_contact_id
unverify-IsValid t token s v = when_named (is_blank (trim token)) _ v (
    with_lists s
      (record {
        blocked = v.lists.blocked;
        muted = v.lists.muted;
        verified =
            thin-IsDistinct (drop_token-Thins t (trim token) s s.verified_ids) v.lists.verified;
        apart = v.lists.apart;
      })
      v)

pub unblock-IsValid :
    (t : Texts) (token : Text) (s : SessionState)
    → IsValid s
    → IsValid (unblock_contact_id t token s).1
unfolding unblock_contact_id
unblock-IsValid t token s v =
    let r = drop_token-Thins t (trim token) s s.blocked_ids in
    when_named (is_blank (trim token)) _ v (
      with_lists s
        (record {
          blocked = thin-IsDistinct r v.lists.blocked;
          muted = v.lists.muted;
          verified = v.lists.verified;
          apart = thin_blocked s.muted_ids r v.lists.apart;
        })
        v)

pub unmute-IsValid :
    (t : Texts) (token : Text) (s : SessionState)
    → IsValid s
    → IsValid (unmute_contact_id t token s).1
unfolding unmute_contact_id
unmute-IsValid t token s v =
    let r = drop_token-Thins t (trim token) s s.muted_ids in
    when_named (is_blank (trim token)) _ v (
      with_lists s
        (record {
          blocked = v.lists.blocked;
          muted = thin-IsDistinct r v.lists.muted;
          verified = v.lists.verified;
          apart = thin_muted s.blocked_ids r v.lists.apart;
        })
        v)
