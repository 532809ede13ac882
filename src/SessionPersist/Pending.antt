-- ===== src/SessionPersist/Pending.antt =====
-- session_persist.rs: the stored ratchets and the queue of outgoing frames.
use hash_chat.Prelude.{
  ℕ, Bool, true, false, ◌&&◌, Option, none, some, List, [], ◌∷◌, ◌++◌, length, leb, if◌then◌else◌,
}
use hash_chat.Prelude.Bytes.{Bytes}
use hash_chat.Prelude.Utf8.{Text, same_text}
use hash_chat.SessionPersist.{SessionState}

abbrev pub max_pending_frames : ℕ
max_pending_frames = 64

-- the first slot of the id is filled again, or a new one is pushed
unfoldable pub set_slot : Text → Bytes → List (Text × Bytes) → List (Text × Bytes)
set_slot id bytes [] = (id, bytes) ∷ []
set_slot id bytes ((k, old) ∷ rest) =
    let later = set_slot id bytes rest in
    if same_text k id then (k, bytes) ∷ rest else (k, old) ∷ later

unfoldable pub set_ratchet_bytes : Text → Bytes → SessionState → SessionState
unfolding set_slot
set_ratchet_bytes contact_id bytes s = record s { ratchets = set_slot contact_id bytes s.ratchets }

unfoldable pub queue_pending : Text → Bytes → SessionState → Bool × SessionState
queue_pending onion frame s =
    if leb max_pending_frames (length s.pending)
    then (false, s)
    else (true, record s { pending = s.pending ++ (onion, frame) ∷ [] })

-- `pending` without the first entry that is this one, if there is one
unfoldable pub remove_first : Text → Bytes → List (Text × Bytes) → Option (List (Text × Bytes))
remove_first onion frame [] = none
remove_first onion frame ((o, f) ∷ rest) =
    let later = remove_first onion frame rest in
    if same_text o onion && same_text f frame
    then some rest
    else elim later [ none ↦ none | some kept ↦ some ((o, f) ∷ kept) ]

unfoldable pub acked : SessionState → Option (List (Text × Bytes)) → Bool × SessionState
acked s none = (false, s)
acked s (some kept) = (true, record s { pending = kept })

unfoldable pub ack_pending_frame : Text → Bytes → SessionState → Bool × SessionState
unfolding acked remove_first
ack_pending_frame onion frame s = acked s (remove_first onion frame s.pending)
