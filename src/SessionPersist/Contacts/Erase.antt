-- ===== src/SessionPersist/Contacts/Erase.antt =====
-- session_persist.rs: what a deletion leaves.
use hash_chat.Prelude.{◌≡◌, Bool, true, false, not, ◌&&◌, ◌||◌, List, [], ◌∷◌}
use hash_chat.Prelude.Bytes.{Bytes}
use hash_chat.Prelude.Utf8.{Text, same_text, is_blank}
use hash_chat.Prelude.Words.{has_text}
use hash_chat.SessionPersist.{SessionState, PersistedContact}
use hash_chat.SessionPersist.Contacts.{eq_ignore_ascii_case}
use hash_chat.SessionPersist.Valid.{ids_of, keys_of}

-- a frame is queued to an onion: to the text itself, or to one that differs in the case of letters
abbrev pub is_to : Text → Text → Bool
is_to onion dest = same_text dest onion || eq_ignore_ascii_case dest onion

abbrev pub is_known_to : Text → Text → Bool
is_known_to onion dest = not (is_blank onion) && is_to onion dest

-- the queue without the frames to an onion, if that is known
pub data Swept (onion : Text) : List (Text × Bytes) → List (Text × Bytes) → Type 0 where
  nothing : Swept onion [] []
  stays :
      (f : Text × Bytes) {q left : List (Text × Bytes)}
      → is_known_to onion f.0 ≡ false
      → Swept onion q left
      → Swept onion (f ∷ q) (f ∷ left)
  goes :
      (f : Text × Bytes) {q left : List (Text × Bytes)}
      → is_known_to onion f.0 ≡ true
      → Swept onion q left
      → Swept onion (f ∷ q) left

-- the state after the contact `c` was deleted
pub record IsErased (c : PersistedContact) (s after : SessionState) : Type 0 where
  pub contact : has_text c.id (ids_of after.contacts) ≡ false
  pub ratchet : has_text c.id (keys_of after.ratchets) ≡ false
  pub blocked : has_text c.id after.blocked_ids ≡ false
  pub muted : has_text c.id after.muted_ids ≡ false
  pub verified : has_text c.id after.verified_ids ≡ false
  pub frames : Swept c.onion s.pending after.pending
  pub others :
      (k : Text)
      → same_text c.id k ≡ false
      → (has_text k (ids_of after.contacts) ≡ has_text k (ids_of s.contacts))
        × (has_text k (keys_of after.ratchets) ≡ has_text k (keys_of s.ratchets))
        × (has_text k after.verified_ids ≡ has_text k s.verified_ids)
        × (has_text k after.blocked_ids ≡ has_text k s.blocked_ids)
        × (has_text k after.muted_ids ≡ has_text k s.muted_ids)
