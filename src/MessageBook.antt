-- ===== src/MessageBook.antt =====
-- src/rust/message_book.rs: the transcript, its operations and its decoy screen. Text that is dropped
-- is scrubbed from memory; the model drops it.
pub mod Codec
pub mod Clean
pub mod Valid
pub mod Life
pub mod Decoy
pub mod Expiry
pub mod ReadEntry
pub mod RoundTrip
use hash_chat.Prelude.{
  ℕ, zero, suc, ◌+◌, ◌-◌, ◌*◌, ◌%◌, ◌^◌, min, max, Bool, true, false, not, ◌&&◌, ◌||◌, Option, none,
  some, List, [], ◌∷◌, ◌++◌, length, ltb, leb, ◌==◌, if◌then◌else◌,
}
use hash_chat.Prelude.Utf8.{Text, as_bytes, encode_char}
use hash_chat.Sanitize.{sanitize_for_terminal}

abbrev pub max_messages : ℕ
max_messages = 2000

abbrev pub max_text_bytes : ℕ
max_text_bytes = 8 * 1024

abbrev pub u64_max : ℕ
u64_max = 2 ^ 64 - 1

pub data Delivery : Type 0 where
  no_delivery queued sent failed : Delivery

unfoldable pub to_u8 : Delivery → ℕ
to_u8 no_delivery = 0
to_u8 queued = 1
to_u8 sent = 2
to_u8 failed = 3

unfoldable pub from_u8 : ℕ → Option Delivery
from_u8 v =
    if v == 0
    then some no_delivery
    else if v == 1
    then some queued
    else if v == 2
    then some sent
    else if v == 3
    then some failed
    else none

pub record MessageEntry : Type 0 where
  pub id : ℕ
  pub mine : Bool
  pub delivery : Delivery
  pub sent_at : ℕ
  pub expires_at : Option ℕ
  pub text : Text

-- the longest beginning of at most `n` bytes that ends between two characters
unfoldable pub cut_text : ℕ → Text → Text
cut_text n [] = []
cut_text n (ch ∷ s) =
    let rest = cut_text (n - length (encode_char ch)) s in
    if leb (length (encode_char ch)) n then ch ∷ rest else []

unfoldable pub clean_text : Text → Text
clean_text raw =
    let s = sanitize_for_terminal raw in
    if ltb max_text_bytes (length (as_bytes s)) then cut_text max_text_bytes s else s

pub record MessageBook : Type 0 where
  pub entries : List MessageEntry
  pub held : Option (List MessageEntry)
  pub next_id : ℕ
  pub ephemeral : Bool

abbrev pub new : MessageBook
new = record { entries = []; held = none; next_id = 1; ephemeral = false }

unfoldable pub set_ephemeral : Bool → MessageBook → MessageBook
set_ephemeral on b = record b { ephemeral = on }

-- `while self.entries.len() > MAX_MESSAGES { self.entries.pop_front() }`
unfoldable pub pop_front_excess : List MessageEntry → List MessageEntry
pop_front_excess [] = []
pop_front_excess (e ∷ es) =
    let rest = pop_front_excess es in if ltb max_messages (length (e ∷ es)) then rest else e ∷ rest

-- `(ttl_secs > 0).then(|| now.saturating_add(ttl_secs))`
unfoldable pub deadline : ℕ → ℕ → Option ℕ
deadline now ttl_secs = if ltb 0 ttl_secs then some (min (now + ttl_secs) u64_max) else none

unfoldable pub add : Bool → Text → ℕ → ℕ → MessageBook → ℕ × MessageBook
unfolding deadline pop_front_excess clean_text
add mine text now ttl_secs b =
    let id = max b.next_id 1 in
    let entry : MessageEntry = record {
      id = id;
      mine = mine;
      delivery = if mine then queued else no_delivery;
      sent_at = now;
      expires_at = deadline now ttl_secs;
      text = clean_text text;
    } in
    (
      id,
      record b {
        entries = pop_front_excess (b.entries ++ entry ∷ []);
        next_id = max ((id + 1) % 2 ^ 64) 1;
      },
    )

-- the first entry of this id that is the user's own
unfoldable pub set_in : ℕ → Delivery → List MessageEntry → Bool × List MessageEntry
set_in id d [] = (false, [])
set_in id d (e ∷ es) =
    let rest = set_in id d es in
    if (e.id == id) && e.mine then (true, record e { delivery = d } ∷ es) else (rest.0, e ∷ rest.1)

unfoldable pub set_delivery : ℕ → Delivery → MessageBook → Bool × MessageBook
unfolding set_in
set_delivery id d b = let found = set_in id d b.entries in (found.0, record b { entries = found.1 })

-- the first entry of this id
unfoldable pub delete_in : ℕ → List MessageEntry → Bool × List MessageEntry
delete_in id [] = (false, [])
delete_in id (e ∷ es) =
    let rest = delete_in id es in if e.id == id then (true, es) else (rest.0, e ∷ rest.1)

unfoldable pub delete : ℕ → MessageBook → Bool × MessageBook
unfolding delete_in
delete id b = let found = delete_in id b.entries in (found.0, record b { entries = found.1 })

unfoldable pub clear : MessageBook → MessageBook
clear b = record b { entries = []; held = none }

park_at : Option (List MessageEntry) → MessageBook → MessageBook
park_at none b = record b { held = some b.entries; entries = [] }
park_at (some parked) b = record b { entries = [] }

unfoldable pub park : MessageBook → MessageBook
unfolding park_at
park b = park_at b.held b

unpark_at : Option (List MessageEntry) → MessageBook → Bool × MessageBook
unpark_at none b = (false, b)
unpark_at (some parked) b = (true, record b { held = none; entries = parked })

unfoldable pub unpark : MessageBook → Bool × MessageBook
unfolding unpark_at
unpark b = unpark_at b.held b

-- `expires_at.is_none_or(|t| now < t)`
unfoldable pub is_kept : ℕ → Option ℕ → Bool
is_kept now none = true
is_kept now (some t) = ltb now t

-- `entries.retain(|e| …)`
unfoldable pub retain : ℕ → List MessageEntry → List MessageEntry
unfolding is_kept
retain now [] = []
retain now (e ∷ es) = if is_kept now e.expires_at then e ∷ retain now es else retain now es

unfoldable pub drop_expired : ℕ → List MessageEntry → ℕ × List MessageEntry
unfolding retain
drop_expired now es = let kept = retain now es in (length es - length kept, kept)

purge_held : ℕ → Option (List MessageEntry) → ℕ × Option (List MessageEntry)
unfolding drop_expired
purge_held now none = (0, none)
purge_held now (some es) = let (n, kept) = drop_expired now es in (n, some kept)

unfoldable pub purge_expired : ℕ → MessageBook → ℕ × MessageBook
unfolding drop_expired purge_held
purge_expired now b =
    let (n, shown) = drop_expired now b.entries in
    let (m, parked) = purge_held now b.held in (n + m, record b { entries = shown; held = parked })

-- what a durable save keeps
unfoldable pub persisted_entries : MessageBook → List MessageEntry
persisted_entries b = elim b.held [ none ↦ b.entries | some parked ↦ parked ]
