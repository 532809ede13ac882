-- ===== src/MessageBook/Valid.antt =====
-- message_book.rs: the invariant of a transcript.
use hash_chat.Prelude.{
  ℕ, ◌≤◌, ◌<◌, ◌≢◌, ◌&&◌, Option, none, some, List, [], ◌∷◌, arith, length, All, ltb, ◌==◌,
  Bool-cases, inl, inr,
}
use hash_chat.MessageBook.{
  MessageBook, MessageEntry, Delivery, max_messages, u64_max, pop_front_excess, set_in, delete_in,
  retain, is_kept,
}
use hash_chat.MessageBook.Clean.{IsClean}

abbrev pub IsDeadline : Option ℕ → Type 0
IsDeadline none = Unit
IsDeadline (some t) = (0 < t) × (t ≤ u64_max)

pub record IsEntry (n : ℕ) (e : MessageEntry) : Type 0 where
  pub numbered : 0 < e.id
  pub older : e.id < n
  pub sent_word : e.sent_at ≤ u64_max
  pub expiry : IsDeadline e.expires_at
  pub clean : IsClean e.text

-- no entry of the list has this id
abbrev pub Lacks : ℕ → List MessageEntry → Type 0
Lacks k = All (λ d. k ≢ d.id)

abbrev pub Distinct : List MessageEntry → Type 0
Distinct [] = Unit
Distinct (e ∷ es) = Lacks e.id es × Distinct es

-- a list of entries whose ids are below `n`
pub record IsLog (n : ℕ) (es : List MessageEntry) : Type 0 where
  pub each : All (IsEntry n) es
  pub distinct : Distinct es
  pub capped : length es ≤ max_messages

abbrev pub IsHeld : ℕ → Option (List MessageEntry) → Type 0
IsHeld n none = Unit
IsHeld n (some es) = IsLog n es

pub record IsValid (b : MessageBook) : Type 0 where
  pub shown : IsLog b.next_id b.entries
  pub parked : IsHeld b.next_id b.held
  pub counter : 0 < b.next_id
  pub counter_word : b.next_id ≤ u64_max

-- the second list is the first with entries left out, and with new delivery states
pub data Thins : List MessageEntry → List MessageEntry → Type 0 where
  done : Thins [] []
  drops : {e : MessageEntry} {es ds : List MessageEntry} → Thins es ds → Thins (e ∷ es) ds
  keeps :
      {e : MessageEntry} {es ds : List MessageEntry} (d : Delivery)
      → Thins es ds
      → Thins (e ∷ es) (record e { delivery = d } ∷ ds)

Thins-refl : (es : List MessageEntry) → Thins es es
Thins-refl [] = done
Thins-refl (e ∷ es) = keeps e.delivery (Thins-refl es)

Lacks-thin : (k : ℕ) {es ds : List MessageEntry} → Thins es ds → Lacks k es → Lacks k ds
Lacks-thin k done h = h
Lacks-thin k (drops t) h = Lacks-thin k t h.1
Lacks-thin k (keeps d t) h = (h.0, Lacks-thin k t h.1)

pub Distinct-thin : {es ds : List MessageEntry} → Thins es ds → Distinct es → Distinct ds
Distinct-thin done h = h
Distinct-thin (drops t) h = Distinct-thin t h.1
Distinct-thin (keeps d t) h = (Lacks-thin _ t h.0, Distinct-thin t h.1)

IsEntry-set :
    {n : ℕ} {e : MessageEntry} (d : Delivery) → IsEntry n e → IsEntry n (record e { delivery = d })
IsEntry-set d v = record {
  numbered = v.numbered;
  older = v.older;
  sent_word = v.sent_word;
  expiry = v.expiry;
  clean = v.clean;
}

pub each_thin :
    (n : ℕ) {es ds : List MessageEntry} → Thins es ds → All (IsEntry n) es → All (IsEntry n) ds
each_thin n done h = h
each_thin n (drops t) h = each_thin n t h.1
each_thin n (keeps d t) h = (IsEntry-set d h.0, each_thin n t h.1)

pub length_thin : {es ds : List MessageEntry} → Thins es ds → length ds ≤ length es
length_thin done = omega arith
length_thin (drops t) = omega (arith, length_thin t)
length_thin (keeps d t) = omega (arith, length_thin t)

pub IsLog-thin : {n : ℕ} {es ds : List MessageEntry} → Thins es ds → IsLog n es → IsLog n ds
IsLog-thin t v = record {
  each = each_thin _ t v.each;
  distinct = Distinct-thin t v.distinct;
  capped = omega (arith, length_thin t, v.capped);
}

pub set_in-Thins : (id : ℕ) (d : Delivery) (es : List MessageEntry) → Thins es (set_in id d es).1
unfolding set_in
set_in-Thins id d [] = done
set_in-Thins id d (e ∷ es) = elim (Bool-cases ((e.id == id) && e.mine)) [
  | inl found ↦ rw found (keeps d (Thins-refl es))
  | inr other ↦ rw other (keeps e.delivery (set_in-Thins id d es))
]

pub delete_in-Thins : (id : ℕ) (es : List MessageEntry) → Thins es (delete_in id es).1
unfolding delete_in
delete_in-Thins id [] = done
delete_in-Thins id (e ∷ es) = elim (Bool-cases (e.id == id)) [
  | inl found ↦ rw found (drops (Thins-refl es))
  | inr other ↦ rw other (keeps e.delivery (delete_in-Thins id es))
]

pub retain-Thins : (now : ℕ) (es : List MessageEntry) → Thins es (retain now es)
unfolding retain
retain-Thins now [] = done
retain-Thins now (e ∷ es) = elim (Bool-cases (is_kept now e.expires_at)) [
  | inl kept ↦ rw kept (keeps e.delivery (retain-Thins now es))
  | inr gone ↦ rw gone (drops (retain-Thins now es))
]

pub pop_front_excess-Thins : (es : List MessageEntry) → Thins es (pop_front_excess es)
unfolding pop_front_excess
pop_front_excess-Thins [] = done
pop_front_excess-Thins (e ∷ es) = elim (Bool-cases (ltb max_messages (length (e ∷ es)))) [
  | inl long ↦ rw long (drops (pop_front_excess-Thins es))
  | inr short ↦ rw short (keeps e.delivery (pop_front_excess-Thins es))
]

pub length-pop_front_excess : (es : List MessageEntry) → length (pop_front_excess es) ≤ max_messages
unfolding pop_front_excess
length-pop_front_excess [] = omega arith
length-pop_front_excess (e ∷ es) =
    ground (arith, length-pop_front_excess es, length_thin (pop_front_excess-Thins es))
