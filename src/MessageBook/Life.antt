-- ===== src/MessageBook/Life.antt =====
-- message_book.rs: the life of a transcript, over any sequence of its operations.
use hash_chat.Prelude.{
  ℕ, ◌+◌, ◌%◌, ◌^◌, ◌≤◌, ◌<◌, ◌≡◌, ◌≢◌, max, Bool, Option, none, some, List, [], ◌∷◌, ◌++◌, arith,
  All, All-append, ltb, if◌then◌else◌, Bool-cases, inl, inr,
}
use hash_chat.Prelude.Utf8.{Text, IsText}
use hash_chat.MessageBook.{
  MessageBook, MessageEntry, Delivery, queued, no_delivery, add, set_delivery, delete, park, unpark,
  clear, set_ephemeral, purge_expired, u64_max, deadline, pop_front_excess, clean_text, park_at,
  unpark_at, purge_held, new, drop_expired, set_in, delete_in,
}
use hash_chat.MessageBook.Clean.{clean_text-IsClean}
use hash_chat.MessageBook.Valid.{
  IsValid, IsLog, IsHeld, IsEntry, IsDeadline, Lacks, Distinct, IsLog-thin, set_in-Thins,
  delete_in-Thins, retain-Thins, pop_front_excess-Thins, length-pop_front_excess, each_thin,
  Distinct-thin,
}

-- One operation of the transcript. The clock is a 64-bit word, and the ids are not used up.
pub data Step : MessageBook → MessageBook → Type 0 where
  adds :
      {b : MessageBook} (mine : Bool) (text : Text) (now ttl_secs : ℕ)
      → IsText text
      → now ≤ u64_max
      → b.next_id < u64_max
      → Step b (add mine text now ttl_secs b).1
  sets : {b : MessageBook} (id : ℕ) (d : Delivery) → Step b (set_delivery id d b).1
  deletes : {b : MessageBook} (id : ℕ) → Step b (delete id b).1
  clears : {b : MessageBook} → Step b (clear b)
  parks : {b : MessageBook} → Step b (park b)
  unparks : {b : MessageBook} → Step b (unpark b).1
  purges : {b : MessageBook} (now : ℕ) → Step b (purge_expired now b).1
  switches : {b : MessageBook} (on : Bool) → Step b (set_ephemeral on b)

pub data Run (b : MessageBook) : MessageBook → Type 0 where
  here : Run b b
  next : {d e : MessageBook} → Run b d → Step d e → Run b e

IsEntry-later : (n m : ℕ) → n ≤ m → (e : MessageEntry) → IsEntry n e → IsEntry m e
IsEntry-later n m le e v = record {
  numbered = v.numbered;
  older = omega (arith, v.older);
  sent_word = v.sent_word;
  expiry = v.expiry;
  clean = v.clean;
}

each_later : (n m : ℕ) → n ≤ m → (es : List MessageEntry) → All (IsEntry n) es → All (IsEntry m) es
each_later n m le [] h = tt
each_later n m le (e ∷ es) h = (IsEntry-later n m le e h.0, each_later n m le es h.1)

IsLog-later : (n m : ℕ) → n ≤ m → (es : List MessageEntry) → IsLog n es → IsLog m es
IsLog-later n m le es v = record {
  each = each_later n m le es v.each;
  distinct = v.distinct;
  capped = v.capped;
}

IsHeld-later : (n m : ℕ) → n ≤ m → (o : Option (List MessageEntry)) → IsHeld n o → IsHeld m o
IsHeld-later n m le none v = tt
IsHeld-later n m le (some es) v = IsLog-later n m le es v

deadline-IsDeadline : (now ttl_secs : ℕ) → IsDeadline (deadline now ttl_secs)
unfolding deadline
deadline-IsDeadline now ttl_secs = elim (Bool-cases (ltb 0 ttl_secs)) [
  | inl on ↦ rw on (ground (arith, on))
  | inr off ↦ rw off tt
]

Lacks-last :
    (k : ℕ) (es : List MessageEntry) (e : MessageEntry)
    → Lacks k es
    → k ≢ e.id
    → Lacks k (es ++ e ∷ [])
Lacks-last k [] e h ne = (ne, tt)
Lacks-last k (d ∷ es) e h ne = (h.0, Lacks-last k es e h.1 ne)

Distinct-last :
    (n : ℕ) (es : List MessageEntry) (e : MessageEntry)
    → All (IsEntry n) es
    → Distinct es
    → e.id ≡ n
    → Distinct (es ++ e ∷ [])
Distinct-last n [] e each h top = (tt, tt)
Distinct-last n (d ∷ es) e each h top = (
  Lacks-last d.id es e h.0 (λ same. absurd (omega (arith, each.0.older, same, top))),
  Distinct-last n es e each.1 h.1 top,
)

-- a new entry at the end, and the oldest ones dropped
IsLog-push :
    (n : ℕ) (es : List MessageEntry) (e : MessageEntry)
    → IsLog n es
    → IsEntry (n + 1) e
    → e.id ≡ n
    → IsLog (n + 1) (pop_front_excess (es ++ e ∷ []))
IsLog-push n es e v entry top =
    let thin = pop_front_excess-Thins (es ++ e ∷ []) in
    record {
      each = each_thin (n + 1) thin (
          All-append (IsEntry (n + 1)) es (e ∷ []) (each_later n (n + 1) (omega arith) es v.each)
            (entry, tt));
      distinct = Distinct-thin thin (Distinct-last n es e v.each v.distinct top);
      capped = length-pop_front_excess (es ++ e ∷ []);
    }

same_id : (n : ℕ) → 0 < n → max n 1 ≡ n
same_id n h = omega arith

next_number : (n : ℕ) → 0 < n → n < u64_max → max ((max n 1 + 1) % 2 ^ 64) 1 ≡ n + 1
next_number n lo hi = omega arith

add-IsValid :
    (mine : Bool) (text : Text) (now ttl_secs : ℕ) (b : MessageBook)
    → IsText text
    → now ≤ u64_max
    → b.next_id < u64_max
    → IsValid b
    → IsValid (add mine text now ttl_secs b).1
unfolding add
add-IsValid mine text now ttl b t clock room v =
    let later = next_number b.next_id v.counter room in
    let top = same_id b.next_id v.counter in
    let entry : MessageEntry = record {
      id = max b.next_id 1;
      mine = mine;
      delivery = if mine then queued else no_delivery;
      sent_at = now;
      expires_at = deadline now ttl;
      text = clean_text text;
    } in
    let fits : IsEntry (b.next_id + 1) entry = record {
      numbered = omega (arith, v.counter, top);
      older = omega (arith, top);
      sent_word = clock;
      expiry = deadline-IsDeadline now ttl;
      clean = clean_text-IsClean text t;
    } in
    record {
      shown = rw later (IsLog-push b.next_id b.entries entry v.shown fits top);
      parked = rw later (IsHeld-later b.next_id (b.next_id + 1) (omega arith) b.held v.parked);
      counter = omega (arith, later);
      counter_word = omega (arith, later, room);
    }

with_shown :
    (b : MessageBook) (es : List MessageEntry)
    → IsLog b.next_id es
    → IsValid b
    → IsValid (record b { entries = es })
with_shown b es log v = record {
  shown = log;
  parked = v.parked;
  counter = v.counter;
  counter_word = v.counter_word;
}

IsLog-nil : (n : ℕ) → IsLog n []
IsLog-nil n = record { each = tt; distinct = tt; capped = omega arith }

park_at-IsValid :
    (o : Option (List MessageEntry)) (b : MessageBook) → IsValid b → IsValid (park_at o b)
unfolding park_at
park_at-IsValid none b v = record {
  shown = IsLog-nil b.next_id;
  parked = v.shown;
  counter = v.counter;
  counter_word = v.counter_word;
}
park_at-IsValid (some parked) b v = with_shown b [] (IsLog-nil b.next_id) v

unpark_at-IsValid :
    (o : Option (List MessageEntry)) (b : MessageBook)
    → IsHeld b.next_id o
    → IsValid b
    → IsValid (unpark_at o b).1
unfolding unpark_at
unpark_at-IsValid none b h v = v
unpark_at-IsValid (some parked) b h v = record {
  shown = h;
  parked = tt;
  counter = v.counter;
  counter_word = v.counter_word;
}

purge_held-IsHeld :
    (now n : ℕ) (o : Option (List MessageEntry)) → IsHeld n o → IsHeld n (purge_held now o).1
unfolding purge_held drop_expired
purge_held-IsHeld now n none h = tt
purge_held-IsHeld now n (some es) h = IsLog-thin (retain-Thins now es) h

purge-IsValid : (now : ℕ) (b : MessageBook) → IsValid b → IsValid (purge_expired now b).1
unfolding purge_expired drop_expired
purge-IsValid now b v = record {
  shown = IsLog-thin (retain-Thins now b.entries) v.shown;
  parked = purge_held-IsHeld now b.next_id b.held v.parked;
  counter = v.counter;
  counter_word = v.counter_word;
}

Step-IsValid : {b e : MessageBook} → Step b e → IsValid b → IsValid e
unfolding set_delivery delete clear park unpark set_ephemeral
Step-IsValid {b} (adds mine text now ttl t clock room) v =
    add-IsValid mine text now ttl b t clock room v
Step-IsValid {b} (sets id d) v =
    with_shown b (set_in id d b.entries).1 (IsLog-thin (set_in-Thins id d b.entries) v.shown) v
Step-IsValid {b} (deletes id) v =
    with_shown b (delete_in id b.entries).1 (IsLog-thin (delete_in-Thins id b.entries) v.shown) v
Step-IsValid {b} clears v = record {
  shown = IsLog-nil b.next_id;
  parked = tt;
  counter = v.counter;
  counter_word = v.counter_word;
}
Step-IsValid {b} parks v = park_at-IsValid b.held b v
Step-IsValid {b} unparks v = unpark_at-IsValid b.held b v.parked v
Step-IsValid {b} (purges now) v = purge-IsValid now b v
Step-IsValid (switches on) v = record {
  shown = v.shown;
  parked = v.parked;
  counter = v.counter;
  counter_word = v.counter_word;
}

pub new-IsValid : IsValid new
new-IsValid = record {
  shown = IsLog-nil 1;
  parked = tt;
  counter = omega arith;
  counter_word = omega arith;
}

-- From a well-formed transcript, through any sequence of operations short of a load, with 64-bit
-- clocks, Unicode texts and ids left to give: the ids on screen and in the parked copy stay
-- distinct and below the next one, both lists stay within 2000 entries, and every text stays safe
-- for the terminal and within 8 KiB.
pub Run-IsValid : {b e : MessageBook} → Run b e → IsValid b → IsValid e
Run-IsValid here v = v
Run-IsValid (next run step) v = Step-IsValid step (Run-IsValid run v)
