-- ===== src/MessageBook/Expiry.antt =====
-- message_book.rs: purging what has expired.
use hash_chat.Prelude.{
  ℕ, ◌+◌, ◌≤◌, ◌<◌, ◌≡◌, refl, ap, ap₂, true, false, Option, none, some, List, [], ◌∷◌, arith,
  length, Bool-cases, inl, inr,
}
use hash_chat.MessageBook.{
  MessageBook, MessageEntry, is_kept, retain, drop_expired, purge_held, purge_expired,
}
use hash_chat.MessageBook.Valid.{retain-Thins, length_thin}

-- the deadline, if any, lies ahead
abbrev pub IsAhead : ℕ → Option ℕ → Type 0
IsAhead now none = Unit
IsAhead now (some t) = now < t

-- there is a deadline, and it has come
abbrev pub IsPast : ℕ → Option ℕ → Type 0
IsPast now none = ⊥
IsPast now (some t) = t ≤ now

-- the entries that are left, in their order, of the entries before
pub data Purged (now : ℕ) : List MessageEntry → List MessageEntry → Type 0 where
  nothing : Purged now [] []
  stays :
      (e : MessageEntry) {es left : List MessageEntry}
      → IsAhead now e.expires_at
      → Purged now es left
      → Purged now (e ∷ es) (e ∷ left)
  goes :
      (e : MessageEntry) {es left : List MessageEntry}
      → IsPast now e.expires_at
      → Purged now es left
      → Purged now (e ∷ es) left

-- the parked copy is purged in the same way, if there is one
abbrev pub HeldPurged : ℕ → Option (List MessageEntry) → Option (List MessageEntry) → Type 0
HeldPurged now none none = Unit
HeldPurged now none (some left) = ⊥
HeldPurged now (some es) none = ⊥
HeldPurged now (some es) (some left) = Purged now es left

ahead : (now : ℕ) (o : Option ℕ) → is_kept now o ≡ true → IsAhead now o
unfolding is_kept
ahead now none h = tt
ahead now (some t) h = ground (arith, h)

past : (now : ℕ) (o : Option ℕ) → is_kept now o ≡ false → IsPast now o
unfolding is_kept
past now none h = cc
past now (some t) h = ground (arith, h)

retain-Purged : (now : ℕ) (es : List MessageEntry) → Purged now es (retain now es)
unfolding retain
retain-Purged now [] = nothing
retain-Purged now (e ∷ es) = elim (Bool-cases (is_kept now e.expires_at)) [
  | inl kept ↦ rw kept (stays e (ahead now e.expires_at kept) (retain-Purged now es))
  | inr gone ↦ rw gone (goes e (past now e.expires_at gone) (retain-Purged now es))
]

kept_before : (m n : ℕ) (o : Option ℕ) → m ≤ n → is_kept n o ≡ true → is_kept m o ≡ true
unfolding is_kept
kept_before m n none le h = h
kept_before m n (some t) le h = ground (arith, h)

pub retain_keep :
    (now : ℕ) (e : MessageEntry) (es : List MessageEntry)
    → is_kept now e.expires_at ≡ true
    → retain now (e ∷ es) ≡ e ∷ retain now es
unfolding retain
retain_keep now e es h = rw h refl

pub retain_drop :
    (now : ℕ) (e : MessageEntry) (es : List MessageEntry)
    → is_kept now e.expires_at ≡ false
    → retain now (e ∷ es) ≡ retain now es
unfolding retain
retain_drop now e es h = rw h refl

pub retain-nil : (now : ℕ) → retain now [] ≡ []
unfolding retain
retain-nil now = refl

retain-retain : (m n : ℕ) (es : List MessageEntry) → m ≤ n → retain n (retain m es) ≡ retain n es
retain-retain m n [] le = ap (retain n) (retain-nil m)
retain-retain m n (e ∷ es) le = elim (Bool-cases (is_kept m e.expires_at)) [
  | inl kept ↦ elim (Bool-cases (is_kept n e.expires_at)) [
    | inl later ↦
        rw (retain_keep m e es kept, retain_keep n e (retain m es) later, retain_keep n e es later)
          (ap (λ t. e ∷ t) (retain-retain m n es le))
    | inr gone ↦
        rw (retain_keep m e es kept, retain_drop n e (retain m es) gone, retain_drop n e es gone)
          (retain-retain m n es le)
  ]
  | inr gone ↦ elim (Bool-cases (is_kept n e.expires_at)) [
    | inl later ↦ cc (kept_before m n e.expires_at le later)
    | inr still ↦ rw (retain_drop m e es gone, retain_drop n e es still) (retain-retain m n es le)
  ]
]

length-retain : (now : ℕ) (es : List MessageEntry) → length (retain now es) ≤ length es
length-retain now es = length_thin (retain-Thins now es)

drop_twice :
    (m n : ℕ) (es : List MessageEntry)
    → m ≤ n
    → ((drop_expired n (drop_expired m es).1).1 ≡ (drop_expired n es).1)
      × ((drop_expired m es).0 + (drop_expired n (drop_expired m es).1).0 ≡ (drop_expired n es).0)
unfolding drop_expired
drop_twice m n es le =
    let same = retain-retain m n es le in
    (
      same,
      omega (
        arith,
        ap length same,
        length-retain m es,
        length-retain n (retain m es),
        length-retain n es,
      ),
    )

held_twice :
    (m n : ℕ) (o : Option (List MessageEntry))
    → m ≤ n
    → ((purge_held n (purge_held m o).1).1 ≡ (purge_held n o).1)
      × ((purge_held m o).0 + (purge_held n (purge_held m o).1).0 ≡ (purge_held n o).0)
unfolding purge_held
held_twice m n none le = (refl, refl)
held_twice m n (some es) le = let (same, count) = drop_twice m n es le in (ap some same, count)

held-Purged : (now : ℕ) (o : Option (List MessageEntry)) → HeldPurged now o (purge_held now o).1
unfolding purge_held drop_expired
held-Purged now none = tt
held-Purged now (some es) = retain-Purged now es

-- A purge takes away the entries whose deadline has come, on screen and in the parked copy, and
-- leaves all others in their order. Purging at one time and again at that time or later leaves the
-- book that the later purge alone would leave, and the two counts add up to its.
pub purge_lem :
    (m n : ℕ) (b : MessageBook)
    → m ≤ n
    → let (count, purged) = purge_expired m b in
      let (again, twice) = purge_expired n purged in
      Purged m b.entries purged.entries
      × HeldPurged m b.held purged.held
      × (twice ≡ (purge_expired n b).1)
      × (count + again ≡ (purge_expired n b).0)
unfolding purge_expired drop_expired
purge_lem m n b le =
    let (same, count) = drop_twice m n b.entries le in
    let (same_held, count_held) = held_twice m n b.held le in
    (
      retain-Purged m b.entries,
      held-Purged m b.held,
      ap₂ (λ es h. record b { entries = es; held = h }) same same_held,
      omega (arith, count, count_held),
    )
