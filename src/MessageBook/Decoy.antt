-- ===== src/MessageBook/Decoy.antt =====
-- message_book.rs: the decoy screen and the transcript behind it.
use hash_chat.Prelude.{ℕ, ◌≡◌, refl, ap, ◌∙◌, sym, Bool, true, Option, none, some, List}
use hash_chat.Prelude.Utf8.{Text}
use hash_chat.MessageBook.{
  MessageBook, MessageEntry, Delivery, add, set_delivery, delete, park, unpark, park_at, unpark_at,
  persisted_entries,
}
use hash_chat.MessageBook.Codec.{export}

-- What the screen offers, short of clearing, unparking, purging and loading.
pub data ScreenStep : MessageBook → MessageBook → Type 0 where
  adds :
      {b : MessageBook} (mine : Bool) (text : Text) (now ttl_secs : ℕ)
      → ScreenStep b (add mine text now ttl_secs b).1
  sets : {b : MessageBook} (id : ℕ) (d : Delivery) → ScreenStep b (set_delivery id d b).1
  deletes : {b : MessageBook} (id : ℕ) → ScreenStep b (delete id b).1
  parks : {b : MessageBook} → ScreenStep b (park b)

pub data Screen (b : MessageBook) : MessageBook → Type 0 where
  start : Screen b b
  then_ : {d e : MessageBook} → Screen b d → ScreenStep d e → Screen b e

record Held (m : List MessageEntry) (b e : MessageBook) : Type 0 where
  held : e.held ≡ some m
  ephemeral : e.ephemeral ≡ b.ephemeral

park_held :
    (m : List MessageEntry) (b : MessageBook) (o : Option (List MessageEntry))
    → o ≡ some m
    → b.held ≡ some m
    → Held m b (park_at o b)
unfolding park_at
park_held m b none e h = cc
park_held m b (some parked) e h = record { held = h; ephemeral = refl }

step_held :
    {m : List MessageEntry} {b e : MessageBook} → ScreenStep b e → b.held ≡ some m → Held m b e
unfolding add set_delivery delete park
step_held (adds mine text now ttl) h = record { held = h; ephemeral = refl }
step_held (sets id d) h = record { held = h; ephemeral = refl }
step_held (deletes id) h = record { held = h; ephemeral = refl }
step_held {m} {b} parks h = park_held m b b.held h h

Screen-held :
    {m : List MessageEntry} {b e : MessageBook} → Screen b e → b.held ≡ some m → Held m b e
Screen-held start h = record { held = h; ephemeral = refl }
Screen-held (then_ run step) h =
    let before = Screen-held run h in
    let after = step_held step before.held in
    record { held = after.held; ephemeral = after.ephemeral ∙ before.ephemeral }

persisted_held :
    (m : List MessageEntry) (b : MessageBook) → b.held ≡ some m → persisted_entries b ≡ m
unfolding persisted_entries
persisted_held m b h =
    ap (λ (o : Option (List MessageEntry)). elim o [ none ↦ b.entries | some p ↦ p ]) h

persisted_none : (b : MessageBook) → b.held ≡ none → persisted_entries b ≡ b.entries
unfolding persisted_entries
persisted_none b h =
    ap (λ (o : Option (List MessageEntry)). elim o [ none ↦ b.entries | some p ↦ p ]) h

export_same :
    (b e : MessageBook)
    → persisted_entries e ≡ persisted_entries b
    → e.ephemeral ≡ b.ephemeral
    → export e ≡ export b
unfolding export
export_same b e same kind = rw (same, kind) refl

unpark_held :
    (m : List MessageEntry) (b : MessageBook) (o : Option (List MessageEntry))
    → o ≡ some m
    → ((unpark_at o b).0 ≡ true) × ((unpark_at o b).1.entries ≡ m) × ((unpark_at o b).1.held ≡ none)
unfolding unpark_at
unpark_held m b none e = cc
unpark_held m b (some parked) e = (refl, cc, refl)

park_fresh :
    (b : MessageBook) (o : Option (List MessageEntry))
    → o ≡ none
    → ((park_at o b).held ≡ some b.entries) × ((park_at o b).ephemeral ≡ b.ephemeral)
unfolding park_at
park_fresh b none h = (refl, refl)
park_fresh b (some parked) h = cc

park_holds :
    (b : MessageBook)
    → b.held ≡ none
    → ((park b).held ≡ some b.entries) × ((park b).ephemeral ≡ b.ephemeral)
unfolding park
park_holds b h = park_fresh b b.held h

unparked :
    (m : List MessageEntry) (b : MessageBook)
    → b.held ≡ some m
    → ((unpark b).0 ≡ true) × ((unpark b).1.entries ≡ m) × ((unpark b).1.held ≡ none)
unfolding unpark
unparked m b h = unpark_held m b b.held h

-- Whatever is added, deleted, marked or parked again on the decoy screen of a transcript that was
-- parked, the bytes to save stay those of the transcript, and unparking brings it back as it was.
pub decoy_keeps_transcript :
    (b : MessageBook)
    → b.held ≡ none
    → (e : MessageBook) → Screen (park b) e
    → (export e ≡ export b)
      × ((unpark e).0 ≡ true)
      × ((unpark e).1.entries ≡ b.entries)
      × ((unpark e).1.held ≡ none)
decoy_keeps_transcript b h e run =
    let (parked, kind) = park_holds b h in
    let kept = Screen-held run parked in
    let shown : persisted_entries b ≡ b.entries = persisted_none b h in
    let (back, entries, held) = unparked b.entries e kept.held in
    (
      export_same b e (persisted_held b.entries e kept.held ∙ sym shown) (kept.ephemeral ∙ kind),
      back,
      entries,
      held,
    )
