-- ===== src/Examples/Transcript.antt =====
-- A transcript of two messages, one of them with a deadline.
use hash_chat.Prelude.{◌+◌, ◌≡◌, refl, true, false, none, inl, [], ◌∷◌, arith, ok, length, All}
use hash_chat.Prelude.Utf8.{Text, IsText}
use hash_chat.Sanitize.{is_terminal_safe, sanitize_for_terminal}
use hash_chat.Sanitize.Safe.{IsHarmless, Shows, sanitize_lem}
use hash_chat.MessageBook.{
  MessageBook, new, add, delete, set_delivery, park, unpark, purge_expired, failed, clean_text,
  persisted_entries, retain,
}
use hash_chat.MessageBook.Codec.{export, load}
use hash_chat.MessageBook.Clean.{IsClean, clean_text-IsClean}
use hash_chat.MessageBook.Valid.{IsValid}
use hash_chat.MessageBook.Life.{
  Run, here, next, adds, parks, unparks, purges, new-IsValid, Run-IsValid,
}
use hash_chat.MessageBook.Decoy.{Screen, start, then_, decoy_keeps_transcript}
use hash_chat.MessageBook.Decoy
use hash_chat.MessageBook.Expiry.{Purged, HeldPurged, purge_lem}
use hash_chat.MessageBook.RoundTrip.{load-export}

-- an escape character between two letters
abbrev hello : Text
hello = 104 ∷ 27 ∷ 105 ∷ []

hello-IsText : IsText hello
hello-IsText = (
  (omega arith, inl (omega arith)),
  ((omega arith, inl (omega arith)), ((omega arith, inl (omega arith)), tt)),
)

abbrev first : MessageBook
first = (add true hello 100 60 new).1

abbrev book : MessageBook
book = (add false hello 130 0 first).1

written : Run new book
unfolding add
written =
    next (next here (adds true hello 100 60 hello-IsText (omega arith) (omega arith)))
      (adds false hello 130 0 hello-IsText (omega arith) (omega arith))

book-IsValid : IsValid book
book-IsValid = Run-IsValid written new-IsValid

not_parked : book.held ≡ none
unfolding add
not_parked = refl

durable : book.ephemeral ≡ false
unfolding add
durable = refl

abbrev decoy : MessageBook
decoy = (delete 1 (set_delivery 3 failed (add true hello 140 0 (park book)).1).1).1

on_Screen : Screen (park book) decoy
on_Screen =
    then_ (then_ (then_ start (Decoy.adds true hello 140 0)) (Decoy.sets 3 failed))
      (Decoy.deletes 1)

decoy_keeps_transcript_example :
    (export decoy ≡ export book)
    × ((unpark decoy).0 ≡ true)
    × ((unpark decoy).1.entries ≡ book.entries)
    × ((unpark decoy).1.held ≡ none)
decoy_keeps_transcript_example = decoy_keeps_transcript book not_parked decoy on_Screen

Run-IsValid_example : IsValid (unpark (purge_expired 200 (park book)).1).1
Run-IsValid_example = Run-IsValid (next (next (next here parks) (purges 200)) unparks) book-IsValid

load-export_example :
    let (outcome, loaded) = load (export book) 150 new in
    (outcome ≡ ok tt)
    × (loaded.entries ≡ retain 150 (persisted_entries book))
    × (loaded.held ≡ none)
    × (loaded.ephemeral ≡ false)
load-export_example = load-export book book-IsValid durable 150 new

purge_lem_example :
    let (count, purged) = purge_expired 150 book in
    let (again, twice) = purge_expired 200 purged in
    Purged 150 book.entries purged.entries
    × HeldPurged 150 book.held purged.held
    × (twice ≡ (purge_expired 200 book).1)
    × (count + again ≡ (purge_expired 200 book).0)
purge_lem_example = purge_lem 150 200 book (omega arith)

clean_text-IsClean_example : IsClean (clean_text hello)
clean_text-IsClean_example = clean_text-IsClean hello hello-IsText

sanitize_lem_example :
    All IsHarmless (sanitize_for_terminal hello)
    × Shows hello (sanitize_for_terminal hello)
    × (is_terminal_safe (sanitize_for_terminal hello) ≡ true)
    × (length (sanitize_for_terminal hello) ≡ 3)
    × (sanitize_for_terminal (sanitize_for_terminal hello) ≡ sanitize_for_terminal hello)
sanitize_lem_example = sanitize_lem hello
