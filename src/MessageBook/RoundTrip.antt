-- ===== src/MessageBook/RoundTrip.antt =====
-- message_book.rs: `load` on the bytes of `export`.
use hash_chat.Prelude.{
  ℕ, suc, ◌+◌, ◌*◌, ◌%◌, ◌^◌, ◌≤◌, ◌<◌, ◌≡◌, ◌≢◌, refl, ap, ◌∙◌, sym, max, false, Option, none,
  some, List, [], ◌∷◌, ◌++◌, arith, length, length-append, All, if◌then◌else◌, Bool-cases, le→ltb,
  inl, inr, ok, append_assoc, append-nil, ◌>>=◌,
}
use hash_chat.Prelude.Bytes.{Bytes, be32, be64, length-be32, length-be64}
use hash_chat.Prelude.Utf8.{as_bytes}
use hash_chat.MessageBook.{
  MessageBook, MessageEntry, to_u8, max_messages, max_text_bytes, u64_max, is_kept, retain,
  persisted_entries,
}
use hash_chat.MessageBook.Codec.{
  entry_bytes, entries_bytes, export, read_entries, has_id, parse, load, magic, from_bool,
  unwrap_or_zero, max_encoded_bytes,
}
use hash_chat.MessageBook.Clean.{clean_text_same, size_of}
use hash_chat.MessageBook.Valid.{IsEntry, IsLog, IsValid, IsHeld, Lacks, Distinct}
use hash_chat.MessageBook.Expiry.{retain_keep, retain_drop, retain-nil}
use hash_chat.MessageBook.ReadEntry.{read_lem, number_32, read_entry_lem}

-- no entry of `es` has the id of one of `acc`
abbrev Apart : List MessageEntry → List MessageEntry → Type 0
Apart acc = All (λ e. Lacks e.id acc)

Lacks-id : (k : ℕ) (acc : List MessageEntry) → Lacks k acc → has_id k acc ≡ false
unfolding has_id
Lacks-id k [] h = refl
Lacks-id k (d ∷ acc) h = ground (arith, Lacks-id k acc h.1, h.0)

Lacks-last :
    (k : ℕ) (acc : List MessageEntry) (e : MessageEntry)
    → Lacks k acc
    → k ≢ e.id
    → Lacks k (acc ++ e ∷ [])
Lacks-last k [] e h ne = (ne, tt)
Lacks-last k (d ∷ acc) e h ne = (h.0, Lacks-last k acc e h.1 ne)

Apart-last :
    (acc es : List MessageEntry) (e : MessageEntry)
    → Apart acc es
    → Lacks e.id es
    → Apart (acc ++ e ∷ []) es
Apart-last acc [] e h l = tt
Apart-last acc (d ∷ es) e h l =
    (Lacks-last d.id acc e h.0 (λ same. l.0 (sym same)), Apart-last acc es e h.1 l.1)

Apart-nil : (es : List MessageEntry) → Apart [] es
Apart-nil [] = tt
Apart-nil (e ∷ es) = (tt, Apart-nil es)

top_id : ℕ → List MessageEntry → ℕ
top_id m [] = m
top_id m (e ∷ es) = top_id (max m e.id) es

-- one round of the loop
read_round :
    (n count now : ℕ) (acc : List MessageEntry) (m : ℕ) (e : MessageEntry) (post : Bytes)
    → n ≤ u64_max
    → IsEntry n e
    → Lacks e.id acc
    → read_entries (suc count) now acc m (entry_bytes e ++ post)
      ≡ read_entries count now
          (if is_kept now e.expires_at then acc ++ e ∷ [] else acc)
          (max m e.id)
          post
unfolding read_entries
read_round n count now acc m e post word v apart =
    rw
      (
        read_entry_lem n e post word v,
        ◌>>=◌,
        Lacks-id e.id acc apart,
        clean_text_same e.text v.clean,
      )
      refl

none_left :
    (now : ℕ) (acc : List MessageEntry) (m : ℕ) → read_entries 0 now acc m [] ≡ ok (acc, m, [])
unfolding read_entries
none_left now acc m = refl

read_entries_lem :
    (n now : ℕ) (acc : List MessageEntry) (m : ℕ) (es : List MessageEntry)
    → n ≤ u64_max
    → All (IsEntry n) es
    → Distinct es
    → Apart acc es
    → read_entries (length es) now acc m (entries_bytes es)
      ≡ ok (acc ++ retain now es, top_id m es, [])
unfolding entries_bytes top_id
read_entries_lem n now acc m [] word each distinct apart =
    rw (retain-nil, append-nil) (none_left now acc m)
read_entries_lem n now acc m (e ∷ es) word each distinct apart =
    read_round n (length es) now acc m e (entries_bytes es) word each.0 apart.0
    ∙ elim (Bool-cases (is_kept now e.expires_at)) [
      | inl kept ↦
          rw (kept, retain_keep now e es kept)
            (read_entries_lem n now (acc ++ e ∷ []) (max m e.id) es word each.1 distinct.1
                (Apart-last acc es e apart.1 distinct.0)
              ∙ ap (λ t. ok (t, top_id (max m e.id) es, []))
                  (append_assoc acc (e ∷ []) (retain now es)))
      | inr gone ↦
          rw (gone, retain_drop now e es gone)
            (read_entries_lem n now acc (max m e.id) es word each.1 distinct.1 apart.1)
    ]

length-entry_bytes :
    (n : ℕ) (e : MessageEntry) → IsEntry n e → length (entry_bytes e) ≤ max_text_bytes + 30
unfolding entry_bytes
length-entry_bytes n e v =
    let size = be32 (size_of e.text % 2 ^ 32) in
    let rest = size ++ as_bytes e.text in
    let exp = be64 (unwrap_or_zero e.expires_at) in
    omega (
      arith,
      length-append (be64 e.id)
          (from_bool e.mine ∷ to_u8 e.delivery ∷ (be64 e.sent_at ++ (exp ++ rest))),
      length-append (be64 e.sent_at) (exp ++ rest),
      length-append exp rest,
      length-append size (as_bytes e.text),
      length-be64 e.id,
      length-be64 e.sent_at,
      length-be64 (unwrap_or_zero e.expires_at),
      length-be32 (size_of e.text % 2 ^ 32),
      v.clean.capped,
    )

length-entries_bytes :
    (n : ℕ) (es : List MessageEntry)
    → All (IsEntry n) es
    → length (entries_bytes es) ≤ length es * (max_text_bytes + 30)
unfolding entries_bytes
length-entries_bytes n [] h = omega arith
length-entries_bytes n (e ∷ es) h = omega (
  arith,
  length-append (entry_bytes e) (entries_bytes es),
  length-entry_bytes n e h.0,
  length-entries_bytes n es h.1,
)

parse_lem :
    (n now : ℕ) (es : List MessageEntry)
    → n ≤ u64_max
    → IsLog n es
    → parse (magic ++ (be32 (length es % 2 ^ 32) ++ entries_bytes es)) now
      ≡ ok (retain now es, top_id 0 es)
unfolding parse
parse_lem n now es word v =
    let body = be32 (length es % 2 ^ 32) ++ entries_bytes es in
    let small : length es % 2 ^ 32 ≡ length es = omega (arith, v.capped) in
    let count_word : length es < 2 ^ 32 = omega (arith, v.capped) in
    let size : length (magic ++ body) ≤ max_encoded_bytes = omega (
      arith,
      length-append (be32 (length es % 2 ^ 32)) (entries_bytes es),
      length-be32 (length es % 2 ^ 32),
      length-entries_bytes n es v.each,
      v.capped,
    ) in
    rw
      (
        le→ltb max_encoded_bytes (length (magic ++ body)) size,
        read_lem 5 magic body refl,
        ◌>>=◌,
        small,
        number_32 (length es) (entries_bytes es) count_word,
        le→ltb max_messages (length es) v.capped,
        read_entries_lem n now [] 0 es word v.each v.distinct (Apart-nil es),
      )
      refl

persisted-IsLog : (b : MessageBook) → IsValid b → IsLog b.next_id (persisted_entries b)
unfolding persisted_entries
persisted-IsLog b v = kept_log b.held v.parked
  where
    kept_log :
        (o : Option (List MessageEntry))
        → IsHeld b.next_id o
        → IsLog b.next_id (elim o [ none ↦ b.entries | some parked ↦ parked ])
    kept_log none h = v.shown
    kept_log (some es) h = h

export_kept :
    (b : MessageBook)
    → b.ephemeral ≡ false
    → export b
      ≡ magic
        ++ (be32 (length (persisted_entries b) % 2 ^ 32) ++ entries_bytes (persisted_entries b))
unfolding export
export_kept b h = rw h refl

-- A durable, well-formed transcript that is exported is loaded again, into any book: the entries that
-- the export kept (the parked ones, if a decoy screen was up), less those that have expired since.
pub load-export :
    (b : MessageBook)
    → IsValid b
    → b.ephemeral ≡ false
    → (now : ℕ) (into : MessageBook)
    → let (outcome, loaded) = load (export b) now into in
      (outcome ≡ ok tt)
      × (loaded.entries ≡ retain now (persisted_entries b))
      × (loaded.held ≡ none)
      × (loaded.ephemeral ≡ into.ephemeral)
unfolding load
load-export b v durable now into =
    rw
      (
        export_kept b durable,
        parse_lem b.next_id now (persisted_entries b) v.counter_word (persisted-IsLog b v),
      )
      (refl, refl, refl, refl)
