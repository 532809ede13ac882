-- ===== src/PrivateFile/Held.antt =====
-- private_fs.rs: a file that was written, and what is read from it.
use hash_chat.Prelude.{
  ℕ, min, ◌≤◌, ◌≡◌, refl, sym, ◌∙◌, ap, Bool, true, false, Option, none, some, length, ltb,
  if◌then◌else◌, Result, ok, err, panic, Bool-cases, inl, inr, arith,
}
use hash_chat.Prelude.Bytes.{Bytes}
use hash_chat.PrivateFile.{
  Storage, Directory, Node, Kind, Calls, Answer, PrivateFsError, regular, link, directory, special,
  io, too_large, done, is_loose, private_node, new_directory, max_private_file_bytes, check_dir,
  open_private_dir, check_node, check_target, replace_file, within, read_private_file,
  write_private_file,
}

-- an owner-only file in a directory of a mode
abbrev pub held : ℕ → Bytes → Storage
held mode data_bytes = record {
  dir = some (record { kind = directory; owned = true; mode = mode });
  file = some (private_node data_bytes);
}

-- a storage that holds a file, in a directory that only the owner can use
abbrev pub Holds : Storage → Bytes → Type 0
Holds s data_bytes = (mode : ℕ) × (is_loose mode ≡ false) × (s ≡ held mode data_bytes)

replaced :
    (k : Calls) (data_bytes : Bytes) (s : Storage) (target : Result PrivateFsError (Unit {0}))
    {after : Storage}
    → replace_file k data_bytes s target ≡ (done, after)
    → after ≡ record s { file = some (private_node data_bytes) }
unfolding replace_file
replaced k data_bytes s (ok u) h = by_calls k.file_calls h
  where
    by_calls :
        (b : Bool) {after : Storage}
        → (if◌then◌else◌ {A = Answer (Unit {0})} b
            (done, record s { file = some (private_node data_bytes) })
            (err io, s))
          ≡ (done, after)
        → after ≡ record s { file = some (private_node data_bytes) }
    by_calls true e = sym (ap (λ a. a.1) e)
    by_calls false e = cc (ap (λ a. a.0) e)
replaced k data_bytes s (err e) h = cc (ap (λ a. a.0) h)
replaced k data_bytes s panic h = cc (ap (λ a. a.0) h)

abbrev in_dir : ℕ → Option Node → Storage
in_dir mode file = record {
  dir = some (record { kind = directory; owned = true; mode = mode });
  file = file;
}

-- a storage whose directory is the owner's alone, with a file of an earlier one
abbrev IsOpened : Option Node → Storage → Type 0
IsOpened file s =
    (mode : ℕ) × (is_loose mode ≡ false)
    × (s ≡ record {
      dir = some (record { kind = directory; owned = true; mode = mode });
      file = file;
    })

IsOpened-dir :
    (k : Calls) (kind : Kind) (owned : Bool) (mode : ℕ) (file : Option Node) {after : Storage}
    → let d : Directory = record { kind = kind; owned = owned; mode = mode } in
      check_dir k d (record { dir = some d; file = file }) ≡ (done, after) → IsOpened file after
unfolding check_dir
IsOpened-dir k link owned mode file h = cc (ap (λ a. a.0) h)
IsOpened-dir k regular owned mode file h = cc (ap (λ a. a.0) h)
IsOpened-dir k special owned mode file h = cc (ap (λ a. a.0) h)
IsOpened-dir k directory false mode file h = cc (ap (λ a. a.0) h)
IsOpened-dir k directory true mode file h = by_mode (is_loose mode) refl k.dir_calls h
  where
    by_mode :
        (loose : Bool)
        → is_loose mode ≡ loose
        → (works : Bool) {end : Storage}
        → (if◌then◌else◌ {A = Answer (Unit {0})} loose
            (if◌then◌else◌ {A = Answer (Unit {0})} works
              (done, in_dir 0o700 file)
              (err io, in_dir mode file))
            (done, in_dir mode file))
          ≡ (done, end)
        → IsOpened file end
    by_mode true e true g = (0o700, refl, sym (ap (λ a. a.1) g))
    by_mode true e false g = cc (ap (λ a. a.0) g)
    by_mode false e works g = (mode, e, sym (ap (λ a. a.1) g))

opened :
    (k : Calls) (dir : Option Directory) (file : Option Node) {after : Storage}
    → open_private_dir k true (record { dir = dir; file = file }) ≡ (done, after)
    → IsOpened file after
unfolding open_private_dir
opened k (some d) file h = IsOpened-dir k d.kind d.owned d.mode file h
opened k none file h = created k.dir_calls h
  where
    created :
        (works : Bool) {end : Storage}
        → (if◌then◌else◌ {A = Answer (Unit {0})} works
            (done, record { dir = some new_directory; file = file })
            (err io, record { dir = none; file = file }))
          ≡ (done, end)
        → IsOpened file end
    created true g = (0o700, refl, sym (ap (λ a. a.1) g))
    created false g = cc (ap (λ a. a.0) g)

pub write_lem :
    (k : Calls) (data_bytes : Bytes) (s : Storage) {after : Storage}
    → write_private_file k data_bytes s ≡ (done, after)
    → Holds after data_bytes
unfolding write_private_file within
write_lem k data_bytes s h = by_size (ltb max_private_file_bytes (length data_bytes)) h
  where
    by_open :
        (o : Answer (Unit {0})) {end : Storage}
        → open_private_dir k true s ≡ o
        → within o (λ s. replace_file k data_bytes s (check_target s.file)) ≡ (done, end)
        → Holds end data_bytes
    by_open (ok u, mid) e g =
        let (mode, tight, same) = opened k s.dir s.file e in
        (
          mode,
          tight,
          replaced k data_bytes mid (check_target mid.file) g
              ∙ ap {A = Storage} (λ x. record x { file = some (private_node data_bytes) }) same,
        )
    by_open (err x, mid) e g = cc (ap (λ a. a.0) g)
    by_open (panic, mid) e g = cc (ap (λ a. a.0) g)

    by_size :
        (big : Bool) {end : Storage}
        → (if◌then◌else◌ {A = Answer (Unit {0})} big
            (err too_large, s)
            (within
              (open_private_dir k true s)
              (λ s. replace_file k data_bytes s (check_target s.file))))
          ≡ (done, end)
        → Holds end data_bytes
    by_size true g = cc (ap (λ a. a.0) g)
    by_size false g = by_open (open_private_dir k true s) refl g

fits :
    (data_bytes : Bytes) (max : ℕ) → length data_bytes ≤ max → ltb max (length data_bytes) ≡ false
fits data_bytes max h = ground (arith, h)

pub write_again :
    (k : Calls) (mode : ℕ) (old new : Bytes)
    → is_loose mode ≡ false
    → length new ≤ max_private_file_bytes
    → write_private_file k new (held mode old) ≡ (
        if◌then◌else◌ {A = Answer (Unit {0})} k.file_calls
          (done, held mode new)
          (err io, held mode old))
unfolding write_private_file open_private_dir check_dir within check_target replace_file
write_again k mode old new tight size = rw (fits new max_private_file_bytes size, tight) refl

pub read_held :
    (k : Calls) (mode max : ℕ) (data_bytes : Bytes)
    → is_loose mode ≡ false
    → max ≤ max_private_file_bytes
    → length data_bytes ≤ max
    → read_private_file k max (held mode data_bytes) ≡ (
      (if◌then◌else◌ {A = Result PrivateFsError Bytes} k.file_calls (ok data_bytes) (err io)),
      held mode data_bytes,
    )
unfolding read_private_file open_private_dir check_dir within check_node
read_held k mode max data_bytes tight small size =
    rw (tight, capped max small, fits data_bytes max size)
      (elim (Bool-cases k.file_calls) [ inl e ↦ rw e refl | inr e ↦ rw e refl ])
  where
    capped : (m : ℕ) → m ≤ max_private_file_bytes → min m max_private_file_bytes ≡ m
    capped m e = omega (arith, e)
