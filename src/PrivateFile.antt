-- ===== src/PrivateFile.antt =====
-- src/rust/private_fs.rs: one owner-only file of the state directory, as its checked reads and atomic
-- writes find it and leave it on Unix. What the system calls answer is a parameter.
pub mod Held
use hash_chat.Prelude.{
  ℕ, ◌%◌, ◌*◌, min, Bool, true, false, not, ◌&&◌, Option, none, some, List, [], ◌∷◌, length, ltb,
  ◌==◌, if◌then◌else◌, Result, ok, err, panic, refuse_if, ◌>>=◌, ◌>>◌,
}
use hash_chat.Prelude.Bytes.{Bytes}

-- 256 MiB
abbrev pub max_private_file_bytes : ℕ
max_private_file_bytes = 256 * 1024 * 1024

pub data PrivateFsError : Type 0 where
  not_found symlink not_regular not_directory wrong_owner too_permissive too_large io :
      PrivateFsError

-- what stands at a path
pub data Kind : Type 0 where
  regular link directory special : Kind

pub record Node : Type 0 where
  pub kind : Kind
  pub owned : Bool
  pub mode : ℕ
  pub bytes : Bytes

pub record Directory : Type 0 where
  pub kind : Kind
  pub owned : Bool
  pub mode : ℕ

pub record Storage : Type 0 where
  pub dir : Option Directory
  pub file : Option Node

-- whether the calls succeed that look the name of the file up, those that change the directory, and
-- those that read, write or rename the file
pub record Calls : Type 0 where
  pub lookup : Bool
  pub dir_calls : Bool
  pub file_calls : Bool

abbrev pub Answer : Type 0 → Type 0
Answer A = Result PrivateFsError A × Storage

abbrev pub new_directory : Directory
new_directory = record { kind = directory; owned = true; mode = 0o700 }

abbrev pub done : Result PrivateFsError (Unit {0})
done = ok tt

-- `mode & 0o077 != 0`
abbrev pub is_loose : ℕ → Bool
is_loose mode = not (mode % 64 == 0)

unfoldable pub check_dir : Calls → Directory → Storage → Answer (Unit {0})
check_dir k d s = elim d.kind [
  | link ↦ (err symlink, s)
  | directory ↦
      if not d.owned
      then (err wrong_owner, s)
      else if is_loose d.mode
      then (if k.dir_calls
          then (done, record s { dir = some (record d { mode = 0o700 }) })
          else (err io, s))
      else (done, s)
  | regular ↦ (err not_directory, s)
  | special ↦ (err not_directory, s)
]

unfoldable pub open_private_dir : Calls → Bool → Storage → Answer (Unit {0})
unfolding check_dir
open_private_dir k create s = elim s.dir [
  | some d ↦ check_dir k d s
  | none ↦
      if not create
      then (err not_found, s)
      else if k.dir_calls
      then (done, record s { dir = some new_directory })
      else (err io, s)
]

-- the checks of `open_checked` on the file itself
unfoldable pub check_node : Calls → ℕ → Option Node → Result PrivateFsError Bytes
check_node k max_len none = err not_found
check_node k max_len (some n) = do
  refuse_if (elim n.kind [ link ↦ true | regular ↦ false | directory ↦ false | special ↦ false ])
      symlink
  refuse_if (not k.file_calls) io
  refuse_if (elim n.kind [ regular ↦ false | link ↦ true | directory ↦ true | special ↦ true ])
      not_regular
  refuse_if (not n.owned) wrong_owner
  refuse_if (is_loose n.mode) too_permissive
  refuse_if (ltb max_len (length n.bytes)) too_large
  ok n.bytes

-- an operation, once the directory was opened
unfoldable pub within : {A : Type 0} → Answer (Unit {0}) → (Storage → Answer A) → Answer A
within (ok u, s) rest = rest s
within (err e, s) rest = (err e, s)
within (panic, s) rest = (panic, s)

unfoldable pub read_private_file : Calls → ℕ → Storage → Answer Bytes
unfolding open_private_dir check_node within
read_private_file k max_len s =
    within (open_private_dir k false s)
      (λ s. (check_node k (min max_len max_private_file_bytes) s.file, s))

-- what may be replaced: a plain file, or nothing
unfoldable pub check_target : Option Node → Result PrivateFsError (Unit {0})
check_target none = ok tt
check_target (some n) = elim n.kind [
  | regular ↦ ok tt
  | link ↦ err symlink
  | directory ↦ err not_regular
  | special ↦ err not_regular
]

abbrev pub private_node : Bytes → Node
private_node data_bytes = record { kind = regular; owned = true; mode = 0o600; bytes = data_bytes }

-- the new file stands under a temporary name until it is renamed
unfoldable pub replace_file :
    Calls → Bytes → Storage → Result PrivateFsError (Unit {0}) → Answer (Unit {0})
replace_file k data_bytes s (ok u) =
    if k.file_calls then (done, record s { file = some (private_node data_bytes) }) else (err io, s)
replace_file k data_bytes s (err e) = (err e, s)
replace_file k data_bytes s panic = (panic, s)

unfoldable pub write_private_file : Calls → Bytes → Storage → Answer (Unit {0})
unfolding open_private_dir check_target replace_file within
write_private_file k data_bytes s =
    if ltb max_private_file_bytes (length data_bytes)
    then (err too_large, s)
    else within (open_private_dir k true s) (λ s. replace_file k data_bytes s (check_target s.file))

-- `fs::symlink_metadata(path).is_ok()`
unfoldable pub is_present : Calls → Storage → Bool
is_present k s = k.lookup && elim s.file [ none ↦ false | some n ↦ true ]

-- `fs::remove_file`, which removes a link and not what it leads to
unfoldable pub remove_file : Calls → Storage → Storage
remove_file k s = elim s.file [
  | none ↦ s
  | some n ↦ elim n.kind [
    | directory ↦ s
    | regular ↦ if k.file_calls then record s { file = none } else s
    | link ↦ if k.file_calls then record s { file = none } else s
    | special ↦ if k.file_calls then record s { file = none } else s
  ]
]
