-- ===== src/Deadman.antt =====
-- src/rust/deadman.rs: the wipe of a store that was not unlocked for a number of days.
pub mod Due
use hash_chat.Prelude.{
  ℕ, ◌+◌, ◌-◌, ◌*◌, ◌^◌, min, Bool, true, false, not, ◌&&◌, Option, none, some, List, [], ◌∷◌, leb,
  ◌==◌, if◌then◌else◌, Result, ok, err, panic,
}
use hash_chat.Prelude.Bytes.{Bytes}
use hash_chat.Prelude.Utf8.{Text, as_bytes, chars, from_utf8, same_text, trim_end}
use hash_chat.Prelude.Fields.{◌&?◌, split_space, parse_unsigned}
use hash_chat.Prelude.Line.{line}
use hash_chat.PrivateFile.{
  Storage, Calls, PrivateFsError, read_private_file, write_private_file, is_present, remove_file,
}

unfoldable pub magic : Text
unfolding chars
magic = chars "HCDM1"

abbrev pub max_file_bytes : ℕ
max_file_bytes = 128

abbrev pub min_deadman_days : ℕ
min_deadman_days = 1

abbrev pub max_deadman_days : ℕ
max_deadman_days = 365

abbrev pub secs_per_day : ℕ
secs_per_day = 86400

pub record DeadmanConfig : Type 0 where
  pub days : ℕ
  pub last_unlock_unix : ℕ

-- seconds left before the wipe, and 0 if it is due; `saturating_add` on `u64`
unfoldable pub remaining_secs : ℕ → DeadmanConfig → ℕ
remaining_secs now_unix cfg =
    min (cfg.last_unlock_unix + cfg.days * secs_per_day) (2 ^ 64 - 1) - now_unix

unfoldable pub is_due : ℕ → DeadmanConfig → Bool
unfolding remaining_secs
is_due now_unix cfg = leb cfg.last_unlock_unix now_unix && remaining_secs now_unix cfg == 0

-- `(MIN_DEADMAN_DAYS..=MAX_DEADMAN_DAYS).contains(&days)`
abbrev pub is_days : ℕ → Bool
is_days days = leb min_deadman_days days && leb days max_deadman_days

unfoldable pub encode : DeadmanConfig → Bytes
unfolding magic
encode cfg = as_bytes (line magic cfg.days cfg.last_unlock_unix)

unfoldable pub decode_parts : List Text → Option DeadmanConfig
unfolding parse_unsigned
decode_parts (word ∷ first ∷ second ∷ []) =
    if not (same_text word magic)
    then none
    else parse_unsigned 32 first &? λ days. parse_unsigned 64 second &? λ last_unlock_unix.
        if is_days days
        then some (record { days = days; last_unlock_unix = last_unlock_unix })
        else none
decode_parts parts = none

unfoldable pub decode : Bytes → Option DeadmanConfig
unfolding decode_parts split_space
decode raw = from_utf8 raw &? λ text. decode_parts (split_space (trim_end text))

unfoldable pub decoded : Result PrivateFsError Bytes × Storage → Option DeadmanConfig × Storage
decoded (ok raw, s) = (decode raw, s)
decoded (err e, s) = (none, s)
decoded (panic, s) = (none, s)

unfoldable pub deadman_config : Calls → Storage → Option DeadmanConfig × Storage
unfolding decoded
deadman_config k s = decoded (read_private_file k max_file_bytes s)

pub data SetError : Type 0 where
  bad_days : SetError
  not_written : PrivateFsError → SetError

unfoldable pub written :
    Result PrivateFsError (Unit {0}) × Storage → Result SetError (Unit {0}) × Storage
written (ok u, s) = (ok u, s)
written (err e, s) = (err (not_written e), s)
written (panic, s) = (panic, s)

unfoldable pub set_deadman : Calls → ℕ → ℕ → Storage → Result SetError (Unit {0}) × Storage
unfolding encode written
set_deadman k days now_unix s =
    if not (is_days days)
    then (err bad_days, s)
    else written
        (write_private_file k (encode (record { days = days; last_unlock_unix = now_unix })) s)

-- the setting that was read is written again with a new time
unfoldable pub touched : Calls → ℕ → Option DeadmanConfig × Storage → Storage
unfolding set_deadman
touched k now_unix (none, s) = s
touched k now_unix (some cfg, s) = (set_deadman k cfg.days now_unix s).1

unfoldable pub touch_deadman : Calls → Calls → ℕ → Storage → Storage
unfolding deadman_config touched
touch_deadman r w now_unix s = touched w now_unix (deadman_config r s)

-- the sweep of temporary files does not touch this one
unfoldable pub clear_deadman : Calls → Storage → Storage
clear_deadman k s = remove_file k s

-- a damaged file counts as due
unfoldable pub due_at : ℕ → Option DeadmanConfig → Bool
unfolding is_due
due_at now_unix none = true
due_at now_unix (some cfg) = is_due now_unix cfg

-- whether `wipe` is run
unfoldable pub wipe_if_deadman_due : Calls → ℕ → Storage → Bool
unfolding deadman_config due_at
wipe_if_deadman_due r now_unix s =
    if not (is_present r s) then false else due_at now_unix (deadman_config r s).0
