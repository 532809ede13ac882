-- ===== src/FailWipe.antt =====
-- src/rust/failwipe.rs: the count of unlock attempts that have not succeeded, which is written down
-- before each of them, and the limit at which the store is wiped.
pub mod Count
pub mod Limit
use hash_chat.Prelude.{
  ℕ, zero, suc, ◌+◌, Bool, true, false, not, ◌&&◌, ◌||◌, Option, none, some, List, [], ◌∷◌, ◌++◌,
  leb, ◌==◌, if◌then◌else◌, Result, ok, err, panic,
}
use hash_chat.Prelude.Bytes.{Bytes}
use hash_chat.Prelude.Utf8.{Text, as_bytes, chars, from_utf8, same_text, trim_end}
use hash_chat.Prelude.Fields.{◌&?◌, split_space, parse_unsigned}
use hash_chat.Prelude.Line.{line}
use hash_chat.PrivateFile.{
  Storage, Calls, PrivateFsError, read_private_file, write_private_file, is_present, remove_file,
}

unfoldable pub magic : Text
unfolding chars
magic = chars "HCFW1"

abbrev pub max_file_bytes : ℕ
max_file_bytes = 64

abbrev pub min_fail_limit : ℕ
min_fail_limit = 3

abbrev pub max_fail_limit : ℕ
max_fail_limit = 100

pub record FailWipeConfig : Type 0 where
  pub limit : ℕ
  pub count : ℕ

-- `(MIN_FAIL_LIMIT..=MAX_FAIL_LIMIT).contains(&limit)`
abbrev pub is_limit : ℕ → Bool
is_limit limit = leb min_fail_limit limit && leb limit max_fail_limit

unfoldable pub encode : FailWipeConfig → Bytes
unfolding magic
encode cfg = as_bytes (line magic cfg.limit cfg.count)

unfoldable pub decode_parts : List Text → Option FailWipeConfig
unfolding parse_unsigned
decode_parts (word ∷ first ∷ second ∷ []) =
    if not (same_text word magic)
    then none
    else parse_unsigned 32 first &? λ limit. parse_unsigned 32 second &? λ count.
        if is_limit limit then some (record { limit = limit; count = count }) else none
decode_parts parts = none

unfoldable pub decode : Bytes → Option FailWipeConfig
unfolding decode_parts split_space
decode raw = from_utf8 raw &? λ text. decode_parts (split_space (trim_end text))

-- what was read, decoded
unfoldable pub decoded : Result PrivateFsError Bytes × Storage → Option FailWipeConfig × Storage
decoded (ok raw, s) = (decode raw, s)
decoded (err e, s) = (none, s)
decoded (panic, s) = (none, s)

unfoldable pub failwipe_config : Calls → Storage → Option FailWipeConfig × Storage
unfolding decoded
failwipe_config k s = decoded (read_private_file k max_file_bytes s)

unfoldable pub write : Calls → FailWipeConfig → Storage → Result PrivateFsError (Unit {0}) × Storage
unfolding encode
write k cfg s = write_private_file k (encode cfg) s

pub data SetError : Type 0 where
  bad_limit : SetError
  not_written : PrivateFsError → SetError

unfoldable pub written :
    Result PrivateFsError (Unit {0}) × Storage → Result SetError (Unit {0}) × Storage
written (ok u, s) = (ok u, s)
written (err e, s) = (err (not_written e), s)
written (panic, s) = (panic, s)

unfoldable pub set_failwipe : Calls → ℕ → Storage → Result SetError (Unit {0}) × Storage
unfolding write written
set_failwipe k limit s =
    if not (is_limit limit)
    then (err bad_limit, s)
    else written (write k (record { limit = limit; count = 0 }) s)

-- the sweep of temporary files does not touch this one
unfoldable pub clear_failwipe : Calls → Storage → Storage
clear_failwipe k s = remove_file k s

pub data Attempt : Type 0 where
  off allowed wipe_now : Attempt

unfoldable pub if_written : Result PrivateFsError (Unit {0}) × Storage → Attempt × Storage
if_written (ok u, s) = (allowed, s)
if_written (err e, s) = (wipe_now, s)
if_written (panic, s) = (wipe_now, s)

-- an attempt is counted, if the setting was read and lets it
unfoldable pub count_attempt : Calls → Option FailWipeConfig × Storage → Attempt × Storage
unfolding write if_written
count_attempt k (none, s) = (wipe_now, s)
count_attempt k (some cfg, s) =
    if leb cfg.limit cfg.count
    then (wipe_now, s)
    else if_written (write k (record { limit = cfg.limit; count = cfg.count + 1 }) s)

-- with the answers to the reading and to the writing
unfoldable pub begin_attempt : Calls → Calls → Storage → Attempt × Storage
unfolding failwipe_config count_attempt
begin_attempt r w s =
    if not (is_present r s) then (off, s) else count_attempt w (failwipe_config r s)

unfoldable pub reset_count : Calls → Option FailWipeConfig × Storage → Storage
unfolding write
reset_count k (none, s) = s
reset_count k (some cfg, s) = (write k (record cfg { count = 0 }) s).1

unfoldable pub attempt_succeeded : Calls → Calls → Storage → Storage
unfolding failwipe_config reset_count
attempt_succeeded r w s = reset_count w (failwipe_config r s)

unfoldable pub at_limit : Calls → Option FailWipeConfig × Storage → Bool × Storage
unfolding is_present
at_limit r (some cfg, s) = (leb cfg.limit cfg.count, s)
at_limit r (none, s) = (is_present r s, s)

unfoldable pub attempt_failed : Calls → Storage → Bool × Storage
unfolding failwipe_config at_limit
attempt_failed r s = at_limit r (failwipe_config r s)
