-- ===== src/Examples/Wipes.antt =====
-- A store that is wiped after three attempts, or after two weeks.
use hash_chat.Prelude.{◌≤◌, ◌≡◌, refl, true, false, none, List, [], ◌∷◌, ok, arith}
use hash_chat.Prelude.Utf8.{as_bytes, encode_char}
use hash_chat.Prelude.Decimal.{decimal}
use hash_chat.PrivateFile.{
  Storage, Calls, write_private_file, open_private_dir, within, replace_file, check_target,
}
use hash_chat.PrivateFile.Held.{held}
use hash_chat.FailWipe.{Attempt, allowed, wipe_now, set_failwipe, begin_attempt, attempt_failed}
use hash_chat.FailWipe
use hash_chat.FailWipe.Limit.{
  Turn, begins, succeeds, fails, run, let_through, tried, fail_lem, wipe_lem,
}
use hash_chat.FailWipe.Count.{at_count}
use hash_chat.Deadman.{set_deadman, wipe_if_deadman_due}
use hash_chat.Deadman
use hash_chat.Deadman.Due.{Unlock, touch_all, last_written, deadman_lem}

abbrev fresh : Storage
fresh = record { dir = none; file = none }

abbrev works : Calls
works = record { lookup = true; dir_calls = true; file_calls = true }

abbrev broken : Calls
broken = record { lookup = true; dir_calls = true; file_calls = false }

-- an attempt that succeeds, one that cannot be counted, and four more
abbrev turns : List Turn
turns =
    begins works works
    ∷ succeeds works works
    ∷ begins works broken
    ∷ begins works works
    ∷ fails works
    ∷ begins works works
    ∷ begins works works
    ∷ begins works works
    ∷ []

limit_set : set_failwipe works 3 fresh ≡ (ok tt, at_count 0o700 3 0)
unfolding set_failwipe FailWipe.written FailWipe.write FailWipe.encode FailWipe.magic
    write_private_file open_private_dir within replace_file check_target as_bytes encode_char
    decimal
limit_set = refl

fail_lem_example : let_through 0 turns (at_count 0o700 3 0) ≤ 3
fail_lem_example =
    fail_lem works 3 fresh turns limit_set
      (refl, (tt, (refl, (refl, (tt, (refl, (refl, (refl, tt))))))))

abbrev three_tries : List Turn
three_tries =
    begins works works
    ∷ fails works
    ∷ begins works works
    ∷ fails works
    ∷ begins works works
    ∷ fails works
    ∷ []

wipe_lem_example :
    ((begin_attempt works works (run three_tries (at_count 0o700 3 0))).0 ≡ wipe_now)
    × ((attempt_failed works (run three_tries (at_count 0o700 3 0))).0 ≡ true)
unfolding tried
wipe_lem_example =
    wipe_lem works works works 3 fresh three_tries limit_set
      ((refl, refl, refl), (refl, ((refl, refl, refl), (refl, ((refl, refl, refl), (refl, tt))))))
      refl refl refl

abbrev two_weeks : Storage
two_weeks = held 0o700 (Deadman.encode (record { days = 14; last_unlock_unix = 1_000 }))

days_set : set_deadman works 14 1_000 fresh ≡ (ok tt, two_weeks)
unfolding set_deadman Deadman.written Deadman.encode Deadman.magic write_private_file
    open_private_dir within replace_file check_target as_bytes encode_char decimal
days_set = refl

abbrev unlocks : List Unlock
unlocks =
    record { at = 51_000; r = works; w = works }
    ∷ record { at = 91_000; r = works; w = broken }
    ∷ []

-- fourteen days after the first unlock, since the second could not be written down
deadman_lem_example : wipe_if_deadman_due works 1_260_600 (touch_all unlocks two_weeks) ≡ true
unfolding last_written
deadman_lem_example =
    deadman_lem works works 14 1_000 1_260_600 fresh unlocks days_set (omega arith)
      (omega arith, (omega arith, tt))
