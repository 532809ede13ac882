-- ===== src/FailWipe/Limit.antt =====
-- failwipe.rs: runs of attempts to unlock.
use hash_chat.Prelude.{
  ℕ, min, ◌+◌, ◌≤◌, ◌≡◌, refl, sym, ◌∙◌, ap, subst, Bool, true, false, not, ◌&&◌, List, [], ◌∷◌,
  ltb, leb, if◌then◌else◌, ok, Bool-cases, inl, inr, All, arith,
}
use hash_chat.PrivateFile.{Storage, Calls, is_loose}
use hash_chat.FailWipe.{
  Attempt, off, allowed, wipe_now, set_failwipe, begin_attempt, attempt_succeeded, attempt_failed,
}
use hash_chat.FailWipe.Count.{
  IsSetting, at_count, passes, begin_lem, failed_lem, succeeded_lem, set_lem,
}

-- what the program does around an unlock, each with the answers to its reading and its writing
pub data Turn : Type 0 where
  begins succeeds : (r w : Calls) → Turn
  fails : (r : Calls) → Turn

unfoldable pub next : Turn → Storage → Storage
unfolding begin_attempt attempt_succeeded attempt_failed
next (begins r w) s = (begin_attempt r w s).1
next (succeeds r w) s = attempt_succeeded r w s
next (fails r) s = (attempt_failed r s).1

unfoldable pub run : List Turn → Storage → Storage
unfolding next
run [] s = s
run (t ∷ ts) s = run ts (next t s)

-- the attempts that were let through since the last success: a caller goes on to the passphrase
-- after both `off` and `allowed`
abbrev pub one_more : Attempt → ℕ → ℕ
one_more allowed n = n + 1
one_more off n = n + 1
one_more wipe_now n = n

unfoldable pub tally : Turn → ℕ → Storage → ℕ
unfolding begin_attempt
tally (begins r w) n s = one_more (begin_attempt r w s).0 n
tally (succeeds r w) n s = 0
tally (fails r) n s = n

unfoldable pub let_through : ℕ → List Turn → Storage → ℕ
unfolding tally next
let_through n [] s = n
let_through n (t ∷ ts) s = let_through (tally t n s) ts (next t s)

-- the file is found when an attempt begins
abbrev pub Sees : Calls → Type 0
Sees k = k.lookup ≡ true

abbrev pub IsSeen : Turn → Type 0
IsSeen (begins r w) = Sees r
IsSeen (succeeds r w) = Unit
IsSeen (fails r) = Unit

-- a count in the file that is no less than a number of attempts
abbrev pub IsCounted : ℕ → ℕ → Storage → Type 0
IsCounted limit n s =
    (mode count : ℕ) × (is_loose mode ≡ false)
    × IsSetting (record { limit = limit; count = count })
    × (n ≤ count)
    × (s ≡ at_count mode limit count)

-- an attempt that passes is below the limit
below :
    (r w : Calls) (limit count : ℕ)
    → passes r w limit count ≡ true
    → IsSetting (record { limit = limit; count = count })
    → IsSetting (record { limit = limit; count = count + 1 })
below r w limit count e v = record {
  least = v.least;
  most = v.most;
  counted = ground (arith, by_first r.file_calls (leb limit count) w.file_calls e);
}
  where
    by_first : (a b c : Bool) → (a && (not b && c)) ≡ true → b ≡ false
    by_first true false c k = refl
    by_first true true c k = cc
    by_first false b c k = cc

turn_at :
    (t : Turn) (limit n mode count : ℕ)
    → IsSeen t
    → is_loose mode ≡ false
    → IsSetting (record { limit = limit; count = count })
    → n ≤ count
    → IsCounted limit (tally t n (at_count mode limit count)) (next t (at_count mode limit count))
unfolding tally next
turn_at (begins r w) limit n mode count seen tight v le =
    rw (tally, next, begin_lem r w mode limit count seen tight v)
      (elim (Bool-cases (passes r w limit count)) [
        | inl e ↦ rw e (mode, count + 1, tight, below r w limit count e v, omega (arith, le), refl)
        | inr e ↦ rw e (mode, count, tight, v, le, refl)
      ])
turn_at (succeeds r w) limit n mode count seen tight v le =
    rw (tally, next, succeeded_lem r w mode limit count tight v)
      (elim (Bool-cases (r.file_calls && w.file_calls)) [
        | inl e ↦ rw e (
          mode,
          0,
          tight,
          record { least = v.least; most = v.most; counted = omega arith },
          omega arith,
          refl,
        )
        | inr e ↦ rw e (mode, count, tight, v, omega arith, refl)
      ])
turn_at (fails r) limit n mode count seen tight v le =
    rw (tally, next, failed_lem r mode limit count tight v) (mode, count, tight, v, le, refl)

turn_lem :
    (t : Turn) (limit n : ℕ) (s : Storage)
    → IsSeen t
    → IsCounted limit n s
    → IsCounted limit (tally t n s) (next t s)
turn_lem t limit n s seen (mode, count, tight, v, le, same) =
    subst (λ z. IsCounted limit (tally t n z) (next t z)) (sym same)
      (turn_at t limit n mode count seen tight v le)

run_lem :
    (ts : List Turn) (limit n : ℕ) (s : Storage)
    → All IsSeen ts
    → IsCounted limit n s
    → let_through n ts s ≤ limit
unfolding let_through
run_lem [] limit n s seen (mode, count, tight, v, le, same) = omega (arith, le, v.counted)
run_lem (t ∷ ts) limit n s seen c =
    run_lem ts limit (tally t n s) (next t s) seen.1 (turn_lem t limit n s seen.0 c)

-- Once a limit was set, no run of attempts, failures and successes lets through more attempts than
-- the limit without a success among them, whichever reads and writes of the file fail in it. An
-- attempt that finds the switch off counts as let through; the condition is that looking up the
-- file's name does not fail when an attempt begins.
pub fail_lem :
    (k : Calls) (limit : ℕ) (s : Storage) {after : Storage} (ts : List Turn)
    → set_failwipe k limit s ≡ (ok tt, after)
    → All IsSeen ts
    → let_through 0 ts after ≤ limit
fail_lem k limit s {after} ts h seen =
    let (mode, tight, same, v) = set_lem k limit s h in
    run_lem ts limit 0 after seen (mode, 0, tight, v, omega arith, same)

-- the calls that a turn makes succeed
abbrev pub Works : Calls → Type 0
Works k = k.file_calls ≡ true

abbrev pub IsWorking : Turn → Type 0
IsWorking (begins r w) = Sees r × Works r × Works w
IsWorking (succeeds r w) = Works r × Works w
IsWorking (fails r) = Works r

-- the attempts since the last success
unfoldable pub tried : ℕ → List Turn → ℕ
tried n [] = n
tried n (begins r w ∷ ts) = tried (n + 1) ts
tried n (succeeds r w ∷ ts) = tried 0 ts
tried n (fails r ∷ ts) = tried n ts

counted :
    (limit n : ℕ)
    → IsSetting (record { limit = limit; count = 0 })
    → IsSetting (record { limit = limit; count = min n limit })
counted limit n v = record { least = v.least; most = v.most; counted = omega arith }

begin_working :
    (r w : Calls) (limit n mode : ℕ)
    → is_loose mode ≡ false
    → IsSetting (record { limit = limit; count = min n limit })
    → Sees r
    → Works r
    → Works w
    → begin_attempt r w (at_count mode limit (min n limit)) ≡ (
      if◌then◌else◌ {A = Attempt} (ltb n limit) allowed wipe_now,
      at_count mode limit (min (n + 1) limit),
    )
begin_working r w limit n mode tight v see wr ww =
    begin_lem r w mode limit (min n limit) see tight v ∙ elim (Bool-cases (ltb n limit)) [
      | inl e ↦
          rw (wr, ww, room n limit e, e)
            (ap {A = ℕ} (λ c. (allowed, at_count mode limit c)) (one_below n limit e))
      | inr e ↦
          rw (wr, full n limit e, e)
            (ap {A = ℕ} (λ c. (wipe_now, at_count mode limit c)) (none_below n limit e))
    ]
  where
    room : (a b : ℕ) → ltb a b ≡ true → leb b (min a b) ≡ false
    room a b e = ground (arith, e)

    full : (a b : ℕ) → ltb a b ≡ false → leb b (min a b) ≡ true
    full a b e = ground (arith, e)

    one_below : (a b : ℕ) → ltb a b ≡ true → min a b + 1 ≡ min (a + 1) b
    one_below a b e = ground (arith, e)

    none_below : (a b : ℕ) → ltb a b ≡ false → min a b ≡ min (a + 1) b
    none_below a b e = ground (arith, e)

working_lem :
    (ts : List Turn) (limit n mode : ℕ)
    → is_loose mode ≡ false
    → IsSetting (record { limit = limit; count = 0 })
    → All IsWorking ts
    → run ts (at_count mode limit (min n limit)) ≡ at_count mode limit (min (tried n ts) limit)
unfolding run next tried
working_lem [] limit n mode tight v h = refl
working_lem (begins r w ∷ ts) limit n mode tight v h =
    ap (λ a. run ts a.1)
      (begin_working r w limit n mode tight (counted limit n v) h.0.0 h.0.1 h.0.2)
    ∙ working_lem ts limit (n + 1) mode tight v h.1
working_lem (succeeds r w ∷ ts) limit n mode tight v h =
    ap (run ts) (
      succeeded_lem r w mode limit (min n limit) tight (counted limit n v)
      ∙ rw (h.0.0, h.0.1) (ap {A = ℕ} (at_count mode limit) (omega arith)))
    ∙ working_lem ts limit 0 mode tight v h.1
working_lem (fails r ∷ ts) limit n mode tight v h =
    ap (λ a. run ts a.1) (failed_lem r mode limit (min n limit) tight (counted limit n v))
    ∙ working_lem ts limit n mode tight v h.1

-- Once a limit was set, and as long as the calls of the file system succeed: with fewer attempts
-- since the last success than the limit, the next attempt is let through and a failure asks for
-- nothing; with as many as the limit or more, both ask for the wipe.
pub wipe_lem :
    (k r w : Calls) (limit : ℕ) (s : Storage) {after : Storage} (ts : List Turn)
    → set_failwipe k limit s ≡ (ok tt, after)
    → All IsWorking ts
    → Sees r
    → Works r
    → Works w
    → ((begin_attempt r w (run ts after)).0
        ≡ (if◌then◌else◌ {A = Attempt} (ltb (tried 0 ts) limit) allowed wipe_now))
      × ((attempt_failed r (run ts after)).0 ≡ leb limit (tried 0 ts))
wipe_lem k r w limit s {after} ts h work see wr ww =
    let (mode, tight, same, v) = set_lem k limit s h in
    let end : run ts after ≡ at_count mode limit (min (tried 0 ts) limit) =
      ap (run ts) (same ∙ ap {A = ℕ} (at_count mode limit) (omega arith))
      ∙ working_lem ts limit 0 mode tight v work in
    let n = tried 0 ts in
    (
      ap (λ a. (begin_attempt r w a).0) end
          ∙ ap (λ a. a.0) (begin_working r w limit n mode tight (counted limit n v) see wr ww),
      ap (λ a. (attempt_failed r a).0) end
          ∙ ap (λ a. a.0) (failed_lem r mode limit (min n limit) tight (counted limit n v))
          ∙ rw wr (reached n limit),
    )
  where
    reached : (a b : ℕ) → leb b (min a b) ≡ leb b a
    reached a b = ground arith
