-- ===== src/ClockCheck/Mark.antt =====
-- clock_check.rs: the mark over a sequence of saves.
use hash_chat.Prelude.{
  ℕ, zero, suc, ◌+◌, ◌≤◌, ◌<◌, ◌≡◌, ◌↔◌, none, some, List, [], ◌∷◌, get_elem?, arith,
}
use hash_chat.ClockCheck.{
  advance_clock_mark, clock_rollback_secs, clock_mark_step_secs, clock_rollback_tolerance_secs,
}

-- the mark after saves at these times
unfoldable pub mark_after : ℕ → List ℕ → ℕ
mark_after mark [] = mark
mark_after mark (now ∷ times) = mark_after (advance_clock_mark mark now) times

advance_le :
    (mark now : ℕ)
    → (mark ≤ advance_clock_mark mark now) × (now < advance_clock_mark mark now + 600)
unfolding advance_clock_mark
advance_le mark now = (omega arith, omega arith)

mark_grows : (mark : ℕ) (times : List ℕ) → mark ≤ mark_after mark times
unfolding mark_after
mark_grows mark [] = omega arith
mark_grows mark (now ∷ times) =
    let (grows, near) = advance_le mark now in
    omega (arith, grows, mark_grows (advance_clock_mark mark now) times)

mark_near :
    (mark : ℕ) (times : List ℕ) (i : ℕ) {t : ℕ}
    → get_elem? times i ≡ some t
    → t < mark_after mark times + 600
unfolding mark_after
mark_near mark [] i h = cc
mark_near mark (now ∷ times) zero {t} h =
    let (grows, near) = advance_le mark now in
    let same : now ≡ t = cc in
    omega (arith, near, same, mark_grows (advance_clock_mark mark now) times)
mark_near mark (now ∷ times) (suc i) h = mark_near (advance_clock_mark mark now) times i h

warns_iff :
    (mark now : ℕ)
    → (clock_rollback_secs mark now ≡ none) ↔ (mark ≤ now + clock_rollback_tolerance_secs)
unfolding clock_rollback_secs
warns_iff mark now = ground arith

-- After any saves the mark is at least what it was and less than ten minutes behind each time that
-- was saved, and the clock is let pass without a warning just when it is at most an hour behind it.
pub mark_lem :
    (mark : ℕ) (times : List ℕ) (i : ℕ) {t : ℕ}
    → get_elem? times i ≡ some t
    → (now : ℕ)
    → (mark ≤ mark_after mark times)
      × (t < mark_after mark times + clock_mark_step_secs)
      × ((clock_rollback_secs (mark_after mark times) now ≡ none)
          ↔ (mark_after mark times ≤ now + clock_rollback_tolerance_secs))
mark_lem mark times i h now =
    (mark_grows mark times, mark_near mark times i h, warns_iff (mark_after mark times) now)
