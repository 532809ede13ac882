-- ===== src/ClockCheck.antt =====
-- src/rust/clock_check.rs: the stored clock mark, and the warning for a clock that was set back.
pub mod Mark
use hash_chat.Prelude.{
  ℕ, ◌+◌, ◌-◌, ◌%◌, max, Bool, true, false, Option, none, some, ltb, if◌then◌else◌,
}

abbrev pub clock_mark_step_secs : ℕ
clock_mark_step_secs = 600

abbrev pub clock_rollback_tolerance_secs : ℕ
clock_rollback_tolerance_secs = 3600

unfoldable pub advance_clock_mark : ℕ → ℕ → ℕ
advance_clock_mark previous now_unix =
    let rounded = now_unix - now_unix % clock_mark_step_secs in max previous rounded

unfoldable pub clock_rollback_secs : ℕ → ℕ → Option ℕ
clock_rollback_secs mark now_unix =
    let behind = mark - now_unix in
    if ltb clock_rollback_tolerance_secs behind then some behind else none
