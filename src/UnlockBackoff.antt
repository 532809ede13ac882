-- ===== src/UnlockBackoff.antt =====
-- src/rust/unlock_backoff.rs: the wait after wrong passphrases.
pub mod Growth
use hash_chat.Prelude.{
  ℕ, zero, suc, ◌+◌, ◌-◌, ◌*◌, ◌^◌, min, Bool, true, false, ◌||◌, ltb, ◌==◌, if◌then◌else◌,
}

pub record UnlockBackoffPolicy : Type 0 where
  pub fail_threshold : ℕ
  pub initial_delay_secs : ℕ
  pub max_delay_secs : ℕ

abbrev pub standard : UnlockBackoffPolicy
standard = record { fail_threshold = 5; initial_delay_secs = 2; max_delay_secs = 60 }

abbrev pub extreme : UnlockBackoffPolicy
extreme = record { fail_threshold = 3; initial_delay_secs = 2; max_delay_secs = 120 }

abbrev pub for_extreme : Bool → UnlockBackoffPolicy
for_extreme is_extreme = if is_extreme then extreme else standard

-- `1u64 << n`
unfoldable pub shl_one : ℕ → ℕ
shl_one zero = 1
shl_one (suc n) = 2 * shl_one n

abbrev pub u64_max : ℕ
u64_max = 2 ^ 64 - 1

unfoldable pub unlock_backoff_delay_secs : ℕ → UnlockBackoffPolicy → ℕ
unlock_backoff_delay_secs failures policy =
    let shift = min (failures - policy.fail_threshold) 31 in
    let delay = min (policy.initial_delay_secs * shl_one shift) u64_max in
    if failures == 0 || ltb failures policy.fail_threshold
    then 0
    else min delay policy.max_delay_secs
