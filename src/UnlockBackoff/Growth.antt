-- ===== src/UnlockBackoff/Growth.antt =====
-- unlock_backoff.rs: the growth of the wait with the failures.
use hash_chat.Prelude.{
  ℕ, zero, suc, ◌-◌, ◌*◌, ◌≤◌, ◌<◌, ◌≡◌, ◌⊎◌, refl, ap, ◌∙◌, min, ◌||◌, ltb, ◌==◌, arith,
  Bool-cases, inl, inr,
}
use native.Mathlib.Nat.{mul-le-mul}
use hash_chat.UnlockBackoff.{UnlockBackoffPolicy, shl_one, u64_max, unlock_backoff_delay_secs}

shl_one_mono : (m n : ℕ) → m ≤ n → shl_one m ≤ shl_one n
unfolding shl_one
shl_one_mono zero zero h = omega arith
shl_one_mono zero (suc n) h = omega (arith, shl_one_mono zero n (omega arith))
shl_one_mono (suc m) zero h = absurd (omega arith)
shl_one_mono (suc m) (suc n) h = omega (arith, shl_one_mono m n (omega arith))

-- the delay once the threshold is reached
grown : UnlockBackoffPolicy → ℕ → ℕ
grown p failures =
    min (min (p.initial_delay_secs * shl_one (min (failures - p.fail_threshold) 31)) u64_max)
      p.max_delay_secs

mul_left_mono : (a m n : ℕ) → m ≤ n → a * m ≤ a * n
mul_left_mono a m n h = mul-le-mul (omega arith) h

min_mono : (a b c d : ℕ) → a ≤ b → min (min a c) d ≤ min (min b c) d
min_mono a b c d h = omega arith

grown_mono : (p : UnlockBackoffPolicy) (m n : ℕ) → m ≤ n → grown p m ≤ grown p n
unfolding grown
grown_mono p m n h = min_mono _ _ u64_max p.max_delay_secs (
    mul_left_mono p.initial_delay_secs _ _
      (shl_one_mono (min (m - p.fail_threshold) 31) (min (n - p.fail_threshold) 31) (omega arith)))

delay_cases :
    (n : ℕ) (p : UnlockBackoffPolicy)
    → 0 < p.fail_threshold
    → ((n < p.fail_threshold) × (unlock_backoff_delay_secs n p ≡ 0))
      ⊎ ((p.fail_threshold ≤ n) × (unlock_backoff_delay_secs n p ≡ grown p n))
unfolding unlock_backoff_delay_secs grown
delay_cases n p pos = elim (Bool-cases (n == 0 || ltb n p.fail_threshold)) [
  | inl early ↦ inl (ground (arith, early), rw early refl)
  | inr late ↦ inr (ground (arith, late), rw late refl)
]

grown_le : (p : UnlockBackoffPolicy) (n : ℕ) → grown p n ≤ p.max_delay_secs
unfolding grown
grown_le p n = omega arith

one : shl_one 0 ≡ 1
unfolding shl_one
one = refl

grown_first :
    (p : UnlockBackoffPolicy)
    → grown p p.fail_threshold ≡ min (min p.initial_delay_secs u64_max) p.max_delay_secs
unfolding grown
grown_first p =
    let none : min (p.fail_threshold - p.fail_threshold) 31 ≡ 0 = omega arith in
    rw (none, one) (ap (λ t. min (min t u64_max) p.max_delay_secs) (unit p.initial_delay_secs))
  where
    unit : (a : ℕ) → a * 1 ≡ a
    unit a = omega arith

delay_le :
    (n : ℕ) (p : UnlockBackoffPolicy)
    → 0 < p.fail_threshold
    → unlock_backoff_delay_secs n p ≤ p.max_delay_secs
delay_le n p pos = elim (delay_cases n p pos) [
  | inl (few, e) ↦ omega (arith, e)
  | inr (many, e) ↦ omega (arith, e, grown_le p n)
]

delay_grows :
    (m n : ℕ) (p : UnlockBackoffPolicy)
    → 0 < p.fail_threshold
    → m ≤ n
    → unlock_backoff_delay_secs m p ≤ unlock_backoff_delay_secs n p
delay_grows m n p pos le = elim (delay_cases m p pos) [
  | inl (few, e) ↦ omega (arith, e)
  | inr (many, e) ↦ elim (delay_cases n p pos) [
    | inl (few, f) ↦ absurd (omega (arith, many, few, le))
    | inr (more, f) ↦ omega (arith, e, f, grown_mono p m n le)
  ]
]

delay_none :
    (n : ℕ) (p : UnlockBackoffPolicy)
    → 0 < p.fail_threshold
    → n < p.fail_threshold
    → unlock_backoff_delay_secs n p ≡ 0
delay_none n p pos few = elim (delay_cases n p pos) [
  | inl (h, e) ↦ e
  | inr (many, e) ↦ absurd (omega (arith, many, few))
]

delay_at :
    (p : UnlockBackoffPolicy)
    → 0 < p.fail_threshold
    → unlock_backoff_delay_secs p.fail_threshold p ≡ grown p p.fail_threshold
delay_at p pos = elim (delay_cases p.fail_threshold p pos) [
  | inl (few, e) ↦ absurd (omega (arith, few))
  | inr (many, e) ↦ e
]

-- For a policy with a positive threshold: more failures never shorten the wait; it is nothing
-- below the threshold, never above the cap, and at the threshold it is the initial delay, if that
-- is within the cap and 64 bits.
pub delay_mono :
    (m n : ℕ) (p : UnlockBackoffPolicy)
    → 0 < p.fail_threshold
    → m ≤ n
    → (failures : ℕ) → failures < p.fail_threshold
    → (unlock_backoff_delay_secs m p ≤ unlock_backoff_delay_secs n p)
      × (unlock_backoff_delay_secs n p ≤ p.max_delay_secs)
      × (unlock_backoff_delay_secs failures p ≡ 0)
      × (unlock_backoff_delay_secs p.fail_threshold p
          ≡ min (min p.initial_delay_secs u64_max) p.max_delay_secs)
delay_mono m n p pos le failures few = (
  delay_grows m n p pos le,
  delay_le n p pos,
  delay_none failures p pos few,
  delay_at p pos ∙ grown_first p,
)
