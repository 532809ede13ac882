-- ===== src/Prelude/Decimal.antt =====
-- A number in decimal, `format!("{n}")`, and its value.
use Prim.Native.Nat.{ℕ, zero, suc, ◌+◌, ◌-◌, ◌*◌, ◌/◌, ◌%◌, ◌^◌, ◌≤◌, ◌<◌}
use mathlib.Core.Path.{◌≡◌, refl}
use mathlib.Core.Bool.{true, false}
use mathlib.Core.Logic.{inl, inr}
use mathlib.Core.List.{[], ◌∷◌}
use native.Mathlib.Omega.{arith}
use hash_chat.Prelude.Tests.{ltb, if◌then◌else◌, Bool-cases}
use hash_chat.Prelude.Utf8.{Text, is_blank}
use hash_chat.Prelude.Lists.{All, length}

-- with the digits that come after
digits : ℕ → ℕ → Text → Text
digits zero n after = after
digits (suc fuel) n after =
    let more = digits fuel (n / 10) ((48 + n % 10) ∷ after) in
    if ltb n 10 then (48 + n) ∷ after else more

-- a number has fewer digits than its successor is large
unfoldable pub decimal : ℕ → Text
unfolding digits
decimal n = digits (suc n) n []

value : ℕ → Text → ℕ
value acc [] = acc
value acc (d ∷ ds) = value (acc * 10 + (d - 48)) ds

unfoldable pub value_of : Text → ℕ
unfolding value
value_of ds = value 0 ds

value-digits :
    (fuel n : ℕ) (after : Text) → n < fuel → value 0 (digits fuel n after) ≡ value n after
unfolding value digits
value-digits zero n after h = absurd (omega arith)
value-digits (suc fuel) n after h =
    ground (arith, value-digits fuel (n / 10) ((48 + n % 10) ∷ after))

pub value_of-decimal : (n : ℕ) → value_of (decimal n) ≡ n
unfolding value_of decimal value
value_of-decimal n = value-digits (suc n) n [] (omega arith)

abbrev pub IsDigit : ℕ → Type 0
IsDigit d = (48 ≤ d) × (d ≤ 57)

digits-IsDigit :
    (fuel n : ℕ) (after : Text) → n < fuel → All IsDigit after → All IsDigit (digits fuel n after)
unfolding digits
digits-IsDigit zero n after h a = absurd (omega arith)
digits-IsDigit (suc fuel) n after h a = elim (Bool-cases (ltb n 10)) [
  | inl e ↦ rw e (small n e, a)
  | inr e ↦ rw e (
      digits-IsDigit fuel (n / 10) ((48 + n % 10) ∷ after) (omega (arith, large n e))
        (omega arith, a))
]
  where
    small : (m : ℕ) → ltb m 10 ≡ true → IsDigit (48 + m)
    small m e = ground (arith, e)

    large : (m : ℕ) → ltb m 10 ≡ false → 10 ≤ m
    large m e = ground (arith, e)

pub decimal-IsDigit : (n : ℕ) → All IsDigit (decimal n)
unfolding decimal
decimal-IsDigit n = digits-IsDigit (suc n) n [] (omega arith) tt

digits_longer : (fuel n ch : ℕ) (after : Text) → is_blank (digits fuel n (ch ∷ after)) ≡ false
unfolding digits
digits_longer zero n ch after = refl
digits_longer (suc fuel) n ch after =
    ground (arith, digits_longer fuel (n / 10) (48 + n % 10) (ch ∷ after))

pub is_blank-decimal : (n : ℕ) → is_blank (decimal n) ≡ false
unfolding decimal digits
is_blank-decimal n = ground (arith, digits_longer n (n / 10) (48 + n % 10) [])

length-digits :
    (k fuel n : ℕ) (after : Text)
    → n < 10 ^ suc k
    → length (digits fuel n after) ≤ suc k + length after
unfolding digits
length-digits k zero n after h = omega arith
length-digits zero (suc fuel) n after h = ground (arith, h)
length-digits (suc k) (suc fuel) n after h =
    ground (arith, length-digits k fuel (n / 10) ((48 + n % 10) ∷ after), h)

-- a number below a power of ten has no more digits than the power has zeros
pub length-decimal : (k n : ℕ) → n < 10 ^ suc k → length (decimal n) ≤ suc k
unfolding decimal
length-decimal k n h = omega (arith, length-digits k (suc n) n [] h)
