-- ===== src/Prelude/Fields.antt =====
-- Lines of fields with spaces between them: `split(' ')`, `parse` of an unsigned integer, and
-- `trim_end` of the newline.
use Prim.Native.Nat.{ℕ, ◌^◌, ◌<◌}
use mathlib.Core.Path.{◌≡◌, refl, ◌∙◌}
use mathlib.Core.Bool.{Bool, true, false, not, ◌&&◌, ◌||◌}
use mathlib.Core.Option.{Option, none, some}
use mathlib.Core.List.{List, [], ◌∷◌, ◌++◌}
use native.Mathlib.Omega.{arith}
use hash_chat.Prelude.Tests.{ltb, leb, ◌==◌, if◌then◌else◌}
use hash_chat.Prelude.Lists.{All}
use hash_chat.Prelude.Plain.{IsPlain}
use hash_chat.Prelude.Utf8.{Text, IsText, is_blank, is_whitespace, trim_end}
use hash_chat.Prelude.Decimal.{
  decimal, value_of, value_of-decimal, IsDigit, decimal-IsDigit, is_blank-decimal,
}

-- the `?` operator on an `Option`
infixl 5 ◌&?◌
abbrev pub ◌&?◌ {ℓ κ} : {A : Type ℓ} {B : Type κ} → Option A → (A → Option B) → Option B
none &? rest = none
some a &? rest = rest a

abbrev pub cons_first : ℕ → List Text → List Text
cons_first ch [] = (ch ∷ []) ∷ []
cons_first ch (part ∷ parts) = (ch ∷ part) ∷ parts

-- `s.split(' ')`
unfoldable pub split_space : Text → List Text
split_space [] = [] ∷ []
split_space (ch ∷ s) =
    let rest = split_space s in if ch == 32 then [] ∷ rest else cons_first ch rest

unfoldable pub only_digits : Text → Bool
only_digits [] = true
only_digits (ch ∷ s) = leb 48 ch && leb ch 57 && only_digits s

-- the digits of an unsigned integer of `w` bits
unfoldable pub parse_digits : ℕ → Text → Option ℕ
unfolding only_digits value_of
parse_digits w s =
    if is_blank s || not (only_digits s) || not (ltb (value_of s) (2 ^ w))
    then none
    else some (value_of s)

-- `s.parse::<uw>()`, which lets a plus sign stand in front
unfoldable pub parse_unsigned : ℕ → Text → Option ℕ
unfolding parse_digits
parse_unsigned w [] = none
parse_unsigned w (ch ∷ s) = if ch == 43 then parse_digits w s else parse_digits w (ch ∷ s)

only_digits_lem : (s : Text) → All IsDigit s → only_digits s ≡ true
unfolding only_digits
only_digits_lem [] h = refl
only_digits_lem (ch ∷ s) h = ground (arith, only_digits_lem s h.1, h.0)

parse_digits-decimal : (w n : ℕ) → n < 2 ^ w → parse_digits w (decimal n) ≡ some n
unfolding parse_digits
parse_digits-decimal w n h =
    rw
      (
        is_blank-decimal n,
        only_digits_lem (decimal n) (decimal-IsDigit n),
        value_of-decimal n,
        fits n (2 ^ w) h,
      )
      refl
  where
    fits : (a b : ℕ) → a < b → ltb a b ≡ true
    fits a b k = ground arith

no_plus :
    (w : ℕ) (s : Text) → All IsDigit s → is_blank s ≡ false → parse_unsigned w s ≡ parse_digits w s
unfolding parse_unsigned
no_plus w [] h e = cc
no_plus w (ch ∷ s) h e = rw (digit ch h.0) refl
  where
    digit : (d : ℕ) → IsDigit d → (d == 43) ≡ false
    digit d k = ground (arith, k)

pub parse-decimal : (w n : ℕ) → n < 2 ^ w → parse_unsigned w (decimal n) ≡ some n
parse-decimal w n h =
    no_plus w (decimal n) (decimal-IsDigit n) (is_blank-decimal n) ∙ parse_digits-decimal w n h

pub split_space-last : (s : Text) → All IsPlain s → split_space s ≡ s ∷ []
unfolding split_space
split_space-last [] h = refl
split_space-last (ch ∷ s) h = ground (arith, split_space-last s h.1, h.0)

pub split_space-field :
    (s rest : Text) → All IsPlain s → split_space (s ++ 32 ∷ rest) ≡ s ∷ split_space rest
unfolding split_space
split_space-field [] rest h = refl
split_space-field (ch ∷ s) rest h = ground (arith, split_space-field s rest h.1, h.0)

-- a text that ends in a newline, after a last field
pub trim_end-line : (s : Text) → All IsPlain s → is_blank s ≡ false → trim_end (s ++ 10 ∷ []) ≡ s
unfolding trim_end is_whitespace
trim_end-line [] h e = cc
trim_end-line (ch ∷ []) h e = ground (arith, h.0)
trim_end-line (ch ∷ d ∷ s) h e = rw (trim_end-line (d ∷ s) h.1 refl) (ground (arith, h.0))

pub trim_end-after :
    (s rest : Text) → is_blank (trim_end rest) ≡ false → trim_end (s ++ rest) ≡ s ++ trim_end rest
unfolding trim_end
trim_end-after [] rest h = refl
trim_end-after (ch ∷ s) rest h =
    rw (trim_end-after s rest h) (kept (is_whitespace ch) s (trim_end rest) h)
  where
    kept :
        (b : Bool) (a end : Text)
        → is_blank end ≡ false
        → (if◌then◌else◌ {A = Text} (b && is_blank (a ++ end)) [] (ch ∷ (a ++ end)))
          ≡ ch ∷ (a ++ end)
    kept true [] end k = rw k refl
    kept true (x ∷ a) end k = refl
    kept false a end k = refl

pub decimal-IsPlain : (n : ℕ) → All IsPlain (decimal n)
decimal-IsPlain n = plain (decimal n) (decimal-IsDigit n)
  where
    plain : (s : Text) → All IsDigit s → All IsPlain s
    plain [] h = tt
    plain (d ∷ s) h = (omega (arith, h.0), plain s h.1)

pub plain-IsText : (s : Text) → All IsPlain s → IsText s
plain-IsText [] h = tt
plain-IsText (ch ∷ s) h = (ground (arith, h.0), plain-IsText s h.1)
