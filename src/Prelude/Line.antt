-- ===== src/Prelude/Line.antt =====
-- `format!("{magic} {a} {b}\n")`, and the fields that it is read as.
use Prim.Native.Nat.{ℕ, suc, ◌+◌}
use mathlib.Core.Path.{◌≡◌, refl, sym, ap, ◌∙◌}
use mathlib.Core.Bool.{false}
use mathlib.Core.Option.{some}
use mathlib.Core.List.{[], ◌∷◌, ◌++◌, append_assoc}
use native.Mathlib.Omega.{arith}
use hash_chat.Prelude.Lists.{All, All-append, length, length-append}
use hash_chat.Prelude.Utf8.{
  Text, IsChar, IsText, as_bytes, encode_char, from_utf8, from_utf8-as_bytes, is_blank, trim_end,
}
use hash_chat.Prelude.Plain.{IsPlain}
use hash_chat.Prelude.Decimal.{decimal, is_blank-decimal}
use hash_chat.Prelude.Fields.{
  split_space, split_space-last, split_space-field, trim_end-line, trim_end-after, decimal-IsPlain,
  plain-IsText,
}

abbrev pub line : Text → ℕ → ℕ → Text
line magic a b = magic ++ 32 ∷ (decimal a ++ 32 ∷ (decimal b ++ 10 ∷ []))

-- a field and a space in front of what is left after trimming
trim_field :
    (s rest : Text) {end : Text}
    → trim_end rest ≡ end
    → is_blank end ≡ false
    → trim_end (s ++ 32 ∷ rest) ≡ s ++ 32 ∷ end
trim_field s rest e full =
    let spaced = trim_end-after (32 ∷ []) rest (ap is_blank e ∙ full) in
    trim_end-after s (32 ∷ rest) (ap is_blank spaced)
    ∙ ap (λ r. s ++ r) spaced
    ∙ ap (λ r. s ++ 32 ∷ r) e

blank_field : (s rest : Text) → is_blank (s ++ 32 ∷ rest) ≡ false
blank_field [] rest = refl
blank_field (ch ∷ s) rest = refl

length_bytes : (s : Text) → All IsPlain s → length (as_bytes s) ≡ length s
unfolding as_bytes encode_char
length_bytes [] k = refl
length_bytes (ch ∷ s) k = ground (arith, length_bytes s k.1, k.0)

as_bytes-append : (s t : Text) → as_bytes (s ++ t) ≡ as_bytes s ++ as_bytes t
unfolding as_bytes
as_bytes-append [] t = refl
as_bytes-append (ch ∷ s) t =
    ap (λ r. encode_char ch ++ r) (as_bytes-append s t)
    ∙ sym (append_assoc (encode_char ch) (as_bytes s) (as_bytes t))

length_field :
    (s rest : Text)
    → All IsPlain s
    → length (as_bytes (s ++ rest)) ≡ length s + length (as_bytes rest)
length_field s rest k =
    ap length (as_bytes-append s rest)
    ∙ length-append (as_bytes s) (as_bytes rest)
    ∙ ap (λ n. n + length (as_bytes rest)) (length_bytes s k)

module _ (magic : Text) (h : All IsPlain magic) (a b : ℕ) where
  line-IsText : IsText (line magic a b)
  line-IsText = All-append IsChar magic _ (plain-IsText magic h) (
    ground arith,
    All-append IsChar (decimal a) _ (plain-IsText (decimal a) (decimal-IsPlain a)) (
      ground arith,
      All-append IsChar (decimal b) _ (plain-IsText (decimal b) (decimal-IsPlain b))
          (ground arith, tt),
    ),
  )

  pub from_utf8-line : from_utf8 (as_bytes (line magic a b)) ≡ some (line magic a b)
  from_utf8-line = from_utf8-as_bytes (line magic a b) line-IsText

  trim_line : trim_end (line magic a b) ≡ magic ++ 32 ∷ (decimal a ++ 32 ∷ decimal b)
  trim_line =
      trim_field magic (decimal a ++ 32 ∷ (decimal b ++ 10 ∷ []))
        (trim_field (decimal a) (decimal b ++ 10 ∷ [])
          (trim_end-line (decimal b) (decimal-IsPlain b) (is_blank-decimal b)) (is_blank-decimal b))
        (blank_field (decimal a) (decimal b))

  pub split-line : split_space (trim_end (line magic a b)) ≡ magic ∷ decimal a ∷ decimal b ∷ []
  split-line =
      ap split_space trim_line
      ∙ split_space-field magic (decimal a ++ 32 ∷ decimal b) h
      ∙ ap (λ parts. magic ∷ parts)
          (split_space-field (decimal a) (decimal b) (decimal-IsPlain a)
            ∙ ap (λ parts. decimal a ∷ parts) (split_space-last (decimal b) (decimal-IsPlain b)))

  -- the bytes of a line
  pub length-line :
      length (as_bytes (line magic a b))
      ≡ length magic + (length (decimal a) + (length (decimal b) + 3))
  unfolding as_bytes encode_char
  length-line =
      length_field magic _ h
      ∙ ap (λ n. length magic + suc n)
          (length_field (decimal a) _ (decimal-IsPlain a)
            ∙ ap (λ n. length (decimal a) + suc n)
                (length_field (decimal b) (10 ∷ []) (decimal-IsPlain b)))
      ∙ omega arith
