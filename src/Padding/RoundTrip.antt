-- ===== src/Padding/RoundTrip.antt =====
-- padding.rs: `pad` and `unpad` against each other.
use hash_chat.Prelude.{
  ℕ, zero, suc, ◌+◌, ◌-◌, ◌/◌, ◌%◌, ◌≤◌, ◌<◌, ◌≡◌, ◌≢◌, refl, ap, ap₂, sym, take-append-drop,
  length-take, ◌∙◌, inl, inr, none, some, [], ◌∷◌, ◌++◌, arith, String, length, take, drop,
  length-append, take_all, length-drop, ok, err, panic, false, Option-cases,
}
use hash_chat.Prelude.Bytes.{
  drop_two, Bytes, IsBytes, be16, length-be16, slice, index, At, At-start, At-next, slice-At,
  slice-At_end, from_be_bytes, from_be_bytes-be16, be16-from_be_bytes,
}
use hash_chat.Padding.{class_for, pad, unpad, any_nonzero, contains}
use hash_chat.Padding.Layout.{blank, length-blank, pad_layout, class_for_fits}

any_nonzero-blank : (n : ℕ) → any_nonzero (blank n) ≡ false
unfolding any_nonzero blank
any_nonzero-blank zero = refl
any_nonzero-blank (suc n) = any_nonzero-blank n

module _ (plain : Bytes) (c : ℕ) (h : class_for (length plain) ≡ some c) where
  abbrev n : ℕ
  n = length plain

  abbrev zeros : Bytes
  zeros = blank (c - (length plain + 2))

  abbrev layout : Bytes
  layout = be16 n ++ (plain ++ zeros)

  length-layout : length layout ≡ c
  length-layout = omega (
    arith,
    class_for_fits n c h,
    length-append (be16 n) (plain ++ zeros),
    length-append plain zeros,
    length-be16 n,
    length-blank (c - (length plain + 2)),
  )

  At-plain : At layout 2 (plain ++ zeros)
  At-plain = At-next layout 2 (be16 n) (plain ++ zeros) (At-start layout) (length-be16 n)

  At-zeros : At layout (2 + n) zeros
  At-zeros = At-next layout n plain zeros At-plain refl

  slice-plain : slice {E = String} layout 2 (2 + n) ≡ ok plain
  slice-plain = slice-At layout n plain zeros At-plain refl

  slice-zeros : slice {E = String} layout (2 + n) (length layout) ≡ ok zeros
  slice-zeros = slice-At_end layout (2 + n) zeros At-zeros

  index_hi : index {E = String} layout 0 ≡ ok (n / 256 % 256)
  unfolding index be16
  index_hi = refl

  index_lo : index {E = String} layout 1 ≡ ok (n % 256)
  unfolding index be16
  index_lo = refl

  length_field : from_be_bytes (n / 256 % 256 ∷ n % 256 ∷ []) ≡ n
  unfolding be16
  length_field = from_be_bytes-be16 n (omega (arith, class_for_fits n c h))

  unpad-layout : unpad layout ≡ ok plain
  unfolding unpad
  unpad-layout = ground (
    arith,
    length-layout,
    class_for_fits n c h,
    index_hi,
    index_lo,
    length_field,
    slice-zeros,
    any_nonzero-blank (c - (length plain + 2)),
    slice-plain,
  )

pad_refused :
    (plain : Bytes) → class_for (length plain) ≡ none → pad plain ≡ err "message too long to pad"
unfolding pad
pad_refused plain e = rw e

-- Padding and then unpadding gives the message back, whenever `pad` accepts it.
pub unpad-pad : (plain : Bytes) {out : Bytes} → pad plain ≡ ok out → unpad out ≡ ok plain
unpad-pad plain {out} h = elim (Option-cases (class_for (length plain))) [
  | inl e ↦ cc (pad_refused plain e)
  | inr (c, e) ↦ cc (pad_layout plain c e, unpad-layout plain c e)
]

eq_blank : (xs : Bytes) → any_nonzero xs ≡ false → xs ≡ blank (length xs)
unfolding any_nonzero blank
eq_blank [] h = refl
eq_blank (x ∷ xs) h = ground (arith, eq_blank xs)

unpad_inversion :
    (hi lo : ℕ) (rest : Bytes) {plain : Bytes}
    → unpad (hi ∷ lo ∷ rest) ≡ ok plain
    → let len = from_be_bytes (hi ∷ lo ∷ []) in
      (class_for len ≡ some (length rest + 2))
      × (any_nonzero (drop len rest) ≡ false)
      × (plain ≡ take len rest)
      × (len ≤ length rest)
unfolding unpad slice index
unpad_inversion hi lo rest h =
    let len = from_be_bytes (hi ∷ lo ∷ []) in
    ground (
      arith,
      drop_two len hi lo rest,
      length-drop len rest,
      take_all (length rest - len) (drop len rest),
      plus_minus len,
    )
  where
    plus_minus : (n : ℕ) → 2 + n - 2 ≡ n
    plus_minus n = omega arith

-- the layout of a padded text that `unpad` accepted
accepted_layout :
    (hi lo : ℕ) (rest plain : Bytes)
    → hi < 256
    → lo < 256
    → unpad (hi ∷ lo ∷ rest) ≡ ok plain
    → pad plain ≡ ok (hi ∷ lo ∷ rest)
accepted_layout hi lo rest plain ha hb h =
    let len = from_be_bytes (hi ∷ lo ∷ []) in
    let (class, zero_tail, data_, fits) = unpad_inversion hi lo rest h in
    let size : length plain ≡ len = ap length data_ ∙ length-take len rest ∙ omega arith in
    let tail : drop len rest ≡ blank (length rest + 2 - (length plain + 2)) =
      eq_blank (drop len rest) zero_tail ∙ ap blank (omega (arith, length-drop len rest)) in
    let body : plain ++ blank (length rest + 2 - (length plain + 2)) ≡ rest =
      ap₂ (λ a b. a ++ b) data_ (sym tail) ∙ take-append-drop len rest in
    let head : be16 (length plain) ≡ hi ∷ lo ∷ [] =
      ap be16 size ∙ be16-from_be_bytes (hi ∷ lo ∷ []) refl (ha, (hb, tt)) in
    pad_layout plain (length rest + 2) (ap class_for size ∙ class)
    ∙ ap ok (ap₂ (λ a b. a ++ b) head body)

unpad_short : (padded : Bytes) {plain : Bytes} → length padded < 2 → unpad padded ≢ ok plain
unfolding unpad contains
unpad_short padded lt = ground arith

-- Every padded text of bytes that `unpad` accepts is the one that `pad` writes for the data it
-- returns.
pub pad-unpad :
    (padded : Bytes) {plain : Bytes}
    → IsBytes padded
    → unpad padded ≡ ok plain
    → pad plain ≡ ok padded
pad-unpad [] b h = absurd (unpad_short [] (omega arith) h)
pad-unpad (hi ∷ []) b h = absurd (unpad_short (hi ∷ []) (omega arith) h)
pad-unpad (hi ∷ lo ∷ rest) {plain} b h = accepted_layout hi lo rest plain b.0 b.1.0 h

unpad_bytes-ne-panic : (hi lo : ℕ) (rest : Bytes) → unpad (hi ∷ lo ∷ rest) ≢ panic
unfolding unpad slice index
unpad_bytes-ne-panic hi lo rest = ground arith

-- Whatever the input, `unpad` returns or reports an error: no slice or index is out of range.
pub unpad-ne-panic : (padded : Bytes) → unpad padded ≢ panic
unfolding unpad contains
unpad-ne-panic [] = ground arith
unpad-ne-panic (hi ∷ []) = ground arith
unpad-ne-panic (hi ∷ lo ∷ rest) = unpad_bytes-ne-panic hi lo rest
