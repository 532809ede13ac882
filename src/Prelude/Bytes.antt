-- ===== src/Prelude/Bytes.antt =====
-- Byte strings as lists of numbers: big-endian integers, and reads at a position.
use Prim.Native.Nat.{ℕ, ◌+◌, ◌-◌, ◌*◌, ◌/◌, ◌%◌, ◌^◌, ◌≤◌, ◌<◌}
use mathlib.Core.Path.{◌≡◌, refl, ap, sym}
use mathlib.Core.Bool.{◌&&◌}
use mathlib.Core.List.{List, [], ◌∷◌, ◌++◌}
use mathlib.Core.Option.{Option, none, some}
use native.Mathlib.Omega.{arith}
use hash_chat.Prelude.Tests.{leb, ◌==◌, if◌then◌else◌}
use hash_chat.Prelude.Lists.{
  take-append-drop, All-take, All-drop, take_all, length-take, length, take, drop, get_elem?, All,
  length-append, length-drop, take-append, drop-append, drop-drop,
}
use hash_chat.Prelude.Outcome.{Result, ok, err, panic, ok_or, ◌>>=◌}

abbrev pub Bytes : Type 0
Bytes = List ℕ

abbrev pub IsBytes : Bytes → Type 0
IsBytes = All (λ b. b < 256)

-- `u16::to_be_bytes`, `u32::to_be_bytes`, `u64::to_be_bytes`
unfoldable pub be16 : ℕ → Bytes
be16 n = n / 256 % 256 ∷ n % 256 ∷ []

unfoldable pub be32 : ℕ → Bytes
be32 n = n / 16777216 % 256 ∷ n / 65536 % 256 ∷ n / 256 % 256 ∷ n % 256 ∷ []

unfoldable pub be64 : ℕ → Bytes
unfolding be32
be64 n = be32 (n / 4294967296 % 4294967296) ++ be32 (n % 4294967296)

from_be : ℕ → Bytes → ℕ
from_be acc [] = acc
from_be acc (b ∷ bs) = from_be (acc * 256 + b) bs

-- `from_be_bytes`, at every width
unfoldable pub from_be_bytes : Bytes → ℕ
unfolding from_be
from_be_bytes = from_be 0

pub from_be_bytes-be16 : (n : ℕ) → n < 2 ^ 16 → from_be_bytes (be16 n) ≡ n
unfolding from_be_bytes be16
from_be_bytes-be16 n h = omega arith

pub from_be_bytes-be32 : (n : ℕ) → n < 2 ^ 32 → from_be_bytes (be32 n) ≡ n
unfolding from_be_bytes be32
from_be_bytes-be32 n h = omega arith

pub from_be_bytes-be64 : (n : ℕ) → n < 2 ^ 64 → from_be_bytes (be64 n) ≡ n
unfolding from_be_bytes be64
from_be_bytes-be64 n h = omega arith

pub length-be16 : (n : ℕ) → length (be16 n) ≡ 2
unfolding be16
length-be16 n = refl

pub length-be32 : (n : ℕ) → length (be32 n) ≡ 4
unfolding be32
length-be32 n = refl

pub length-be64 : (n : ℕ) → length (be64 n) ≡ 8
unfolding be64
length-be64 n = refl

pub be16-from_be_bytes : (xs : Bytes) → length xs ≡ 2 → IsBytes xs → be16 (from_be_bytes xs) ≡ xs
unfolding from_be_bytes be16
be16-from_be_bytes (a ∷ b ∷ []) h k = ground arith
be16-from_be_bytes [] h k = absurd (omega arith)
be16-from_be_bytes (a ∷ []) h k = absurd (omega arith)
be16-from_be_bytes (a ∷ b ∷ c ∷ xs) h k = absurd (omega arith)

bytes_of_word :
    (a b c d : ℕ)
    → a < 256
    → b < 256
    → c < 256
    → d < 256
    → let n = ((a * 256 + b) * 256 + c) * 256 + d in
      (n / 16777216 % 256 ≡ a) × (n / 65536 % 256 ≡ b) × (n / 256 % 256 ≡ c) × (n % 256 ≡ d)
bytes_of_word a b c d ha hb hc hd = omega arith

pub be32-from_be_bytes : (xs : Bytes) → length xs ≡ 4 → IsBytes xs → be32 (from_be_bytes xs) ≡ xs
unfolding from_be_bytes be32
be32-from_be_bytes (a ∷ b ∷ c ∷ d ∷ []) h k = ground (arith, bytes_of_word a b c d)
be32-from_be_bytes [] h k = absurd (omega arith)
be32-from_be_bytes (a ∷ []) h k = absurd (omega arith)
be32-from_be_bytes (a ∷ b ∷ []) h k = absurd (omega arith)
be32-from_be_bytes (a ∷ b ∷ c ∷ []) h k = absurd (omega arith)
be32-from_be_bytes (a ∷ b ∷ c ∷ d ∷ e ∷ xs) h k = absurd (omega arith)

-- A word read from four bytes fits 32 bits.
pub from_be_bytes-lt : (xs : Bytes) → length xs ≡ 4 → IsBytes xs → from_be_bytes xs < 2 ^ 32
unfolding from_be_bytes
from_be_bytes-lt (a ∷ b ∷ c ∷ d ∷ []) h k = omega arith
from_be_bytes-lt [] h k = absurd (omega arith)
from_be_bytes-lt (a ∷ []) h k = absurd (omega arith)
from_be_bytes-lt (a ∷ b ∷ []) h k = absurd (omega arith)
from_be_bytes-lt (a ∷ b ∷ c ∷ []) h k = absurd (omega arith)
from_be_bytes-lt (a ∷ b ∷ c ∷ d ∷ e ∷ xs) h k = absurd (omega arith)

-- `bs.get(i..j)`
unfoldable pub get_range : Bytes → ℕ → ℕ → Option Bytes
get_range bs i j = if leb i j && leb j (length bs) then some (take (j - i) (drop i bs)) else none

-- `&bs[i..j]`, which panics out of range
unfoldable pub slice : {E : Type 0} → Bytes → ℕ → ℕ → Result E Bytes
slice bs i j = if leb i j && leb j (length bs) then ok (take (j - i) (drop i bs)) else panic

-- `bs[i]`, which panics out of range
unfoldable pub index : {E : Type 0} → Bytes → ℕ → Result E ℕ
index bs i = elim (get_elem? bs i) [ none ↦ panic | some b ↦ ok b ]

-- `bs.get(pos..pos + n).ok_or(e)?.try_into().map_err(|_| e)?`, at an array of `n` bytes
unfoldable pub get_array : {E : Type 0} → Bytes → ℕ → ℕ → E → Result E Bytes
unfolding get_range
get_array bs pos n e = do
  xs ← ok_or (get_range bs pos (pos + n)) e
  if length xs == n then ok xs else err e

-- `rest` stands at position `pos` of `bs`, up to the end.
pub record At (bs : Bytes) (pos : ℕ) (rest : Bytes) : Type 0 where
  pub within : pos ≤ length bs
  pub suffix : drop pos bs ≡ rest

pub At-start : (bs : Bytes) → At bs 0 bs
At-start bs = record { within = omega arith; suffix = refl }

module _ (bs : Bytes) {pos : ℕ} (n : ℕ) (mid post : Bytes) (at : At bs pos (mid ++ post))
    (size : length mid ≡ n) where
  At_room : pos + n ≤ length bs
  At_room =
      omega
        (arith, at.within, ap length at.suffix, length-drop pos bs, length-append mid post, size)

  At_take : take n (drop pos bs) ≡ mid
  At_take = rw (at.suffix, ← size) (take-append mid post)

  pub At-next : At bs (pos + n) post
  At-next = record {
    within = At_room;
    suffix = rw (← drop-drop, at.suffix, ← size) (drop-append mid post);
  }

  pub slice-At : {E : Type 0} → slice {E = E} bs pos (pos + n) ≡ ok mid
  unfolding slice
  slice-At = ground (arith, At_room, At_take)

  pub get_array-At : {E : Type 0} (e : E) → get_array bs pos n e ≡ ok mid
  unfolding get_array
  get_array-At e = ground (arith, At_room, At_take, size)

-- A read up to the end.
pub slice-At_end :
    {E : Type 0} (bs : Bytes) (pos : ℕ) (rest : Bytes)
    → At bs pos rest
    → slice {E = E} bs pos (length bs) ≡ ok rest
unfolding slice
slice-At_end bs pos rest at =
    ground
      (arith, at.within, at.suffix, length-drop pos bs, take_all (length bs - pos) (drop pos bs))

-- A slice that does not panic lies in range.
pub slice-eq-ok :
    {E : Type 0} (bs : Bytes) (i n : ℕ) {xs : Bytes}
    → slice {E = E} bs i (i + n) ≡ ok xs
    → (i + n ≤ length bs) × (xs ≡ take n (drop i bs)) × (length xs ≡ n)
unfolding slice
slice-eq-ok bs i n h = ground (arith, length-take n (drop i bs), length-drop i bs, plus_minus i n)
  where
    plus_minus : (a b : ℕ) → a + b - a ≡ b
    plus_minus a b = omega arith

pub slice-ne-panic :
    {E : Type 0} (bs : Bytes) (i n : ℕ)
    → i + n ≤ length bs
    → slice {E = E} bs i (i + n) ≡ ok (take n (drop i bs))
unfolding slice
slice-ne-panic bs i n h = ground (arith, plus_minus i n)
  where
    plus_minus : (a b : ℕ) → a + b - a ≡ b
    plus_minus a b = omega arith

-- What a slice leaves of the text from its start.
pub slice-rejoin :
    {E : Type 0} (bs : Bytes) (i n : ℕ) {xs : Bytes}
    → slice {E = E} bs i (i + n) ≡ ok xs
    → drop i bs ≡ xs ++ drop (i + n) bs
slice-rejoin bs i n h =
    let (fits, taken, size) = slice-eq-ok bs i n h in
    rw (taken, ← drop-drop) (sym (take-append-drop n (drop i bs)))

pub slice-IsBytes :
    {E : Type 0} (bs : Bytes) (i n : ℕ) {xs : Bytes}
    → IsBytes bs
    → slice {E = E} bs i (i + n) ≡ ok xs
    → IsBytes xs
slice-IsBytes bs i n b h =
    let (fits, taken, size) = slice-eq-ok bs i n h in
    rw taken (All-take _ n (drop i bs) (All-drop _ i bs b))

pub slice_end-eq-ok :
    {E : Type 0} (bs : Bytes) (i : ℕ) {xs : Bytes}
    → slice {E = E} bs i (length bs) ≡ ok xs
    → drop i bs ≡ xs
unfolding slice
slice_end-eq-ok bs i h = ground (arith, length-drop i bs, take_all (length bs - i) (drop i bs))

pub slice_end-ne-panic :
    {E : Type 0} (bs : Bytes) (i : ℕ)
    → i ≤ length bs
    → slice {E = E} bs i (length bs) ≡ ok (take (length bs - i) (drop i bs))
unfolding slice
slice_end-ne-panic bs i h = ground arith

-- Two bytes at the front shift every position by two.
pub drop_two : (n a b : ℕ) (xs : Bytes) → drop (2 + n) (a ∷ b ∷ xs) ≡ drop n xs
drop_two n a b xs = sym (drop-drop 2 n (a ∷ b ∷ xs))
