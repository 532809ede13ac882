-- ===== src/Padding.antt =====
-- src/rust/padding.rs: fixed size classes for message plaintext.
pub mod Layout
pub mod RoundTrip
use hash_chat.Prelude.{
  ℕ, ◌+◌, ◌*◌, ◌%◌, ◌^◌, String, Bool, true, false, not, ◌||◌, Option, none, some, List, [], ◌∷◌,
  ◌++◌, leb, ◌==◌, if◌then◌else◌, length, take, drop, replicate, Result, ok, err, panic, ok_or,
  refuse_if, ◌>>=◌, ◌>>◌,
}
use hash_chat.Prelude.Bytes.{Bytes, be16, from_be_bytes, slice, index}

abbrev pub size_classes : List ℕ
size_classes = 512 ∷ 1024 ∷ 2048 ∷ 4096 ∷ 8448 ∷ []

abbrev pub len_prefix : ℕ
len_prefix = 2

find : (ℕ → Bool) → List ℕ → Option ℕ
find p [] = none
find p (c ∷ cs) = if p c then some c else find p cs

unfoldable pub contains : List ℕ → ℕ → Bool
contains [] n = false
contains (c ∷ cs) n = n == c || contains cs n

-- `.any(|&b| b != 0)`
unfoldable pub any_nonzero : Bytes → Bool
any_nonzero [] = false
any_nonzero (b ∷ bs) = not (b == 0) || any_nonzero bs

unfoldable pub class_for : ℕ → Option ℕ
unfolding find
class_for data_len = find (λ c. leb (data_len + len_prefix) c) size_classes

-- `out[pos..pos + data.len()].copy_from_slice(data)`
unfoldable pub copy_at : Bytes → ℕ → Bytes → Result String Bytes
copy_at out pos data_ =
    if leb (pos + length data_) (length out)
    then ok (take pos out ++ (data_ ++ drop (pos + length data_) out))
    else panic

unfoldable pub pad : Bytes → Result String Bytes
pad plain = do
  class ← ok_or (class_for (length plain)) "message too long to pad"
  let blank = replicate class 0
  prefixed ← copy_at blank 0 (be16 (length plain % 2 ^ 16))
  copy_at prefixed len_prefix plain

-- `class_for(len) != Some(padded.len())`
is_class : Option ℕ → ℕ → Bool
is_class none n = false
is_class (some c) n = c == n

unfoldable pub unpad : Bytes → Result String Bytes
unfolding is_class
unpad padded = do
  refuse_if (not (contains size_classes (length padded))) "bad padded size"
  hi ← index padded 0
  lo ← index padded 1
  let len = from_be_bytes (hi ∷ lo ∷ [])
  refuse_if (not (leb (len_prefix + len) (length padded))) "bad padded length"
  refuse_if (not (is_class (class_for len) (length padded))) "oversized padding class"
  tail ← slice padded (len_prefix + len) (length padded)
  refuse_if (any_nonzero tail) "nonzero padding"
  slice padded len_prefix (len_prefix + len)
