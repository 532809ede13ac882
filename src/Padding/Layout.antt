-- ===== src/Padding/Layout.antt =====
-- padding.rs: the size classes, and the layout that `pad` writes.
use hash_chat.Prelude.{
  ℕ, zero, suc, ◌+◌, ◌-◌, ◌≤◌, ◌<◌, ◌≡◌, ap, ◌∙◌, inl, inr, Option-cases, none, some, ◌≢◌, ◌++◌,
  arith, length, drop, replicate, length-append, length-replicate, take-append, drop-append,
  drop-drop, ok, ◌%◌, ◌^◌, true,
}
use hash_chat.Prelude.Bytes.{Bytes, be16, length-be16}
use hash_chat.Padding.{size_classes, class_for, copy_at, pad, contains}

-- A chosen class has room for the prefix and the data, and is one of the five.
pub class_for_fits :
    (n c : ℕ) → class_for n ≡ some c → (n + 2 ≤ c) × (c ≤ 8448) × (contains size_classes c ≡ true)
unfolding class_for contains
class_for_fits n c h = ground arith

pub drop-replicate : (n m : ℕ) (a : ℕ) → drop n (replicate m a) ≡ replicate (m - n) a
drop-replicate zero m a = ground arith
drop-replicate (suc n) zero a = ground arith
drop-replicate (suc n) (suc m) a = ground (arith, drop-replicate n m a)

copy_at_start :
    (out mid : Bytes)
    → length mid ≤ length out
    → copy_at out 0 mid ≡ ok (mid ++ drop (length mid) out)
unfolding copy_at
copy_at_start out mid h = ground arith

copy_at_after :
    (head out mid : Bytes) (n : ℕ)
    → length head ≡ n
    → length mid ≤ length out
    → copy_at (head ++ out) n mid ≡ ok (head ++ (mid ++ drop (length mid) out))
unfolding copy_at
copy_at_after head out mid n e h = ground (
  arith,
  length-append head out,
  take-append head out,
  drop-append head out,
  drop-drop (length head) (length mid) (head ++ out),
)

unfoldable pub blank : ℕ → Bytes
blank n = replicate n 0

pub length-blank : (n : ℕ) → length (blank n) ≡ n
unfolding blank
length-blank n = length-replicate n 0

prefix_step : (n c : ℕ) → 2 ≤ c → copy_at (blank c) 0 (be16 n) ≡ ok (be16 n ++ blank (c - 2))
prefix_step n c le =
    copy_at_start (blank c) (be16 n) (omega (arith, length-blank c, length-be16 n))
    ∙ ap (λ t. ok (be16 n ++ t)) (unfold blank in rw length-be16 (drop-replicate 2 c 0))

body_step :
    (n c : ℕ) (plain : Bytes)
    → length plain + 2 ≤ c
    → copy_at (be16 n ++ blank (c - 2)) 2 plain
      ≡ ok (be16 n ++ (plain ++ blank (c - (length plain + 2))))
body_step n c plain le =
    copy_at_after (be16 n) (blank (c - 2)) plain 2 (length-be16 n)
      (omega (arith, length-blank (c - 2)))
    ∙ ap (λ t. ok (be16 n ++ (plain ++ t)))
        (unfold blank in
          drop-replicate (length plain) (c - 2) 0 ∙ ap (λ m. replicate m 0) (omega arith))

length_layout :
    (plain : Bytes) (c : ℕ)
    → length plain + 2 ≤ c
    → length (be16 (length plain) ++ (plain ++ blank (c - (length plain + 2)))) ≡ c
length_layout plain c fits = omega (
  arith,
  length-append (be16 (length plain)) (plain ++ blank (c - (length plain + 2))),
  length-append plain (blank (c - (length plain + 2))),
  length-be16 (length plain),
  length-blank (c - (length plain + 2)),
)

-- `pad` writes the length, the data and zeros up to the class.
pub pad_layout :
    (plain : Bytes) (c : ℕ)
    → class_for (length plain) ≡ some c
    → pad plain ≡ ok (be16 (length plain) ++ (plain ++ blank (c - (length plain + 2))))
unfolding pad blank
pad_layout plain c h =
    let fits = class_for_fits (length plain) c h in
    rw (h, small (length plain) (omega arith), prefix_step (length plain) c (omega arith))
      (body_step (length plain) c plain fits.0)
  where
    small : (n : ℕ) → n < 65536 → n % 2 ^ 16 ≡ n
    small n lt = omega arith

pub class-le : (n : ℕ) → contains size_classes n ≡ true → n ≤ 8448
unfolding contains
class-le n h = ground arith

class_for_least :
    (n c k : ℕ) → class_for n ≡ some c → contains size_classes k ≡ true → n + 2 ≤ k → c ≤ k
unfolding class_for contains
class_for_least n c k h m le = ground arith

class_for-ne-none : (n : ℕ) → n + 2 ≤ 8448 → class_for n ≢ none
unfolding class_for
class_for-ne-none n h = ground arith

class_for_total : (n : ℕ) → n + 2 ≤ 8448 → (c : ℕ) × (class_for n ≡ some c)
class_for_total n h = elim (Option-cases (class_for n)) [
  | inl e ↦ absurd (never e)
  | inr (c, e) ↦ (c, e)
]
  where
    never : class_for n ≡ none → ⊥
    never = class_for-ne-none n h

-- A message of at most 8446 bytes is padded, to a size class with room for it and for the two
-- bytes of the length; no size class with that room is smaller.
pub pad_least :
    (plain : Bytes) (k : ℕ)
    → length plain ≤ 8446
    → contains size_classes k ≡ true
    → length plain + 2 ≤ k
    → (out : Bytes) × (pad plain ≡ ok out)
      × (contains size_classes (length out) ≡ true)
      × (length plain + 2 ≤ length out)
      × (length out ≤ k)
pad_least plain k h m le =
    let (c, e) = class_for_total (length plain) (omega arith) in
    let (fits, top, member) = class_for_fits (length plain) c e in
    let out : Bytes = be16 (length plain) ++ (plain ++ blank (c - (length plain + 2))) in
    let size : length out ≡ c = length_layout plain c fits in
    (
      out,
      pad_layout plain c e,
      rw size member,
      rw size fits,
      rw size (class_for_least (length plain) c k e m le),
    )

pub pad-eq-ok_small :
    (plain : Bytes) {out : Bytes} → length plain ≤ 8446 → pad plain ≡ ok out → length out ≤ 8448
pad-eq-ok_small plain {out} h run =
    let (c, e) = class_for_total (length plain) (omega arith) in
    let (fits, top, member) = class_for_fits (length plain) c e in
    let same : be16 (length plain) ++ (plain ++ blank (c - (length plain + 2))) ≡ out =
      cc (pad_layout plain c e) in
    omega (arith, ap length same, length_layout plain c fits, top)
