-- ===== src/Prelude/Words.antt =====
-- Lists of strings: membership by `==`, and `retain` of all but one.
use Prim.Native.Nat.{◌≤◌, ◌<◌}
use mathlib.Core.Path.{◌≡◌, ◌∙◌, refl, ap}
use mathlib.Core.Logic.{inl, inr}
use mathlib.Core.Bool.{Bool, true, false, ◌&&◌, ◌||◌}
use mathlib.Core.List.{List, [], ◌∷◌, ◌++◌}
use native.Mathlib.Omega.{arith}
use hash_chat.Prelude.Tests.{◌==◌, if◌then◌else◌, Bool-cases}
use hash_chat.Prelude.Lists.{length}
use hash_chat.Prelude.Utf8.{Text, same_text}

pub same_text_refl : (s : Text) → same_text s s ≡ true
unfolding same_text
same_text_refl [] = refl
same_text_refl (x ∷ xs) = ground (arith, same_text_refl xs)

pub same_text-eq : (s t : Text) → same_text s t ≡ true → s ≡ t
unfolding same_text
same_text-eq [] [] h = refl
same_text-eq (x ∷ xs) (y ∷ ys) h =
    let (head, tail) = both (x == y) (same_text xs ys) h in
    let same : x ≡ y = ground (arith, head) in cc (same, same_text-eq xs ys tail)
  where
    both : (a b : Bool) → (a && b) ≡ true → (a ≡ true) × (b ≡ true)
    both true b e = (refl, e)
    both false b e = cc
same_text-eq [] (y ∷ ys) h = cc
same_text-eq (x ∷ xs) [] h = cc

pub same_text_sym : (s t : Text) → same_text s t ≡ same_text t s
unfolding same_text
same_text_sym [] [] = refl
same_text_sym (x ∷ xs) (y ∷ ys) = ground (arith, same_text_sym xs ys)
same_text_sym [] (y ∷ ys) = refl
same_text_sym (x ∷ xs) [] = refl

-- `list.iter().any(|v| v == id)`
unfoldable pub has_text : Text → List Text → Bool
has_text id [] = false
has_text id (v ∷ vs) = same_text v id || has_text id vs

-- `list.retain(|v| v != id)`
unfoldable pub retain_other : Text → List Text → List Text
retain_other id [] = []
retain_other id (v ∷ vs) =
    let rest = retain_other id vs in if same_text v id then rest else v ∷ rest

-- no string twice
abbrev pub IsDistinct : List Text → Type 0
IsDistinct [] = Unit
IsDistinct (v ∷ vs) = (has_text v vs ≡ false) × IsDistinct vs

same_text-cong : (a b c : Text) → same_text a b ≡ true → same_text a c ≡ same_text b c
same_text-cong a b c h = ap (λ t. same_text t c) (same_text-eq a b h)

pub has-retain_same : (id : Text) (vs : List Text) → has_text id (retain_other id vs) ≡ false
unfolding has_text retain_other
has-retain_same id [] = refl
has-retain_same id (v ∷ vs) = ground (arith, has-retain_same id vs)

pub has-retain_other :
    (id k : Text) (vs : List Text)
    → same_text id k ≡ false
    → has_text k (retain_other id vs) ≡ has_text k vs
unfolding has_text retain_other
has-retain_other id k [] h = refl
has-retain_other id k (v ∷ vs) h = elim (Bool-cases (same_text v id)) [
  | inl e ↦ rw (e, same_text-cong v id k e, h) (has-retain_other id k vs h)
  | inr e ↦ rw (e, has-retain_other id k vs h) refl
]

pub has-retain_false :
    (id k : Text) (vs : List Text) → has_text k vs ≡ false → has_text k (retain_other id vs) ≡ false
unfolding has_text retain_other
has-retain_false id k [] h = refl
has-retain_false id k (v ∷ vs) h = ground (arith, has-retain_false id k vs)

pub IsDistinct-retain :
    (id : Text) (vs : List Text) → IsDistinct vs → IsDistinct (retain_other id vs)
unfolding retain_other
IsDistinct-retain id [] d = tt
IsDistinct-retain id (v ∷ vs) d =
    ground (arith, IsDistinct-retain id vs d.1, has-retain_false id v vs d.0)

pub length-retain_le : (id : Text) (vs : List Text) → length (retain_other id vs) ≤ length vs
unfolding retain_other
length-retain_le id [] = omega arith
length-retain_le id (v ∷ vs) = ground (arith, length-retain_le id vs)

pub length-retain_lt :
    (id : Text) (vs : List Text) → has_text id vs ≡ true → length (retain_other id vs) < length vs
unfolding has_text retain_other
length-retain_lt id [] h = cc
length-retain_lt id (v ∷ vs) h = ground (arith, length-retain_lt id vs, length-retain_le id vs)

pub has-last :
    (k id : Text) (vs : List Text) → has_text k (vs ++ id ∷ []) ≡ (has_text k vs || same_text id k)
unfolding has_text
has-last k id [] = ground arith
has-last k id (v ∷ vs) = ground (arith, has-last k id vs)

pub IsDistinct-last :
    (id : Text) (vs : List Text)
    → has_text id vs ≡ false
    → IsDistinct vs
    → IsDistinct (vs ++ id ∷ [])
unfolding has_text
IsDistinct-last id [] h d = (refl, tt)
IsDistinct-last id (v ∷ vs) h d =
    let (other, absent) = neither (same_text v id) (has_text id vs) h in
    (
      has-last v id vs
          ∙ ap (λ b. has_text v vs || b) (same_text_sym id v)
          ∙ ap (λ b. b || same_text v id) d.0
          ∙ other,
      IsDistinct-last id vs absent d.1,
    )
  where
    neither : (a b : Bool) → (a || b) ≡ false → (a ≡ false) × (b ≡ false)
    neither false b e = (refl, e)
    neither true b e = cc

pub has-append :
    (k : Text) (xs ys : List Text) → has_text k (xs ++ ys) ≡ (has_text k xs || has_text k ys)
unfolding has_text
has-append k [] ys = refl
has-append k (x ∷ xs) ys = ground (arith, has-append k xs ys)
