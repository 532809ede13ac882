-- ===== src/Prelude/BTreeMap/Laws.antt =====
-- Lookup, order and size after each operation of the map.
use Prim.Native.Nat.{ℕ, ◌+◌, ◌≤◌, ◌<◌}
use mathlib.Core.Path.{◌≡◌, refl}
use mathlib.Core.List.{[], ◌∷◌}
use mathlib.Core.Option.{none, some}
use native.Mathlib.Omega.{arith}
use hash_chat.Prelude.Tests.{◌==◌, if◌then◌else◌}
use hash_chat.Prelude.Lists.{length}
use hash_chat.Prelude.BTreeMap.{Map, get, insert, remove, Above, Below, IsSorted}

module _ {ℓ} {V : Type ℓ} where
  pub get-insert :
      (k j : ℕ) (v : V) (m : Map V) → get j (insert k v m) ≡ (if k == j then some v else get j m)
  unfolding get insert
  get-insert k j v [] = refl
  get-insert k j v ((i, w) ∷ m) = ground (arith, get-insert k j v m)

  pub get-Above : (k j : ℕ) (m : Map V) → Above k m → j ≤ k → get j m ≡ none
  unfolding get
  get-Above k j [] h le = refl
  get-Above k j ((i, w) ∷ m) h le = ground (arith, get-Above k j m h.1)

  pub get-Below : (k j : ℕ) (m : Map V) → Below k m → k ≤ j → get j m ≡ none
  unfolding get
  get-Below k j [] h le = refl
  get-Below k j ((i, w) ∷ m) h le = ground (arith, get-Below k j m h.1)

  pub get-remove :
      (k j : ℕ) (m : Map V) → IsSorted m → get j (remove k m) ≡ (if k == j then none else get j m)
  unfolding get remove
  get-remove k j [] s = ground arith
  get-remove k j ((i, w) ∷ m) s = ground (arith, get-remove k j m s.1, get-Above i j m s.0)

  pub Above-insert : (i k : ℕ) (v : V) (m : Map V) → i < k → Above i m → Above i (insert k v m)
  unfolding insert
  Above-insert i k v [] lt h = (lt, tt)
  Above-insert i k v ((j, w) ∷ m) lt h = ground (arith, Above-insert i k v m)

  Above-weaken : (i j : ℕ) (m : Map V) → i ≤ j → Above j m → Above i m
  Above-weaken i j [] le h = tt
  Above-weaken i j ((k, w) ∷ m) le h = (omega (arith, h.0), Above-weaken i j m le h.1)

  pub IsSorted-insert : (k : ℕ) (v : V) (m : Map V) → IsSorted m → IsSorted (insert k v m)
  unfolding insert
  IsSorted-insert k v [] s = (tt, tt)
  IsSorted-insert k v ((j, w) ∷ m) s =
      ground (arith, IsSorted-insert k v m, Above-insert j k v m, Above-weaken k j m)

  pub Above-remove : (i k : ℕ) (m : Map V) → Above i m → Above i (remove k m)
  unfolding remove
  Above-remove i k [] h = tt
  Above-remove i k ((j, w) ∷ m) h = ground (arith, Above-remove i k m h.1)

  pub IsSorted-remove : (k : ℕ) (m : Map V) → IsSorted m → IsSorted (remove k m)
  unfolding remove
  IsSorted-remove k [] s = tt
  IsSorted-remove k ((j, w) ∷ m) s = ground (arith, IsSorted-remove k m s.1, Above-remove j k m s.0)

  pub Below-insert : (n k : ℕ) (v : V) (m : Map V) → k < n → Below n m → Below n (insert k v m)
  unfolding insert
  Below-insert n k v [] lt h = (lt, tt)
  Below-insert n k v ((j, w) ∷ m) lt h = ground (arith, Below-insert n k v m)

  pub Below-remove : (n k : ℕ) (m : Map V) → Below n m → Below n (remove k m)
  unfolding remove
  Below-remove n k [] h = tt
  Below-remove n k ((j, w) ∷ m) h = ground (arith, Below-remove n k m h.1)

  pub Below-weaken : (i j : ℕ) (m : Map V) → i ≤ j → Below i m → Below j m
  Below-weaken i j [] le h = tt
  Below-weaken i j ((k, w) ∷ m) le h = (omega (arith, h.0), Below-weaken i j m le h.1)

  pub length-insert_le : (k : ℕ) (v : V) (m : Map V) → length (insert k v m) ≤ length m + 1
  unfolding insert
  length-insert_le k v [] = omega arith
  length-insert_le k v ((j, w) ∷ m) = ground (arith, length-insert_le k v m)

  pub length-remove_le : (k : ℕ) (m : Map V) → length (remove k m) ≤ length m
  unfolding remove
  length-remove_le k [] = omega arith
  length-remove_le k ((j, w) ∷ m) = ground (arith, length-remove_le k m)
