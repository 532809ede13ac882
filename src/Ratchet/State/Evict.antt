-- ===== src/Ratchet/State/Evict.antt =====
-- ratchet.rs: the eviction of skipped keys.
use hash_chat.Prelude.{
  none, ◌==◌, ◌∙◌, ℕ, suc, ◌+◌, ◌≤◌, ◌<◌, ◌≡◌, refl, some, arith, leb, length, if◌then◌else◌, [],
  ◌∷◌,
}
use hash_chat.Prelude.Bytes.{Bytes}
use hash_chat.Prelude.BTreeMap.{Map, get, insert, Above, Below, IsSorted}
use hash_chat.Prelude.BTreeMap.Laws.{get-insert, IsSorted-insert}
use hash_chat.Ratchet.State.{DoubleRatchet, max_skipped_keys, pop_excess, store_skipped_key}

-- how many keys are at `base` or above
pub count_from : ℕ → Map Bytes → ℕ
count_from base [] = 0
count_from base ((k, v) ∷ m) = if leb base k then suc (count_from base m) else count_from base m

count_from-Above :
    (base k : ℕ) (m : Map Bytes) → base ≤ k → Above k m → count_from base m ≡ length m
unfolding count_from
count_from-Above base k [] le h = refl
count_from-Above base k ((j, v) ∷ m) le h = ground (arith, count_from-Above base k m le h.1)

pub count_from-Below : (base : ℕ) (m : Map Bytes) → Below base m → count_from base m ≡ 0
unfolding count_from
count_from-Below base [] h = refl
count_from-Below base ((j, v) ∷ m) h = ground (arith, count_from-Below base m h.1)

count_from-insert :
    (base k : ℕ) (v : Bytes) (m : Map Bytes)
    → count_from base (insert k v m) ≤ count_from base m + 1
unfolding count_from insert
count_from-insert base k v [] = ground arith
count_from-insert base k v ((j, w) ∷ m) = ground (arith, count_from-insert base k v m)

count_from-pop : (base : ℕ) (m : Map Bytes) → count_from base (pop_excess m) ≤ count_from base m
unfolding count_from pop_excess
count_from-pop base [] = omega arith
count_from-pop base ((j, w) ∷ m) = ground (arith, count_from-pop base m)

get-pop :
    (j : ℕ) (m : Map Bytes)
    → IsSorted m
    → count_from j m ≤ max_skipped_keys
    → get j (pop_excess m) ≡ get j m
unfolding count_from pop_excess get
get-pop j [] s few = refl
get-pop j ((k, v) ∷ m) s few = ground (arith, get-pop j m s.1, count_from-Above j k m)

pub count_from-store :
    (base n : ℕ) (key : Bytes) (s : DoubleRatchet)
    → count_from base (store_skipped_key n key s).skipped_keys ≤ count_from base s.skipped_keys + 1
unfolding store_skipped_key
count_from-store base n key s = omega (
  arith,
  count_from-pop base (insert n key s.skipped_keys),
  count_from-insert base n key s.skipped_keys,
)

-- Storing a key changes no other key that fewer than a thousand keys follow.
pub get-store :
    (j n : ℕ) (key : Bytes) (s : DoubleRatchet)
    → IsSorted s.skipped_keys
    → count_from j s.skipped_keys < max_skipped_keys
    → get j (store_skipped_key n key s).skipped_keys
      ≡ (if n == j then some key else get j s.skipped_keys)
unfolding store_skipped_key
get-store j n key s sorted few =
    get-pop j (insert n key s.skipped_keys) (IsSorted-insert n key s.skipped_keys sorted)
      (omega (arith, count_from-insert j n key s.skipped_keys))
    ∙ get-insert n j key s.skipped_keys

pub count_from_mono : (base j : ℕ) (m : Map Bytes) → base ≤ j → count_from j m ≤ count_from base m
unfolding count_from
count_from_mono base j [] le = omega arith
count_from_mono base j ((k, v) ∷ m) le = ground (arith, count_from_mono base j m le)

get-pop_none : (j : ℕ) (m : Map Bytes) → get j m ≡ none → get j (pop_excess m) ≡ none
unfolding pop_excess get
get-pop_none j [] e = refl
get-pop_none j ((k, v) ∷ m) e = ground (arith, get-pop_none j m)

-- Storing a later key gives no earlier step its key back.
pub get-store_none :
    (j n : ℕ) (key : Bytes) (s : DoubleRatchet)
    → j < n
    → get j s.skipped_keys ≡ none
    → get j (store_skipped_key n key s).skipped_keys ≡ none
unfolding store_skipped_key
get-store_none j n key s lt e =
    get-pop_none j (insert n key s.skipped_keys) (get-insert n j key s.skipped_keys ∙ other)
  where
    other : (if n == j then some key else get j s.skipped_keys) ≡ none
    other = ground arith
