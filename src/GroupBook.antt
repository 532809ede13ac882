-- ===== src/GroupBook.antt =====
-- src/rust/group_store.rs: the group book and its limits. The `BTreeMap` is an association list in the
-- order of its names.
pub mod Valid
pub mod Life
use hash_chat.Prelude.{
  ℕ, zero, suc, ◌+◌, Bool, true, false, not, ◌&&◌, ◌||◌, Option, none, some, List, [], ◌∷◌, ◌++◌,
  length, ltb, leb, ◌==◌, if◌then◌else◌, Result, ok, err, panic, refuse_if, ◌>>=◌, ◌>>◌,
}
use hash_chat.Prelude.Utf8.{Text, as_bytes, same_text, trim, is_blank}
use hash_chat.Sanitize.{is_control}

abbrev pub max_group_name_bytes : ℕ
max_group_name_bytes = 64

abbrev pub max_members_per_group : ℕ
max_members_per_group = 256

abbrev pub max_groups : ℕ
max_groups = 128

pub data GroupBookError : Type 0 where
  bad_name name_too_long already_exists no_such_group too_many_groups : GroupBookError
  too_many_members duplicate_member no_such_member malformed too_large : GroupBookError

abbrev pub Groups : Type 0
Groups = List (Text × List ℕ)

-- `name.chars().any(|c| c.is_control())`
unfoldable pub any_control : Text → Bool
any_control [] = false
any_control (ch ∷ s) = is_control ch || any_control s

unfoldable pub check_name : Text → Result GroupBookError (Unit {0})
unfolding any_control
check_name name = do
  refuse_if (is_blank (trim name) || any_control name) bad_name
  refuse_if (ltb max_group_name_bytes (length (as_bytes name))) name_too_long
  ok tt

-- `<` of two strings: by their bytes
lt_bytes : List ℕ → List ℕ → Bool
lt_bytes xs [] = false
lt_bytes [] (y ∷ ys) = true
lt_bytes (x ∷ xs) (y ∷ ys) = ltb x y || x == y && lt_bytes xs ys

unfoldable pub get : Text → Groups → Option (List ℕ)
get name [] = none
get name ((key, ids) ∷ gs) = let rest = get name gs in if same_text key name then some ids else rest

unfoldable pub contains_key : Text → Groups → Bool
contains_key name [] = false
contains_key name ((key, ids) ∷ gs) = same_text key name || contains_key name gs

-- the members of a group that is present
unfoldable pub replace : Text → List ℕ → Groups → Groups
replace name ids [] = []
replace name ids ((key, old) ∷ gs) =
    let rest = replace name ids gs in
    if same_text key name then (key, ids) ∷ gs else (key, old) ∷ rest

-- a group that is absent
unfoldable pub insert_new : Text → List ℕ → Groups → Groups
unfolding lt_bytes
insert_new name ids [] = (name, ids) ∷ []
insert_new name ids ((key, old) ∷ gs) =
    let rest = insert_new name ids gs in
    if lt_bytes (as_bytes name) (as_bytes key)
    then (name, ids) ∷ (key, old) ∷ gs
    else (key, old) ∷ rest

unfoldable pub insert : Text → List ℕ → Groups → Groups
insert name ids gs = if contains_key name gs then replace name ids gs else insert_new name ids gs

unfoldable pub remove : Text → Groups → Groups
remove name [] = []
remove name ((key, ids) ∷ gs) =
    let rest = remove name gs in if same_text key name then gs else (key, ids) ∷ rest

-- the book after an operation that may refuse
abbrev pub settle {ℓ} :
    {A : Type ℓ} → Groups → Result GroupBookError (A × Groups) → Result GroupBookError A × Groups
settle gs (ok (a, after)) = (ok a, after)
settle gs (err e) = (err e, gs)
settle gs panic = (panic, gs)

unfoldable pub create_or_replace : Text → Groups → Result GroupBookError (Unit {0}) × Groups
create_or_replace name gs = settle gs (do
  check_name name
  refuse_if (not (contains_key name gs) && leb max_groups (length gs)) too_many_groups
  ok (tt, insert name [] gs))

unfoldable pub create : Text → Groups → Result GroupBookError (Unit {0}) × Groups
create name gs = settle gs (do
  check_name name
  refuse_if (contains_key name gs) already_exists
  refuse_if (not (contains_key name gs) && leb max_groups (length gs)) too_many_groups
  ok (tt, insert name [] gs))

pub remove_found : Text → Groups → Option (List ℕ) → Result GroupBookError (List ℕ) × Groups
remove_found name gs none = (err no_such_group, gs)
remove_found name gs (some ids) = (ok ids, remove name gs)

unfoldable pub remove_group : Text → Groups → Result GroupBookError (List ℕ) × Groups
unfolding remove_found
remove_group name gs = remove_found name gs (get name gs)

-- `ids.contains(&id)`
unfoldable pub has_member : ℕ → List ℕ → Bool
has_member id [] = false
has_member id (m ∷ ids) = m == id || has_member id ids

-- the members with a new one at the end
unfoldable pub joined : ℕ → List ℕ → Result GroupBookError (List ℕ)
joined id ids = do
  refuse_if (has_member id ids) duplicate_member
  refuse_if (leb max_members_per_group (length ids)) too_many_members
  ok (ids ++ id ∷ [])

-- the members without the first that is `id`
unfoldable pub left : ℕ → List ℕ → Result GroupBookError (List ℕ)
left id [] = err no_such_member
left id (m ∷ ids) = if m == id then ok ids else (do rest ← left id ids; ok (m ∷ rest))

-- a change to the members of one group
pub change :
    Text
    → Groups
    → (List ℕ → Result GroupBookError (List ℕ))
    → Option (List ℕ)
    → Result GroupBookError (Unit {0}) × Groups
change name gs f none = (err no_such_group, gs)
change name gs f (some ids) = settle gs (do after ← f ids; ok (tt, replace name after gs))

unfoldable pub add_member : Text → ℕ → Groups → Result GroupBookError (Unit {0}) × Groups
unfolding change
add_member name id gs = change name gs (joined id) (get name gs)

unfoldable pub remove_member : Text → ℕ → Groups → Result GroupBookError (Unit {0}) × Groups
unfolding change
remove_member name id gs = change name gs (left id) (get name gs)
