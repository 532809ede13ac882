-- ===== src/GroupBook/Valid.antt =====
-- group_store.rs: the invariant of a group book.
use hash_chat.Prelude.{
  ℕ, suc, ◌≤◌, ◌<◌, ◌≡◌, ◌≢◌, refl, ap, ◌∙◌, sym, true, false, not, ◌&&◌, Option, none, some, List,
  [], ◌∷◌, ◌++◌, length, length-append, leb, ◌==◌, Result, ok, err, panic, refuse_if, ◌>>=◌, All,
  Bool-cases, inl, inr, arith, >>=-eq-ok, subst, refuse_if-eq-ok,
}
use hash_chat.Prelude.Utf8.{Text, same_text}
use hash_chat.GroupBook.{
  Groups, GroupBookError, check_name, get, contains_key, replace, insert_new, insert, remove,
  settle, remove_found, has_member, joined, left, change, duplicate_member, too_many_members,
  max_groups, max_members_per_group,
}

-- no member twice
abbrev pub Distinct : List ℕ → Type 0
Distinct [] = Unit
Distinct (m ∷ ids) = (has_member m ids ≡ false) × Distinct ids

pub record IsGroup (g : Text × List ℕ) : Type 0 where
  pub named : check_name g.0 ≡ ok tt
  pub members : Distinct g.1
  pub capped : length g.1 ≤ max_members_per_group

pub record IsBook (gs : Groups) : Type 0 where
  pub each : All IsGroup gs
  pub capped : length gs ≤ max_groups

each_replace :
    (name : Text) (ids : List ℕ) (gs : Groups)
    → Distinct ids
    → length ids ≤ max_members_per_group
    → All IsGroup gs
    → All IsGroup (replace name ids gs)
unfolding replace
each_replace name ids [] d c h = tt
each_replace name ids ((key, old) ∷ gs) d c h = elim (Bool-cases (same_text key name)) [
  | inl e ↦ rw e (record { named = h.0.named; members = d; capped = c }, h.1)
  | inr e ↦ rw e (h.0, each_replace name ids gs d c h.1)
]

length-replace :
    (name : Text) (ids : List ℕ) (gs : Groups) → length (replace name ids gs) ≡ length gs
unfolding replace
length-replace name ids [] = refl
length-replace name ids ((key, old) ∷ gs) = ground (arith, length-replace name ids gs)

each_insert :
    (name : Text) (ids : List ℕ) (gs : Groups)
    → IsGroup (name, ids)
    → All IsGroup gs
    → All IsGroup (insert_new name ids gs)
unfolding insert_new
each_insert name ids [] g h = (g, tt)
each_insert name ids ((key, old) ∷ gs) g h = ground (arith, each_insert name ids gs g h.1)

length-insert_new :
    (name : Text) (ids : List ℕ) (gs : Groups) → length (insert_new name ids gs) ≡ suc (length gs)
unfolding insert_new
length-insert_new name ids [] = refl
length-insert_new name ids ((key, old) ∷ gs) = ground (arith, length-insert_new name ids gs)

each_remove : (name : Text) (gs : Groups) → All IsGroup gs → All IsGroup (remove name gs)
unfolding remove
each_remove name [] h = tt
each_remove name ((key, ids) ∷ gs) h = elim (Bool-cases (same_text key name)) [
  | inl e ↦ rw e h.1
  | inr e ↦ rw e (h.0, each_remove name gs h.1)
]

length-remove : (name : Text) (gs : Groups) → length (remove name gs) ≤ length gs
unfolding remove
length-remove name [] = omega arith
length-remove name ((key, ids) ∷ gs) = ground (arith, length-remove name gs)

pub insert-IsBook :
    (name : Text) (gs : Groups)
    → check_name name ≡ ok tt
    → (not (contains_key name gs) && leb max_groups (length gs)) ≡ false
    → IsBook gs
    → IsBook (insert name [] gs)
unfolding insert
insert-IsBook name gs named room v = elim (Bool-cases (contains_key name gs)) [
  | inl here ↦ rw here (record {
    each = each_replace name [] gs tt (omega arith) v.each;
    capped = omega (arith, length-replace name [] gs, v.capped);
  })
  | inr absent ↦ rw absent (record {
    each =
        each_insert name [] gs (record { named = named; members = tt; capped = omega arith })
          v.each;
    capped = omega (
      arith,
      length-insert_new name [] gs,
      free (length gs) (sym (ap (λ b. not b && leb max_groups (length gs)) absent) ∙ room),
    );
  })
]
  where
    free : (n : ℕ) → leb max_groups n ≡ false → n < max_groups
    free n e = ground (arith, e)

-- an operation keeps the invariant if what it settles on does
pub settle-IsBook {ℓ} :
    {A : Type ℓ} (gs : Groups) (r : Result GroupBookError (A × Groups))
    → IsBook gs
    → ((a : A) (after : Groups) → r ≡ ok (a, after) → IsBook after)
    → IsBook (settle gs r).1
settle-IsBook gs (ok (a, after)) v h = h a after refl
settle-IsBook gs (err e) v h = v
settle-IsBook gs panic v h = v

has-last :
    (k id : ℕ) (ids : List ℕ)
    → has_member k ids ≡ false
    → (id == k) ≡ false
    → has_member k (ids ++ id ∷ []) ≡ false
unfolding has_member
has-last k id [] h e = ground (arith, e)
has-last k id (m ∷ ids) h e = ground (arith, has-last k id ids, e, h)

Distinct-last :
    (id : ℕ) (ids : List ℕ) → has_member id ids ≡ false → Distinct ids → Distinct (ids ++ id ∷ [])
unfolding has_member
Distinct-last id [] h d = (refl, tt)
Distinct-last id (m ∷ ids) h d =
    (has-last m id ids d.0 (ground (arith, h)), Distinct-last id ids (ground (arith, h)) d.1)

-- a list of members that may stand in a group
pub record IsMembers (ids : List ℕ) : Type 0 where
  pub distinct : Distinct ids
  pub capped : length ids ≤ max_members_per_group

pub joined-IsMembers :
    (id : ℕ) (ids : List ℕ) {after : List ℕ}
    → joined id ids ≡ ok after
    → IsMembers ids
    → IsMembers after
unfolding joined
joined-IsMembers id ids {after} h v =
    let (u, fresh, h) = >>=-eq-ok (refuse_if (has_member id ids) duplicate_member) _ h in
    let (w, room, h) =
      >>=-eq-ok (refuse_if (leb max_members_per_group (length ids)) too_many_members) _ h in
    let absent = refuse_if-eq-ok (has_member id ids) duplicate_member fresh in
    let below = refuse_if-eq-ok (leb max_members_per_group (length ids)) too_many_members room in
    subst IsMembers (ok-inj h)
      (record { distinct = Distinct-last id ids absent v.distinct; capped = more ids below })
  where
    ok-inj : {a b : List ℕ} → Path (Result GroupBookError (List ℕ)) (ok a) (ok b) → a ≡ b
    ok-inj e = cc

    more :
        (xs : List ℕ)
        → leb max_members_per_group (length xs) ≡ false
        → length (xs ++ id ∷ []) ≤ max_members_per_group
    more xs e = ground (arith, e, length-append xs (id ∷ []))

-- what is left of the members is among them
record Leaves (ids after : List ℕ) : Type 0 where
  distinct : Distinct ids → Distinct after
  shorter : length after ≤ length ids
  absent : (k : ℕ) → has_member k ids ≡ false → has_member k after ≡ false

left_none : (id : ℕ) {after : List ℕ} → left id [] ≢ ok after
unfolding left
left_none id h = cc

left_here :
    (id m : ℕ) (ids : List ℕ) {after : List ℕ}
    → (m == id) ≡ true
    → left id (m ∷ ids) ≡ ok after
    → ids ≡ after
unfolding left
left_here id m ids e h = ground (arith, e, h)

left_later :
    (id m : ℕ) (ids : List ℕ) {after : List ℕ}
    → (m == id) ≡ false
    → left id (m ∷ ids) ≡ ok after
    → (rest : List ℕ) × (left id ids ≡ ok rest) × (m ∷ rest ≡ after)
unfolding left
left_later id m ids e h = ground (arith, e, h)

has_tail :
    (k m : ℕ) (ids : List ℕ)
    → has_member k (m ∷ ids) ≡ false
    → (has_member k ids ≡ false) × ((m == k) ≡ false)
unfolding has_member
has_tail k m ids h = ground (arith, h)

has_cons :
    (k m : ℕ) (ids : List ℕ)
    → (m == k) ≡ false
    → has_member k ids ≡ false
    → has_member k (m ∷ ids) ≡ false
unfolding has_member
has_cons k m ids e h = ground (arith, e, h)

left-Leaves : (id : ℕ) (ids : List ℕ) {after : List ℕ} → left id ids ≡ ok after → Leaves ids after
left-Leaves id [] h = absurd (left_none id h)
left-Leaves id (m ∷ ids) h = elim (Bool-cases (m == id)) [
  | inl e ↦ subst (Leaves (m ∷ ids)) (left_here id m ids e h) (record {
    distinct = λ d. d.1;
    shorter = omega arith;
    absent = λ k a. (has_tail k m ids a).0;
  })
  | inr e ↦
      let (rest, runs, same) = left_later id m ids e h in
      let l = left-Leaves id ids runs in
      subst (Leaves (m ∷ ids)) same (record {
        distinct = λ d. (l.absent m d.0, l.distinct d.1);
        shorter = omega (arith, l.shorter);
        absent = λ k a.
            let (tail, other) = has_tail k m ids a in has_cons k m rest other (l.absent k tail);
      })
]

pub left-IsMembers :
    (id : ℕ) (ids : List ℕ) {after : List ℕ}
    → left id ids ≡ ok after
    → IsMembers ids
    → IsMembers after
left-IsMembers id ids h v =
    let l = left-Leaves id ids h in
    record { distinct = l.distinct v.distinct; capped = omega (arith, l.shorter, v.capped) }

get-IsMembers :
    (name : Text) (gs : Groups) {ids : List ℕ}
    → All IsGroup gs
    → get name gs ≡ some ids
    → IsMembers ids
unfolding get
get-IsMembers name [] h e = cc
get-IsMembers name ((key, old) ∷ gs) {ids} h e = elim (Bool-cases (same_text key name)) [
  | inl same ↦
      let found : old ≡ ids = ground (arith, same, e) in
      subst IsMembers found (record { distinct = h.0.members; capped = h.0.capped })
  | inr other ↦ get-IsMembers name gs h.1 (ground (arith, other, e))
]

replace-IsBook :
    (name : Text) (ids : List ℕ) (gs : Groups)
    → IsMembers ids
    → IsBook gs
    → IsBook (replace name ids gs)
replace-IsBook name ids gs m v = record {
  each = each_replace name ids gs m.distinct m.capped v.each;
  capped = omega (arith, length-replace name ids gs, v.capped);
}

pub change-IsBook :
    (name : Text) (gs : Groups) (f : List ℕ → Result GroupBookError (List ℕ)) (o : Option (List ℕ))
    → get name gs ≡ o
    → IsBook gs
    → ((ids : List ℕ) (after : List ℕ) → f ids ≡ ok after → IsMembers ids → IsMembers after)
    → IsBook (change name gs f o).1
unfolding change
change-IsBook name gs f none e v h = v
change-IsBook name gs f (some ids) e v h =
    settle-IsBook gs (f ids >>= λ after. ok (tt, replace name after gs)) v (λ u book run.
      let (after, made, same) = >>=-eq-ok (f ids) _ run in
      subst IsBook (snd-inj same)
        (replace-IsBook name after gs (h ids after made (get-IsMembers name gs v.each e)) v))
  where
    snd-inj :
        {a b : Groups} {u w : Unit {0}}
        → Path (Result GroupBookError (Unit {0} × Groups)) (ok (u, a)) (ok (w, b))
        → a ≡ b
    snd-inj e = cc

pub remove_found-IsBook :
    (name : Text) (gs : Groups) (o : Option (List ℕ))
    → IsBook gs
    → IsBook (remove_found name gs o).1
unfolding remove_found
remove_found-IsBook name gs none v = v
remove_found-IsBook name gs (some ids) v = record {
  each = each_remove name gs v.each;
  capped = omega (arith, length-remove name gs, v.capped);
}
