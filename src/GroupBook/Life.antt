-- ===== src/GroupBook/Life.antt =====
-- group_store.rs: the life of a group book.
use hash_chat.Prelude.{
  ℕ, ◌≡◌, refl, subst, Bool, not, ◌&&◌, [], length, leb, Result, ok, refuse_if, ◌>>◌, arith,
  >>=-eq-ok, refuse_if-eq-ok,
}
use hash_chat.Prelude.Utf8.{Text}
use hash_chat.GroupBook.{
  Groups, GroupBookError, check_name, get, contains_key, insert, create, create_or_replace,
  remove_group, add_member, remove_member, joined, left, already_exists, too_many_groups,
  max_groups,
}
use hash_chat.GroupBook.Valid.{
  IsBook, settle-IsBook, insert-IsBook, change-IsBook, joined-IsMembers, left-IsMembers,
  remove_found-IsBook,
}

-- One operation on the book; `load` replaces it by one that `create_or_replace` and `add_member` build.
pub data Step : Groups → Groups → Type 0 where
  creates : {gs : Groups} (name : Text) → Step gs (create name gs).1
  replaces : {gs : Groups} (name : Text) → Step gs (create_or_replace name gs).1
  removes : {gs : Groups} (name : Text) → Step gs (remove_group name gs).1
  joins : {gs : Groups} (name : Text) (id : ℕ) → Step gs (add_member name id gs).1
  leaves : {gs : Groups} (name : Text) (id : ℕ) → Step gs (remove_member name id gs).1
  clears : {gs : Groups} → Step gs []

pub data Run (gs : Groups) : Groups → Type 0 where
  here : Run gs gs
  next : {hs ks : Groups} → Run gs hs → Step hs ks → Run gs ks

abbrev full : Text → Groups → Bool
full name gs = not (contains_key name gs) && leb max_groups (length gs)

abbrev done : Text → Groups → Result GroupBookError (Unit {0} × Groups)
done name gs = ok (tt, insert name [] gs)

inserted :
    (name : Text) (gs : Groups) {u : Unit {0}} {after : Groups}
    → IsBook gs
    → check_name name ≡ ok tt
    → (refuse_if (full name gs) too_many_groups >> done name gs) ≡ ok (u, after)
    → IsBook after
inserted name gs v named h =
    let (w, room, same) = >>=-eq-ok (refuse_if (full name gs) too_many_groups) _ h in
    let free = refuse_if-eq-ok (full name gs) too_many_groups room in
    subst IsBook (snd-inj same) (insert-IsBook name gs named free v)
  where
    snd-inj :
        {a b : Groups} {x y : Unit {0}}
        → Path (Result GroupBookError (Unit {0} × Groups)) (ok (x, a)) (ok (y, b))
        → a ≡ b
    snd-inj e = cc

-- the end of both ways to create a group
abbrev placed : Text → Groups → Result GroupBookError (Unit {0} × Groups)
placed name gs = refuse_if (full name gs) too_many_groups >> done name gs

create_or_replace-IsBook :
    (name : Text) (gs : Groups) → IsBook gs → IsBook (create_or_replace name gs).1
unfolding create_or_replace
create_or_replace-IsBook name gs v =
    settle-IsBook gs (check_name name >> placed name gs) v (λ u after run.
      let (w, named, run) = >>=-eq-ok (check_name name) (λ x. placed name gs) run in
      inserted name gs v named run)

create-IsBook : (name : Text) (gs : Groups) → IsBook gs → IsBook (create name gs).1
unfolding create
create-IsBook name gs v =
    let fresh : Result GroupBookError (Unit {0}) =
      refuse_if (contains_key name gs) already_exists in
    settle-IsBook gs (check_name name >> (fresh >> placed name gs)) v (λ u after run.
      let (w, named, run) = >>=-eq-ok (check_name name) (λ x. fresh >> placed name gs) run in
      let (x, new, run) = >>=-eq-ok fresh (λ x. placed name gs) run in inserted name gs v named run)

Step-IsBook : {gs hs : Groups} → Step gs hs → IsBook gs → IsBook hs
unfolding remove_group add_member remove_member
Step-IsBook {gs} (creates name) v = create-IsBook name gs v
Step-IsBook {gs} (replaces name) v = create_or_replace-IsBook name gs v
Step-IsBook {gs} (removes name) v = remove_found-IsBook name gs (get name gs) v
Step-IsBook {gs} (joins name id) v =
    change-IsBook name gs (joined id) (get name gs) refl v
      (λ ids after h m. joined-IsMembers id ids h m)
Step-IsBook {gs} (leaves name id) v =
    change-IsBook name gs (left id) (get name gs) refl v
      (λ ids after h m. left-IsMembers id ids h m)
Step-IsBook clears v = record { each = tt; capped = omega arith }

-- Through any operations on a well-formed group book, refused ones included, every name stays one
-- that the name check accepts, no group has a member twice or more than 256 members, and there are
-- at most 128 groups.
pub Run-IsBook : {gs hs : Groups} → Run gs hs → IsBook gs → IsBook hs
Run-IsBook here v = v
Run-IsBook (next run step) v = Step-IsBook step (Run-IsBook run v)
