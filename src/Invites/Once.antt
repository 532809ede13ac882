-- ===== src/Invites/Once.antt =====
-- invite.rs: how often a run of calls hands out a salt.
use hash_chat.Prelude.{
  ℕ, ◌+◌, ◌≤◌, ◌≡◌, refl, ap, Bool, true, false, ◌&&◌, Option, none, some, List, [], ◌∷◌, length,
  leb, ◌==◌, Result, ok, err, panic, Bool-cases, inl, inr, arith,
}
use hash_chat.Prelude.Bytes.{Bytes}
use hash_chat.Prelude.Utf8.{Text}
use hash_chat.Prelude.BTreeMap.{get, IsSorted}
use hash_chat.Prelude.BTreeMap.Laws.{get-insert, get-remove}
use hash_chat.Invites.{
  PendingEntry, PendingInvites, InviteError, no_invites, purge_expired, revoke, redeem, redeemed,
  store_issued, issue_with, issue_drawn, max_pending_invites,
}
use hash_chat.Invites.View.{
  Call, issues, redeems, revokes, purges, after, view, in_time, bad_lifetime, get-retain, refines,
}

abbrev pub one_if : Bool → ℕ
one_if true = 1
one_if false = 0

abbrev pub is_ok {ℓ} : {A : Type ℓ} → Result InviteError A → Bool
is_ok (ok a) = true
is_ok (err e) = false
is_ok panic = false

abbrev pub is_some {ℓ} : {A : Type ℓ} → Option A → Bool
is_some none = false
is_some (some a) = true

abbrev pub is_drawn : Option ℕ → ℕ → Bool
is_drawn none id = false
is_drawn (some k) id = k == id

-- whether a call hands out the salt of `id`, and whether it issues an invite under `id`
unfoldable pub hands : ℕ → Call → PendingInvites → ℕ
unfolding redeem
hands id (issues drawn salt format now ttl) p = 0
hands id (redeems k now) p = one_if (k == id && is_ok (redeem k now p).0)
hands id (revokes k) p = 0
hands id (purges now) p = 0

unfoldable pub opens_one : ℕ → Call → PendingInvites → ℕ
unfolding issue_with
opens_one id (issues drawn salt format now ttl) p =
    one_if (is_drawn drawn id && is_ok (issue_with drawn salt format now ttl p).0)
opens_one id (redeems k now) p = 0
opens_one id (revokes k) p = 0
opens_one id (purges now) p = 0

-- how often a run of calls does either
unfoldable pub handed : ℕ → List Call → PendingInvites → ℕ
unfolding hands after
handed id [] p = 0
handed id (c ∷ cs) p = hands id c p + handed id cs (after c p)

unfoldable pub issued : ℕ → List Call → PendingInvites → ℕ
unfolding opens_one after
issued id [] p = 0
issued id (c ∷ cs) p = opens_one id c p + issued id cs (after c p)

-- an invite that is open may still be handed out once
abbrev pub due : ℕ → PendingInvites → ℕ
due id p = one_if (is_some (view p id))

in_time_le :
    (now : ℕ) (o : Option PendingEntry) → one_if (is_some (in_time now o)) ≤ one_if (is_some o)
unfolding in_time
in_time_le now none = omega arith
in_time_le now (some e) = ground arith

due_purge :
    (id now : ℕ) (p : PendingInvites) → IsSorted p.invites → due id (purge_expired now p) ≤ due id p
unfolding purge_expired
due_purge id now p s = omega (
  arith,
  ap (λ o. one_if (is_some o)) (get-retain id now p.invites s),
  in_time_le now (view p id),
)

due_stored :
    (id k : ℕ) (e : PendingEntry) (p : PendingInvites) (r : Result InviteError Text)
    → due id (store_issued k e p r).1
      ≤ due id p + one_if (k == id && is_ok (store_issued k e p r).0)
unfolding store_issued
due_stored id k e p (ok link) = ground (arith, get-insert k id e p.invites)
due_stored id k e p (err x) = omega arith
due_stored id k e p panic = omega arith

due_drawn :
    (id : ℕ) (salt : Bytes) (expires : ℕ) (format : ℕ → ℕ → Result InviteError Text)
    (p : PendingInvites) (d : Option ℕ)
    → due id (issue_drawn salt expires format p d).1
      ≤ due id p + one_if (is_drawn d id && is_ok (issue_drawn salt expires format p d).0)
unfolding issue_drawn
due_drawn id salt expires format p none = omega arith
due_drawn id salt expires format p (some k) = due_stored id k _ p _

due_issued :
    (id : ℕ) (drawn : Option ℕ) (salt : Bytes) (format : ℕ → ℕ → Result InviteError Text)
    (now ttl : ℕ) (p : PendingInvites)
    → IsSorted p.invites
    → due id (issue_with drawn salt format now ttl p).1
      ≤ due id p + one_if (is_drawn drawn id && is_ok (issue_with drawn salt format now ttl p).0)
unfolding issue_with
due_issued id drawn salt format now ttl p s = elim (Bool-cases (bad_lifetime ttl)) [
  | inl e ↦ rw e (omega arith)
  | inr fine ↦ elim (Bool-cases (leb max_pending_invites (length (purge_expired now p).invites))) [
    | inl e ↦ rw (fine, e) (omega (arith, due_purge id now p s))
    | inr e ↦
        rw (fine, e)
          (omega
            (arith, due_purge id now p s, due_drawn id salt _ format (purge_expired now p) drawn))
  ]
]

spend_le :
    (now : ℕ) (o : Option PendingEntry) → one_if (is_ok (redeemed now o)) ≤ one_if (is_some o)
unfolding redeemed
spend_le now none = omega arith
spend_le now (some e) = ground arith

due_redeemed :
    (id k now : ℕ) (p : PendingInvites)
    → IsSorted p.invites
    → one_if (k == id && is_ok (redeem k now p).0) + due id (redeem k now p).1 ≤ due id p
unfolding redeem
due_redeemed id k now p s =
    ground (arith, get-remove k id p.invites s, spend_le now (get k p.invites))

call_lem :
    (id : ℕ) (c : Call) (p : PendingInvites)
    → IsSorted p.invites
    → hands id c p + due id (after c p) ≤ due id p + opens_one id c p
unfolding hands opens_one after revoke
call_lem id (issues drawn salt format now ttl) p s =
    omega (arith, due_issued id drawn salt format now ttl p s)
call_lem id (redeems k now) p s = omega (arith, due_redeemed id k now p s)
call_lem id (revokes k) p s = ground (arith, get-remove k id p.invites s)
call_lem id (purges now) p s = omega (arith, due_purge id now p s)

run_lem :
    (id : ℕ) (cs : List Call) (p : PendingInvites)
    → IsSorted p.invites
    → handed id cs p ≤ due id p + issued id cs p
unfolding handed issued
run_lem id [] p s = omega arith
run_lem id (c ∷ cs) p s =
    omega (arith, call_lem id c p s, run_lem id cs (after c p) (refines c p s).sorted)

nothing_due : (id : ℕ) → due id no_invites ≡ 0
unfolding get
nothing_due id = refl

-- Over any run of calls from a store without invites, the salt under an id is handed out at most as
-- often as an invite was issued under that id: each invite is redeemed at most once.
pub handed_once : (id : ℕ) (cs : List Call) → handed id cs no_invites ≤ issued id cs no_invites
handed_once id cs = omega (arith, run_lem id cs no_invites tt, nothing_due id)
