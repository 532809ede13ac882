-- ===== src/Invites/View.antt =====
-- invite.rs: the open invites as a partial function.
use hash_chat.Prelude.{
  ℕ, min, ◌+◌, ◌-◌, ◌^◌, ◌≡◌, refl, ap, subst, ◌∙◌, Bool, true, false, ◌||◌, Option, none, some, [],
  ◌∷◌, length, ltb, leb, ◌==◌, if◌then◌else◌, Result, ok, err, panic, Bool-cases, inl, inr, arith,
}
use hash_chat.Prelude.Bytes.{Bytes}
use hash_chat.Prelude.Utf8.{Text}
use hash_chat.Prelude.BTreeMap.{Map, get, contains_key, IsSorted, Above}
use hash_chat.Prelude.BTreeMap.Laws.{
  get-insert, get-remove, get-Above, IsSorted-insert, IsSorted-remove,
}
use hash_chat.Invites.{
  PendingEntry, PendingInvites, InviteError, retain_open, purge_expired, revoke, redeem, redeemed,
  store_issued, issue_with, issue_drawn, max_pending_invites, max_invite_ttl_secs,
}

-- One call of the inviter's store. The link of an invite may be any function of its id and expiry.
pub data Call : Type 0 where
  issues :
      (drawn : Option ℕ) (salt : Bytes) (format : ℕ → ℕ → Result InviteError Text) (now ttl : ℕ)
      → Call
  redeems : (id now : ℕ) → Call
  revokes : (id : ℕ) → Call
  purges : (now : ℕ) → Call

unfoldable pub after : Call → PendingInvites → PendingInvites
unfolding issue_with redeem revoke purge_expired
after (issues drawn salt format now ttl) p = (issue_with drawn salt format now ttl p).1
after (redeems id now) p = (redeem id now p).1
after (revokes id) p = (revoke id p).1
after (purges now) p = purge_expired now p

-- what a caller is told: the link of a new invite, the salt of an open one, that an invite was
-- withdrawn, that the purge is done, or a refusal
pub data Reply : Type 0 where
  gives : (link : Text) → Reply
  hands : (salt : Bytes) → Reply
  withdrawn purged refused : Reply

abbrev pub link_reply : Result InviteError Text → Reply
link_reply (ok link) = gives link
link_reply (err e) = refused
link_reply panic = refused

abbrev pub salt_reply : Result InviteError Bytes → Reply
salt_reply (ok salt) = hands salt
salt_reply (err e) = refused
salt_reply panic = refused

unfoldable pub answer : Call → PendingInvites → Reply
unfolding issue_with redeem revoke
answer (issues drawn salt format now ttl) p = link_reply (issue_with drawn salt format now ttl p).0
answer (redeems id now) p = salt_reply (redeem id now p).0
answer (revokes id) p = if (revoke id p).0 then withdrawn else refused
answer (purges now) p = purged

-- The abstract view: which entry is open under an id.
abbrev pub View : Type 0
View = ℕ → Option PendingEntry

abbrev pub view : PendingInvites → View
view p id = get id p.invites

-- an entry that is still in time
unfoldable pub in_time : ℕ → Option PendingEntry → Option PendingEntry
in_time now none = none
in_time now (some e) = if ltb now e.expires then some e else none

-- whether an issue refuses before it draws an id: then only a lifetime out of range drops nothing
abbrev pub bad_lifetime : ℕ → Bool
bad_lifetime ttl = ttl == 0 || ltb max_invite_ttl_secs ttl

Above-retain : (k now : ℕ) (m : Map PendingEntry) → Above k m → Above k (retain_open now m)
unfolding retain_open
Above-retain k now [] a = tt
Above-retain k now ((j, e) ∷ m) a = ground (arith, Above-retain k now m a.1, a.0)

IsSorted-retain : (now : ℕ) (m : Map PendingEntry) → IsSorted m → IsSorted (retain_open now m)
unfolding retain_open
IsSorted-retain now [] s = tt
IsSorted-retain now ((j, e) ∷ m) s =
    ground (arith, IsSorted-retain now m s.1, Above-retain j now m s.0)

pub get-retain :
    (k now : ℕ) (m : Map PendingEntry)
    → IsSorted m
    → get k (retain_open now m) ≡ in_time now (get k m)
unfolding retain_open get in_time
get-retain k now [] s = refl
get-retain k now ((j, e) ∷ m) s =
    ground
      (arith, get-retain k now m s.1, get-Above j k (retain_open now m) (Above-retain j now m s.0))

-- what a redemption is told of the entry under its id
abbrev pub told : ℕ → Option PendingEntry → Reply
told now none = refused
told now (some e) = if ltb now e.expires then hands e.salt else refused

abbrev pub told_revoked : Option PendingEntry → Reply
told_revoked none = refused
told_revoked (some e) = withdrawn

-- What a call may answer, and do to the view.
pub data Spec : Call → Reply → View → View → Type 0 where
  -- an issue with a lifetime out of range
  refuses :
      {v : View} (drawn : Option ℕ) (salt : Bytes) (format : ℕ → ℕ → Result InviteError Text)
      (now ttl : ℕ)
      → bad_lifetime ttl ≡ true
      → Spec (issues drawn salt format now ttl) refused v v
  -- an issue that refuses later: what has expired is gone
  drops :
      {v : View} (drawn : Option ℕ) (salt : Bytes) (format : ℕ → ℕ → Result InviteError Text)
      (now ttl : ℕ)
      → bad_lifetime ttl ≡ false
      → Spec (issues drawn salt format now ttl) refused v (λ j. in_time now (v j))
  opens :
      {v : View} (id : ℕ) (salt : Bytes) (format : ℕ → ℕ → Result InviteError Text) (now ttl : ℕ)
      (e : PendingEntry) (link : Text)
      → format id e.expires ≡ ok link
      → e.salt ≡ salt
      → e.expires ≡ min (now + ttl) (2 ^ 64 - 1)
      → bad_lifetime ttl ≡ false
      → Spec
          (issues (some id) salt format now ttl)
          (gives link)
          v
          (λ j. if id == j then some e else in_time now (v j))
  spends :
      {v : View} (id now : ℕ)
      → Spec (redeems id now) (told now (v id)) v (λ j. if id == j then none else v j)
  withdraws :
      {v : View} (id : ℕ)
      → Spec (revokes id) (told_revoked (v id)) v (λ j. if id == j then none else v j)
  lapses : {v : View} (now : ℕ) → Spec (purges now) purged v (λ j. in_time now (v j))

-- the call `c` on `p`, answered by `r` and leaving `q`, does what the specification allows
pub record Refines (c : Call) (p : PendingInvites) (r : Reply) (q : PendingInvites) : Type 0 where
  pub next : View
  pub allowed : Spec c r (view p) next
  pub same : (j : ℕ) → view q j ≡ next j
  pub sorted : IsSorted q.invites

redeem_told : (now : ℕ) (o : Option PendingEntry) → told now o ≡ salt_reply (redeemed now o)
unfolding redeemed
redeem_told now none = refl
redeem_told now (some e) = ground arith

contains_told :
    (id : ℕ) (m : Map PendingEntry)
    → told_revoked (get id m) ≡ (if contains_key id m then withdrawn else refused)
unfolding contains_key
contains_told id m = by_entry (get id m)
  where
    by_entry :
        (o : Option PendingEntry)
        → told_revoked o
          ≡ (if (elim o [ none ↦ false | some e ↦ true ]) then withdrawn else refused)
    by_entry none = refl
    by_entry (some e) = refl

-- the store after an issue that got as far as the link
stored_lem :
    (id : ℕ) (salt : Bytes) (format : ℕ → ℕ → Result InviteError Text) (now ttl : ℕ)
    (e : PendingEntry) (p : PendingInvites)
    → e.salt ≡ salt
    → e.expires ≡ min (now + ttl) (2 ^ 64 - 1)
    → bad_lifetime ttl ≡ false
    → IsSorted p.invites
    → (r : Result InviteError Text) → format id e.expires ≡ r
    → Refines
        (issues (some id) salt format now ttl)
        p
        (link_reply (store_issued id e (purge_expired now p) r).0)
        (store_issued id e (purge_expired now p) r).1
unfolding store_issued purge_expired
stored_lem id salt format now ttl e p es ee bad s (ok link) made = record {
  next = λ j. if id == j then some e else in_time now (view p j);
  allowed = opens id salt format now ttl e link made es ee bad;
  same = λ j.
      get-insert id j e (retain_open now p.invites)
      ∙ ap (λ o. if id == j then some e else o) (get-retain j now p.invites s);
  sorted = IsSorted-insert id e _ (IsSorted-retain now p.invites s);
}
stored_lem id salt format now ttl e p es ee bad s (err x) made = record {
  next = λ j. in_time now (view p j);
  allowed = drops (some id) salt format now ttl bad;
  same = λ j. get-retain j now p.invites s;
  sorted = IsSorted-retain now p.invites s;
}
stored_lem id salt format now ttl e p es ee bad s panic made = record {
  next = λ j. in_time now (view p j);
  allowed = drops (some id) salt format now ttl bad;
  same = λ j. get-retain j now p.invites s;
  sorted = IsSorted-retain now p.invites s;
}

dropped_lem :
    (drawn : Option ℕ) (salt : Bytes) (format : ℕ → ℕ → Result InviteError Text) (now ttl : ℕ)
    (p : PendingInvites)
    → bad_lifetime ttl ≡ false
    → IsSorted p.invites
    → Refines (issues drawn salt format now ttl) p refused (purge_expired now p)
unfolding purge_expired
dropped_lem drawn salt format now ttl p fine s = record {
  next = λ j. in_time now (view p j);
  allowed = drops drawn salt format now ttl fine;
  same = λ j. get-retain j now p.invites s;
  sorted = IsSorted-retain now p.invites s;
}

issue_lem :
    (drawn : Option ℕ) (salt : Bytes) (format : ℕ → ℕ → Result InviteError Text) (now ttl : ℕ)
    (p : PendingInvites)
    → IsSorted p.invites
    → Refines
        (issues drawn salt format now ttl)
        p
        (link_reply (issue_with drawn salt format now ttl p).0)
        (issue_with drawn salt format now ttl p).1
unfolding issue_with issue_drawn
issue_lem drawn salt format now ttl p s = elim (Bool-cases (bad_lifetime ttl)) [
  | inl e ↦ rw e (record {
    next = view p;
    allowed = refuses drawn salt format now ttl e;
    same = λ j. refl;
    sorted = s;
  })
  | inr fine ↦ elim (Bool-cases (leb max_pending_invites (length (purge_expired now p).invites))) [
    | inl e ↦ rw (fine, e) (dropped_lem drawn salt format now ttl p fine s)
    | inr e ↦ rw (fine, e) (by_drawn drawn fine)
  ]
]
  where
    by_drawn :
        (d : Option ℕ)
        → bad_lifetime ttl ≡ false
        → Refines
            (issues d salt format now ttl)
            p
            (link_reply
              (issue_drawn salt (min (now + ttl) (2 ^ 64 - 1)) format (purge_expired now p) d).0)
            (issue_drawn salt (min (now + ttl) (2 ^ 64 - 1)) format (purge_expired now p) d).1
    by_drawn none fine = dropped_lem none salt format now ttl p fine s
    by_drawn (some id) fine = stored_lem id salt format now ttl _ p refl refl fine s _ refl

-- Every call on the store answers, and does, what the partial function of its open invites allows.
-- An issue that answers with a link has opened the invite of that link, with the salt and, capped at
-- 64 bits, the lifetime asked for; an issue that refuses opens none. A redemption hands out the salt
-- of the invite that is open under its id, if it is in time. Only a redemption or a withdrawal of its
-- id, its expiry, or a new invite under the same id ends an open invite.
pub refines :
    (c : Call) (p : PendingInvites) → IsSorted p.invites → Refines c p (answer c p) (after c p)
unfolding answer after redeem revoke purge_expired
refines (issues drawn salt format now ttl) p s = issue_lem drawn salt format now ttl p s
refines (redeems id now) p s = record {
  next = _;
  allowed =
      subst (λ r. Spec (redeems id now) r (view p) (λ j. if id == j then none else view p j))
        (redeem_told now (view p id)) (spends id now);
  same = λ j. get-remove id j p.invites s;
  sorted = IsSorted-remove id p.invites s;
}
refines (revokes id) p s = record {
  next = _;
  allowed =
      subst (λ r. Spec (revokes id) r (view p) (λ j. if id == j then none else view p j))
        (contains_told id p.invites) (withdraws id);
  same = λ j. get-remove id j p.invites s;
  sorted = IsSorted-remove id p.invites s;
}
refines (purges now) p s = record {
  next = _;
  allowed = lapses now;
  same = λ j. get-retain j now p.invites s;
  sorted = IsSorted-retain now p.invites s;
}
