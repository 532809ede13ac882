-- ===== src/SessionPersist/Contacts/Fresh.antt =====
-- session_persist.rs: the loop of `fresh_contact_id`.
use hash_chat.Prelude.{
  ℕ, zero, suc, ◌+◌, ◌≤◌, ◌<◌, ◌≡◌, ◌⊎◌, refl, ap, sym, ◌∙◌, Bool, true, false, ◌||◌, some, List,
  ◌++◌, map, length, Bool-cases, inl, inr, arith,
}
use hash_chat.Prelude.Utf8.{Text, same_text}
use hash_chat.Prelude.Words.{
  has_text, retain_other, has-append, same_text-eq, has-retain_other, length-retain_lt,
}
use hash_chat.Prelude.Decimal.{decimal, value_of, value_of-decimal}
use hash_chat.SessionPersist.{SessionState}
use hash_chat.SessionPersist.Contacts.{fresh_from, fresh_contact_id, numbered, used_ids}

numbered-inj : (m n : ℕ) → m < n → same_text (numbered m) (numbered n) ≡ false
unfolding numbered
numbered-inj m n h = elim (Bool-cases (same_text (numbered m) (numbered n))) [
  | inr e ↦ e
  | inl e ↦
      let same : decimal m ≡ decimal n = cc (same_text-eq (numbered m) (numbered n) e) in
      absurd (omega (arith, ap value_of same, value_of-decimal m, value_of-decimal n))
]

-- all the ids from `n` on are taken, `fuel` many
AllUsed : ℕ → List Text → ℕ → Type 0
AllUsed zero used n = Unit
AllUsed (suc fuel) used n = (has_text (numbered n) used ≡ true) × AllUsed fuel used (n + 1)

still_used :
    (fuel m n : ℕ) (used : List Text)
    → m < n
    → AllUsed fuel used n
    → AllUsed fuel (retain_other (numbered m) used) n
unfolding AllUsed
still_used zero m n used h a = tt
still_used (suc fuel) m n used h a = (
  has-retain_other (numbered m) (numbered n) used (numbered-inj m n h) ∙ a.0,
  still_used fuel m (n + 1) used (omega arith) a.1,
)

-- no more ids are taken than there are in the lists
pigeons : (fuel n : ℕ) (used : List Text) → AllUsed fuel used n → fuel ≤ length used
unfolding AllUsed
pigeons zero n used a = omega arith
pigeons (suc fuel) n used a = omega (
  arith,
  length-retain_lt (numbered n) used a.0,
  pigeons fuel (n + 1) (retain_other (numbered n) used)
      (still_used fuel n (n + 1) used (omega arith) a.1),
)

-- the first number from `n` on whose id is free
pub record IsFirst (used : List Text) (n : ℕ) (id : Text) : Type 0 where
  pub number : ℕ
  pub named : id ≡ numbered number
  pub after : n ≤ number
  pub free : has_text id used ≡ false
  pub skipped : (m : ℕ) → n ≤ m → m < number → has_text (numbered m) used ≡ true

later-IsFirst :
    (used : List Text) (n : ℕ) (id : Text)
    → has_text (numbered n) used ≡ true
    → IsFirst used (n + 1) id
    → IsFirst used n id
later-IsFirst used n id h f = record {
  number = f.number;
  named = f.named;
  after = omega (arith, f.after);
  free = f.free;
  skipped = λ m lo hi. elim (same_or_later n m lo) [
    | inl e ↦ ap (λ k. has_text (numbered k) used) (sym e) ∙ h
    | inr lt ↦ f.skipped m (omega arith) hi
  ];
}
  where
    same_or_later : (a b : ℕ) → a ≤ b → (a ≡ b) ⊎ (a < b)
    same_or_later a b le = ground arith

search_lem :
    (fuel : ℕ) (used : List Text) (n : ℕ)
    → AllUsed fuel used n ⊎ ((id : Text) × (fresh_from fuel used n ≡ some id) × IsFirst used n id)
unfolding AllUsed fresh_from
search_lem zero used n = inl tt
search_lem (suc fuel) used n = elim (Bool-cases (has_text (numbered n) used)) [
  | inr e ↦ inr (
    numbered n,
    rw e refl,
    record {
      number = n;
      named = refl;
      after = omega arith;
      free = e;
      skipped = λ m lo hi. absurd (omega arith);
    },
  )
  | inl e ↦ elim (search_lem fuel used (n + 1)) [
    | inl a ↦ inl (e, a)
    | inr (id, found, first) ↦ inr (id, rw e found, later-IsFirst used n id e first)
  ]
]

-- an id stands in one of the lists of a session: a contact, a policy, or a ratchet
abbrev pub is_used : Text → SessionState → Bool
is_used k s =
    has_text k (map (λ c. c.id) s.contacts)
    || (has_text k s.verified_ids
        || (has_text k s.blocked_ids
            || (has_text k s.muted_ids || has_text k (map (λ r. r.0) s.ratchets))))

used_lem : (k : Text) (s : SessionState) → has_text k (used_ids s) ≡ is_used k s
unfolding used_ids
used_lem k s =
    rw
      (
        has-append k (map (λ c. c.id) s.contacts)
            (s.verified_ids ++ (s.blocked_ids ++ (s.muted_ids ++ map (λ r. r.0) s.ratchets))),
        has-append k s.verified_ids (s.blocked_ids ++ (s.muted_ids ++ map (λ r. r.0) s.ratchets)),
        has-append k s.blocked_ids (s.muted_ids ++ map (λ r. r.0) s.ratchets),
        has-append k s.muted_ids (map (λ r. r.0) s.ratchets),
      )
      refl

-- the id of the least number above the number of contacts whose id is in no list
pub record IsFresh (s : SessionState) (id : Text) : Type 0 where
  pub number : ℕ
  pub named : id ≡ numbered number
  pub after : length s.contacts < number
  pub contact : has_text id (map (λ c. c.id) s.contacts) ≡ false
  pub verified : has_text id s.verified_ids ≡ false
  pub blocked : has_text id s.blocked_ids ≡ false
  pub muted : has_text id s.muted_ids ≡ false
  pub ratchet : has_text id (map (λ r. r.0) s.ratchets) ≡ false
  pub skipped : (m : ℕ) → length s.contacts < m → m < number → is_used (numbered m) s ≡ true

neither : (a b : Bool) → (a || b) ≡ false → (a ≡ false) × (b ≡ false)
neither false b e = (refl, e)
neither true b e = cc

IsFirst-IsFresh :
    (s : SessionState) (id : Text) → IsFirst (used_ids s) (length s.contacts + 1) id → IsFresh s id
IsFirst-IsFresh s id f =
    let (contact, rest) = neither _ _ (sym (used_lem id s) ∙ f.free) in
    let (verified, rest) = neither _ _ rest in
    let (blocked, rest) = neither _ _ rest in
    let (muted, ratchet) = neither _ _ rest in
    record {
      number = f.number;
      named = f.named;
      after = omega (arith, f.after);
      contact = contact;
      verified = verified;
      blocked = blocked;
      muted = muted;
      ratchet = ratchet;
      skipped = λ m lo hi. sym (used_lem (numbered m) s) ∙ f.skipped m (omega arith) hi;
    }

-- The loop for a fresh contact id ends, after at most one try more than there are ids in the lists.
-- It finds the id of the least number above the number of contacts that no contact, no verified,
-- blocked or muted entry and no ratchet has.
pub fresh_lem : (s : SessionState) → (id : Text) × (fresh_contact_id s ≡ some id) × IsFresh s id
unfolding fresh_contact_id
fresh_lem s = elim (search_lem (suc (length (used_ids s))) (used_ids s) (length s.contacts + 1)) [
  | inl a ↦ absurd (omega (arith, pigeons _ _ (used_ids s) a))
  | inr (id, found, first) ↦ (id, found, IsFirst-IsFresh s id first)
]
