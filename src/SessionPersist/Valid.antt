-- ===== src/SessionPersist/Valid.antt =====
-- session_persist.rs: the invariant of the session state, and what each list operation keeps of it.
use hash_chat.Prelude.{
  ℕ, zero, suc, ◌+◌, ◌≤◌, ◌≡◌, refl, ap, sym, ◌∙◌, Bool, false, ◌||◌, Option, none, some, List, [],
  ◌∷◌, ◌++◌, map, get_elem?, length, All, All-append, arith, Bool-cases, Option-cases, inl, inr,
}
use hash_chat.Prelude.Bytes.{Bytes}
use hash_chat.Prelude.Utf8.{Text, same_text}
use hash_chat.Prelude.Words.{
  has_text, retain_other, IsDistinct, IsDistinct-retain, has-retain_false, has-last, same_text_sym,
}
use hash_chat.ContactLink.{Texts}
use hash_chat.SessionPersist.{SessionState, PersistedContact}
use hash_chat.SessionPersist.Pending.{max_pending_frames, set_slot, remove_first}
use hash_chat.SessionPersist.Contacts.{update_at, remove_at, keep}
use hash_chat.SessionPersist.Tokens.{
  drop_token, drop_matched, drop_resolved, resolve_deny_token, list_matches,
}

-- no id is both blocked and muted
abbrev pub IsApart : List Text → List Text → Type 0
IsApart blocked = All (λ m. has_text m blocked ≡ false)

abbrev pub ids_of : List PersistedContact → List Text
ids_of = map (λ c. c.id)

abbrev pub keys_of : List (Text × Bytes) → List Text
keys_of = map (λ r. r.0)

pub record IsLists (blocks mutes verifies : List Text) : Type 0 where
  pub blocked : IsDistinct blocks
  pub muted : IsDistinct mutes
  pub verified : IsDistinct verifies
  pub apart : IsApart blocks mutes

pub record IsValid (s : SessionState) : Type 0 where
  pub contacts : IsDistinct (ids_of s.contacts)
  pub ratchets : IsDistinct (keys_of s.ratchets)
  pub queue : length s.pending ≤ max_pending_frames
  pub lists : IsLists s.blocked_ids s.muted_ids s.verified_ids

IsApart-fewer :
    (id : Text) (blocked muted : List Text)
    → IsApart blocked muted
    → IsApart (retain_other id blocked) muted
IsApart-fewer id blocked [] h = tt
IsApart-fewer id blocked (m ∷ ms) h =
    (has-retain_false id m blocked h.0, IsApart-fewer id blocked ms h.1)

IsApart-retain :
    (id : Text) (blocked muted : List Text)
    → IsApart blocked muted
    → IsApart blocked (retain_other id muted)
unfolding retain_other
IsApart-retain id blocked [] h = tt
IsApart-retain id blocked (m ∷ ms) h = ground (arith, IsApart-retain id blocked ms h.1, h.0)

-- what is taken off a list: some ids
pub data Thins : List Text → List Text → Type 0 where
  same : {ids : List Text} → Thins ids ids
  drops : {ids left : List Text} (id : Text) → Thins ids left → Thins ids (retain_other id left)

pub thin-IsDistinct : {ids left : List Text} → Thins ids left → IsDistinct ids → IsDistinct left
thin-IsDistinct same d = d
thin-IsDistinct (drops id r) d = IsDistinct-retain id _ (thin-IsDistinct r d)

pub thin_blocked :
    {ids left : List Text} (muted : List Text)
    → Thins ids left
    → IsApart ids muted
    → IsApart left muted
thin_blocked muted same h = h
thin_blocked muted (drops id r) h = IsApart-fewer id _ muted (thin_blocked muted r h)

pub thin_muted :
    {ids left : List Text} (blocked : List Text)
    → Thins ids left
    → IsApart blocked ids
    → IsApart blocked left
thin_muted blocked same h = h
thin_muted blocked (drops id r) h = IsApart-retain id blocked _ (thin_muted blocked r h)

resolved-Thins : (o : Option Text) (ids : List Text) → Thins ids (drop_resolved o ids)
resolved-Thins none ids = same
resolved-Thins (some id) ids = drops id same

matched-Thins :
    (tok : Text) (found : List Text) {ids left : List Text}
    → Thins ids left
    → Thins ids (drop_matched tok found left)
unfolding drop_matched has_text
matched-Thins tok (id ∷ []) r = drops id r
matched-Thins tok [] r = r
matched-Thins tok (a ∷ b ∷ found) {ids} {left} r =
    elim (Bool-cases (has_text tok (a ∷ b ∷ found))) [ inl e ↦ rw e (drops tok r) | inr e ↦ rw e r ]

pub drop_token-Thins :
    (t : Texts) (tok : Text) (s : SessionState) (ids : List Text)
    → Thins ids (drop_token t tok s ids)
unfolding drop_token
drop_token-Thins t tok s ids =
    let left = drop_resolved (resolve_deny_token t tok s) ids in
    matched-Thins tok (list_matches tok left) (resolved-Thins (resolve_deny_token t tok s) ids)

-- what `block_contact_id` does to the two lists
pub blocked-lists :
    (id : Text) (blocked muted : List Text)
    → IsApart blocked muted
    → IsApart (blocked ++ id ∷ []) (retain_other id muted)
unfolding retain_other
blocked-lists id blocked [] h = tt
blocked-lists id blocked (m ∷ ms) h = elim (Bool-cases (same_text m id)) [
  | inl e ↦ rw e (blocked-lists id blocked ms h.1)
  | inr e ↦ rw e (
    both m (has_text m blocked) (same_text id m) h.0 (same_text_sym id m ∙ e)
        (has-last m id blocked),
    blocked-lists id blocked ms h.1,
  )
]
  where
    both : (m : Text) (a b : Bool) → a ≡ false → b ≡ false → {c : Bool} → c ≡ (a || b) → c ≡ false
    both m a b x y z = cc (x, y, z)

-- what `mute_contact_id` does
pub muted-lists :
    (id : Text) (blocked muted : List Text)
    → has_text id blocked ≡ false
    → IsApart blocked muted
    → IsApart blocked (muted ++ id ∷ [])
muted-lists id blocked muted free h = All-append _ muted (id ∷ []) h (free, tt)

-- the keys after a slot was set: the same, or one more
pub slot-IsDistinct :
    (id : Text) (bytes : Bytes) (rs : List (Text × Bytes))
    → IsDistinct (keys_of rs)
    → IsDistinct (keys_of (set_slot id bytes rs))
unfolding set_slot has_text
slot-IsDistinct id bytes [] d = (refl, tt)
slot-IsDistinct id bytes ((k, old) ∷ rs) d = elim (Bool-cases (same_text k id)) [
  | inl e ↦ rw e d
  | inr e ↦ rw e (absent k rs e d.0, slot-IsDistinct id bytes rs d.1)
]
  where
    absent :
        (j : Text) (qs : List (Text × Bytes))
        → same_text j id ≡ false
        → has_text j (keys_of qs) ≡ false
        → has_text j (keys_of (set_slot id bytes qs)) ≡ false
    absent j [] e h = ground (arith, same_text_sym id j, e)
    absent j ((l, b) ∷ qs) e h = ground (arith, absent j qs e, h)

pub keep-IsDistinct :
    (test : Text → Bool) (rs : List (Text × Bytes))
    → IsDistinct (keys_of rs)
    → IsDistinct (keys_of (keep test rs))
unfolding keep has_text
keep-IsDistinct test [] d = tt
keep-IsDistinct test ((k, b) ∷ rs) d = ground (arith, keep-IsDistinct test rs d.1, absent k rs d.0)
  where
    absent :
        (j : Text) (qs : List (Text × Bytes))
        → has_text j (keys_of qs) ≡ false
        → has_text j (keys_of (keep test qs)) ≡ false
    absent j [] h = refl
    absent j ((l, b) ∷ qs) h = ground (arith, absent j qs, h)

pub length-keep_le :
    (test : Text → Bool) (rs : List (Text × Bytes)) → length (keep test rs) ≤ length rs
unfolding keep
length-keep_le test [] = omega arith
length-keep_le test ((k, b) ∷ rs) = ground (arith, length-keep_le test rs)

pub remove_first-shorter :
    (onion : Text) (frame : Bytes) (q : List (Text × Bytes)) {kept : List (Text × Bytes)}
    → remove_first onion frame q ≡ some kept
    → suc (length kept) ≡ length q
unfolding remove_first
remove_first-shorter onion frame [] h = cc
remove_first-shorter onion frame ((o, f) ∷ q) h = elim (Option-cases (remove_first onion frame q)) [
  | inl e ↦ ground (arith, e, h)
  | inr (rest, e) ↦ ground (arith, e, h, remove_first-shorter onion frame q e)
]

pub length-set_slot_le :
    (id : Text) (bytes : Bytes) (rs : List (Text × Bytes))
    → length (set_slot id bytes rs) ≤ length rs + 1
unfolding set_slot
length-set_slot_le id bytes [] = omega arith
length-set_slot_le id bytes ((k, old) ∷ rs) = ground (arith, length-set_slot_le id bytes rs)

has-remove_at :
    (k : Text) (i : ℕ) (cs : List PersistedContact)
    → has_text k (ids_of cs) ≡ false
    → has_text k (ids_of (remove_at i cs)) ≡ false
unfolding remove_at has_text
has-remove_at k i [] h = refl
has-remove_at k zero (c ∷ cs) h = ground (arith, h)
has-remove_at k (suc i) (c ∷ cs) h = ground (arith, has-remove_at k i cs, h)

pub remove_at-IsDistinct :
    (i : ℕ) (cs : List PersistedContact)
    → IsDistinct (ids_of cs)
    → IsDistinct (ids_of (remove_at i cs))
unfolding remove_at
remove_at-IsDistinct i [] d = tt
remove_at-IsDistinct zero (c ∷ cs) d = d.1
remove_at-IsDistinct (suc i) (c ∷ cs) d =
    (has-remove_at c.id i cs d.0, remove_at-IsDistinct i cs d.1)

-- an update in place keeps the ids
pub ids-update_at :
    (i : ℕ) (new c : PersistedContact) (cs : List PersistedContact)
    → get_elem? cs i ≡ some c
    → new.id ≡ c.id
    → ids_of (update_at i new cs) ≡ ids_of cs
unfolding update_at
ids-update_at i new c [] h e = refl
ids-update_at zero new c (d ∷ cs) h e =
    let here : d ≡ c = cc h in ap (λ k. k ∷ ids_of cs) (e ∙ ap (λ b. b.id) (sym here))
ids-update_at (suc i) new c (d ∷ cs) h e = ap (λ ks. d.id ∷ ks) (ids-update_at i new c cs h e)

pub ids-append :
    (cs : List PersistedContact) (c : PersistedContact)
    → ids_of (cs ++ c ∷ []) ≡ ids_of cs ++ c.id ∷ []
ids-append [] c = refl
ids-append (d ∷ cs) c = ap (λ ks. d.id ∷ ks) (ids-append cs c)
