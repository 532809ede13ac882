-- ===== src/SessionPersist/Contacts/Trust.antt =====
-- session_persist.rs: what the verified set says after a link was imported.
use hash_chat.Prelude.{
  ℕ, suc, ◌≡◌, refl, ap, sym, ◌∙◌, Bool, true, false, not, ◌&&◌, ◌||◌, Option, none, some, List, [],
  ◌∷◌, get_elem?, if◌then◌else◌, Bool-cases, inl, inr,
}
use hash_chat.Prelude.Utf8.{Text, same_text}
use hash_chat.SessionPersist.{SessionState, PersistedContact, is_verified_id}
use hash_chat.SessionPersist.Contacts.{
  Link, ContactUpsert, find_existing, position, later, link_contact, or_else, matches_both,
  matches_either,
}

-- the record before has the link's onion and both of its keys
abbrev pub is_reimport : Link → Option PersistedContact → Bool
is_reimport l none = false
is_reimport l (some c) =
    same_text c.onion l.onion && (same_text c.x25519 l.x25519 && same_text c.ed25519 l.ed25519)

abbrev pub IsStored : Option PersistedContact → Text → List PersistedContact → Type 0
IsStored none id cs = Unit
IsStored (some c) id cs = ((i : ℕ) × (get_elem? cs i ≡ some c)) × (c.id ≡ id)

-- the upsert of a link in the state `s`, which ends in `u` and the state `after`
pub record IsUpsert (l : Link) (s : SessionState) (u : ContactUpsert) (after : SessionState)
    : Type 0 where
  pub stored :
      (i : ℕ) × (label : Text) × (get_elem? after.contacts i ≡ some (link_contact l u.id label))
  pub previous : IsStored u.previous u.id s.contacts
  pub verified : u.verified ≡ is_reimport l u.previous && is_verified_id u.id s
  pub others :
      (id : Text)
      → is_verified_id id after ≡ is_verified_id id s && (not (same_text u.id id) || u.verified)

later-some :
    (o : Option (ℕ × PersistedContact)) {i : ℕ} {c : PersistedContact}
    → later o ≡ some (i, c)
    → (j : ℕ) × (o ≡ some (j, c)) × (suc j ≡ i)
later-some none h = cc
later-some (some (j, d)) h = (j, cc, cc)

-- a position that is found holds the contact, which passes the test
pub position-some :
    (test : PersistedContact → Bool) (cs : List PersistedContact) {i : ℕ} {c : PersistedContact}
    → position test cs ≡ some (i, c)
    → (get_elem? cs i ≡ some c) × (test c ≡ true)
unfolding position
position-some test [] h = cc
position-some test (d ∷ cs) {i} {c} h = elim (Bool-cases (test d)) [
  | inl e ↦
      let found : Path (Option (ℕ × PersistedContact)) (some (0, d)) (some (i, c)) =
        sym (pick true e) ∙ h in
      let first : 0 ≡ i = cc in
      let same : d ≡ c = cc in
      (ap (get_elem? (d ∷ cs)) (sym first) ∙ ap some same, ap test (sym same) ∙ e)
  | inr e ↦
      let (j, found, same) = later-some (position test cs) (sym (pick false e) ∙ h) in
      let (at, passes) = position-some test cs found in
      (ap (get_elem? (d ∷ cs)) (sym same) ∙ at, passes)
]
  where
    pick :
        (b : Bool)
        → test d ≡ b
        → (if test d then some (0, d) else later (position test cs))
          ≡ (if b then some (0, d) else later (position test cs))
    pick b e = rw e refl

pub found_stored :
    (l : Link) (cs : List PersistedContact) {i : ℕ} {c : PersistedContact}
    → find_existing l cs ≡ some (i, c)
    → get_elem? cs i ≡ some c
unfolding find_existing
found_stored l cs h = pick (position (matches_both l) cs) refl h
  where
    pick :
        (o : Option (ℕ × PersistedContact)) {i : ℕ} {c : PersistedContact}
        → position (matches_both l) cs ≡ o
        → or_else o (position (matches_either l) cs) ≡ some (i, c)
        → get_elem? cs i ≡ some c
    pick none e h = (position-some (matches_either l) cs h).0
    pick (some found) e h = (position-some (matches_both l) cs (e ∙ h)).0
