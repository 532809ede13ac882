-- ===== src/SessionPersist/Tokens.antt =====
-- session_persist.rs: contacts named by a token, and ids taken off the policy lists by one.
use hash_chat.Prelude.{
  ℕ, Bool, true, false, not, ◌&&◌, ◌||◌, Option, none, some, List, [], ◌∷◌, length, replicate, ltb,
  if◌then◌else◌,
}
use hash_chat.Prelude.Utf8.{Text, same_text, is_blank, trim, to_ascii_lowercase}
use hash_chat.Prelude.Words.{has_text, retain_other}
use hash_chat.ContactLink.{Texts, sas_fingerprint}
use hash_chat.SessionPersist.{SessionState, PersistedContact}
use hash_chat.SessionPersist.Contacts.{position, has_id, eq_ignore_ascii_case, starts_with}

abbrev pub id_at : Option (ℕ × PersistedContact) → Option Text
id_at none = none
id_at (some (i, c)) = some c.id

-- `filter(|v| v == t || v.to_ascii_lowercase().starts_with(&tl))`
unfoldable pub list_matches : Text → List Text → List Text
list_matches t [] = []
list_matches t (v ∷ vs) =
    let rest = list_matches t vs in
    if same_text v t || starts_with (to_ascii_lowercase t) (to_ascii_lowercase v)
    then v ∷ rest
    else rest

-- the ids without what the token means in the list itself: its only match, or the id it is
unfoldable pub drop_matched : Text → List Text → List Text → List Text
drop_matched t (id ∷ []) ids = retain_other id ids
drop_matched t matches ids = if has_text t matches then retain_other t ids else ids

abbrev pub drop_resolved : Option Text → List Text → List Text
drop_resolved none ids = ids
drop_resolved (some id) ids = retain_other id ids

module _ (t : Texts) where
  -- `label`, `id` or SAS starts with the token, ignoring case
  unfoldable pub named_by : Text → PersistedContact → Bool
  unfolding sas_fingerprint
  named_by tl c =
      let label = if is_blank c.display_name then c.id else c.display_name in
      let sas = sas_fingerprint t c.ed25519 c.x25519 c.onion in
      starts_with tl (to_ascii_lowercase label)
      || starts_with tl (to_ascii_lowercase c.id)
      || not (same_text c.ed25519 (replicate 32 0))
        && not (is_blank c.onion)
        && starts_with tl (to_ascii_lowercase sas)

  unfoldable pub filter_named : Text → List PersistedContact → List PersistedContact
  unfolding named_by
  filter_named tl [] = []
  filter_named tl (c ∷ cs) =
      let rest = filter_named tl cs in if named_by tl c then c ∷ rest else rest

  -- the only contact of a list
  abbrev only : List PersistedContact → Option Text
  only [] = none
  only (c ∷ []) = some c.id
  only (c ∷ d ∷ cs) = none

  unfoldable pub resolve_deny_token : Text → SessionState → Option Text
  unfolding position filter_named eq_ignore_ascii_case
  resolve_deny_token token s =
      let tok = trim token in
      elim (is_blank tok) [
        | true ↦ none
        | false ↦ elim (position (has_id tok) s.contacts) [
          | some (i, c) ↦ some c.id
          | none ↦
              elim (position (λ c. same_text c.onion tok || eq_ignore_ascii_case c.onion tok)
                s.contacts) [
                  | some (i, c) ↦ some c.id
                  | none ↦ only (filter_named (to_ascii_lowercase tok) s.contacts)
                ]
        ]
      ]

  -- the ids without the one that the token names
  unfoldable pub drop_token : Text → SessionState → List Text → List Text
  unfolding resolve_deny_token list_matches drop_matched
  drop_token tok s ids =
      let left = drop_resolved (resolve_deny_token tok s) ids in
      drop_matched tok (list_matches tok left) left

  unfoldable pub unverify_contact_id : Text → SessionState → Bool × SessionState
  unfolding drop_token
  unverify_contact_id token s =
      let tok = trim token in
      let left = drop_token tok s s.verified_ids in
      if is_blank tok
      then (false, s)
      else (ltb (length left) (length s.verified_ids), record s { verified_ids = left })

  unfoldable pub unblock_contact_id : Text → SessionState → Bool × SessionState
  unfolding drop_token
  unblock_contact_id token s =
      let tok = trim token in
      let left = drop_token tok s s.blocked_ids in
      if is_blank tok
      then (false, s)
      else (ltb (length left) (length s.blocked_ids), record s { blocked_ids = left })

  unfoldable pub unmute_contact_id : Text → SessionState → Bool × SessionState
  unfolding drop_token
  unmute_contact_id token s =
      let tok = trim token in
      let left = drop_token tok s s.muted_ids in
      if is_blank tok
      then (false, s)
      else (ltb (length left) (length s.muted_ids), record s { muted_ids = left })
