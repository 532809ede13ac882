-- ===== src/SessionPersist/Contacts.antt =====
-- session_persist.rs: contacts from signed links, their names, lookup by a token, and deletion.
pub mod Fresh
pub mod Trust
pub mod Erase
use hash_chat.Prelude.{
  ℕ, zero, suc, ◌+◌, Bool, true, false, not, ◌&&◌, ◌||◌, Option, none, some, List, [], ◌∷◌, ◌++◌,
  length, map, replicate, ltb, ◌==◌, if◌then◌else◌, Result, ok, err, panic, refuse_if, ok_or, ◌>>=◌,
  ◌>>◌,
}
use hash_chat.Prelude.Bytes.{Bytes}
use hash_chat.Prelude.Utf8.{Text, chars, same_text, is_blank, trim, to_ascii_lowercase}
use hash_chat.Prelude.Words.{has_text, retain_other}
use hash_chat.Prelude.Decimal.{decimal}
use hash_chat.GroupBook.{any_control}
use hash_chat.SessionPersist.{SessionState, PersistedContact, is_verified_id}

abbrev pub max_display_name_len : ℕ
max_display_name_len = 64

pub data NameError : Type 0 where
  empty_display_name display_name_too_long display_name_control looks_like_link : NameError
  unknown_contact : NameError

-- `str::starts_with`
unfoldable pub starts_with : Text → Text → Bool
starts_with [] s = true
starts_with (p ∷ ps) [] = false
starts_with (p ∷ ps) (x ∷ xs) = p == x && starts_with ps xs

-- `str::contains`
unfoldable pub contains : Text → Text → Bool
unfolding starts_with
contains part [] = is_blank part
contains part (x ∷ xs) = starts_with part (x ∷ xs) || contains part xs

unfoldable pub validate_display_name : Text → Result NameError Text
unfolding chars contains starts_with
validate_display_name name = do
  let trimmed = trim name
  refuse_if (is_blank trimmed) empty_display_name
  refuse_if (ltb max_display_name_len (length trimmed)) display_name_too_long
  refuse_if (any_control trimmed) display_name_control
  let lower = to_ascii_lowercase trimmed
  refuse_if (contains (chars "hashchat://") lower || starts_with (chars "hashchat:") lower)
      looks_like_link
  ok trimmed

-- the first contact that passes a test, with its position
abbrev pub later : Option (ℕ × PersistedContact) → Option (ℕ × PersistedContact)
later none = none
later (some (i, c)) = some (suc i, c)

unfoldable pub position :
    (PersistedContact → Bool) → List PersistedContact → Option (ℕ × PersistedContact)
position test [] = none
position test (c ∷ cs) = let rest = position test cs in if test c then some (0, c) else later rest

unfoldable pub update_at : ℕ → PersistedContact → List PersistedContact → List PersistedContact
update_at i new [] = []
update_at zero new (c ∷ cs) = new ∷ cs
update_at (suc i) new (c ∷ cs) = c ∷ update_at i new cs

unfoldable pub remove_at : ℕ → List PersistedContact → List PersistedContact
remove_at i [] = []
remove_at zero (c ∷ cs) = cs
remove_at (suc i) (c ∷ cs) = c ∷ remove_at i cs

abbrev pub has_id : Text → PersistedContact → Bool
has_id id c = same_text c.id id

abbrev pub or_else {ℓ} : {A : Type ℓ} → Option A → Option A → Option A
or_else none b = b
or_else (some a) b = some a

pub record ContactUpsert : Type 0 where
  pub id : Text
  pub was_update : Bool
  pub identity_changed : Bool
  pub previous : Option PersistedContact
  pub verified : Bool

-- the ids that a new contact must not take
unfoldable pub used_ids : SessionState → List Text
used_ids s =
    map (λ c. c.id) s.contacts
    ++ (s.verified_ids ++ (s.blocked_ids ++ (s.muted_ids ++ map (λ r. r.0) s.ratchets)))

-- `format!("c{n}")`
unfoldable pub numbered : ℕ → Text
numbered n = 99 ∷ decimal n

-- the loop, with the number of tries that it may still make
unfoldable pub fresh_from : ℕ → List Text → ℕ → Option Text
unfolding numbered
fresh_from zero used n = none
fresh_from (suc fuel) used n =
    let rest = fresh_from fuel used (n + 1) in
    if not (has_text (numbered n) used) then some (numbered n) else rest

unfoldable pub fresh_contact_id : SessionState → Option Text
unfolding fresh_from used_ids
fresh_contact_id s = fresh_from (suc (length (used_ids s))) (used_ids s) (length s.contacts + 1)

-- a link that was verified
pub record Link : Type 0 where
  pub onion : Text
  pub x25519 : Bytes
  pub ed25519 : Bytes

abbrev pub matches_both : Link → PersistedContact → Bool
matches_both l c = same_text c.onion l.onion && same_text c.ed25519 l.ed25519

abbrev pub matches_either : Link → PersistedContact → Bool
matches_either l c = same_text c.onion l.onion || same_text c.ed25519 l.ed25519

unfoldable pub find_existing : Link → List PersistedContact → Option (ℕ × PersistedContact)
unfolding position
find_existing l cs = or_else (position (matches_both l) cs) (position (matches_either l) cs)

unfoldable pub differs : Link → PersistedContact → Bool
differs l c =
    not (same_text c.onion l.onion)
    || not (same_text c.x25519 l.x25519)
    || not (same_text c.ed25519 l.ed25519)

abbrev pub link_contact : Link → Text → Text → PersistedContact
link_contact l id label = record {
  id = id;
  display_name = label;
  onion = l.onion;
  x25519 = l.x25519;
  ed25519 = l.ed25519;
}

-- a record of the link is there
unfoldable pub upsert_existing :
    Link → Text → ℕ → PersistedContact → SessionState → ContactUpsert × SessionState
unfolding differs is_verified_id update_at
upsert_existing l default_label i previous s =
    let changed = differs l previous in
    let label =
      if changed || is_blank previous.display_name then default_label else previous.display_name in
    let verified_ids =
      if changed then retain_other previous.id s.verified_ids else s.verified_ids in
    let after = record s {
      contacts = update_at i (link_contact l previous.id label) s.contacts;
      verified_ids = verified_ids;
    } in
    (
      record {
        id = previous.id;
        was_update = true;
        identity_changed = changed;
        previous = some previous;
        verified = is_verified_id previous.id after;
      },
      after,
    )

unfoldable pub upsert_new : Link → Text → Text → SessionState → ContactUpsert × SessionState
upsert_new l default_label id s = (
  record {
    id = id;
    was_update = false;
    identity_changed = false;
    previous = none;
    verified = false;
  },
  record s {
    contacts = s.contacts ++ link_contact l id default_label ∷ [];
    verified_ids = retain_other id s.verified_ids;
  },
)

-- none if the loop for a fresh id does not end
unfoldable pub upsert_contact_from_link :
    Link → Text → SessionState → Option (ContactUpsert × SessionState)
unfolding upsert_existing upsert_new find_existing fresh_contact_id
upsert_contact_from_link l default_label s = elim (find_existing l s.contacts) [
  | some (i, previous) ↦ some (upsert_existing l default_label i previous s)
  | none ↦ elim (fresh_contact_id s) [
    | some id ↦ some (upsert_new l default_label id s)
    | none ↦ none
  ]
]

unfoldable pub renamed :
    Text → SessionState → Option (ℕ × PersistedContact) → Result NameError (Unit {0}) × SessionState
unfolding update_at
renamed name s none = (err unknown_contact, s)
renamed name s (some (i, c)) =
    (ok tt, record s { contacts = update_at i (record c { display_name = name }) s.contacts })

unfoldable pub rename_checked :
    Text → SessionState → Result NameError Text → Result NameError (Unit {0}) × SessionState
unfolding renamed position
rename_checked contact_id s (err e) = (err e, s)
rename_checked contact_id s panic = (panic, s)
rename_checked contact_id s (ok name) =
    let id = trim contact_id in
    if is_blank id
    then (err unknown_contact, s)
    else renamed name s (position (has_id id) s.contacts)

unfoldable pub rename_contact_display_name :
    Text → Text → SessionState → Result NameError (Unit {0}) × SessionState
unfolding rename_checked validate_display_name
rename_contact_display_name contact_id new_name s =
    rename_checked contact_id s (validate_display_name new_name)

-- `eq_ignore_ascii_case`
unfoldable pub eq_ignore_ascii_case : Text → Text → Bool
eq_ignore_ascii_case a b = same_text (to_ascii_lowercase a) (to_ascii_lowercase b)

-- what is kept of the ratchets, or of the queue
unfoldable pub keep : (Text → Bool) → List (Text × Bytes) → List (Text × Bytes)
keep test [] = []
keep test ((k, bytes) ∷ rest) =
    let kept = keep test rest in if test k then (k, bytes) ∷ kept else kept

unfoldable pub goes_to : Text → Text → Bool
unfolding eq_ignore_ascii_case
goes_to onion dest = same_text dest onion || eq_ignore_ascii_case dest onion

unfoldable pub delete_at : Text → Text → ℕ → SessionState → SessionState
unfolding keep goes_to remove_at
delete_at id onion pos s = record s {
  contacts = remove_at pos s.contacts;
  ratchets = keep (λ rid. not (same_text rid id)) s.ratchets;
  pending = if is_blank onion then s.pending else keep (λ dest. not (goes_to onion dest)) s.pending;
  blocked_ids = retain_other id s.blocked_ids;
  muted_ids = retain_other id s.muted_ids;
  verified_ids = retain_other id s.verified_ids;
}

unfoldable pub deleted : Text → SessionState → Option (ℕ × PersistedContact) → Bool × SessionState
unfolding delete_at
deleted id s none = (false, s)
deleted id s (some (pos, c)) = (true, delete_at id c.onion pos s)

unfoldable pub delete_contact_secure : Text → SessionState → Bool × SessionState
unfolding deleted position
delete_contact_secure contact_id s =
    let id = trim contact_id in
    if is_blank id then (false, s) else deleted id s (position (has_id id) s.contacts)
