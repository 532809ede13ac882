-- ===== src/SessionPersist/KeepsContacts.antt =====
-- session_persist.rs: the invariant after the operations on the contacts, and after a save.
use hash_chat.Prelude.{
  ℕ, ◌≤◌, ◌≡◌, refl, ap, sym, ◌∙◌, subst, Bool, true, false, not, Option, none, some, List, [],
  get_elem?, length, arith, if◌then◌else◌, Result, ok, err, panic, Bool-cases, inl, inr,
}
use hash_chat.Prelude.Bytes.{Bytes}
use hash_chat.Prelude.Utf8.{Text, is_blank, trim}
use hash_chat.Prelude.Words.{has_text, retain_other, IsDistinct, IsDistinct-retain, IsDistinct-last}
use hash_chat.SessionPersist.{SessionState, PersistedContact, for_disk, is_extreme}
use hash_chat.SessionPersist.Contacts.{
  Link, ContactUpsert, NameError, upsert_contact_from_link, upsert_existing, upsert_new,
  find_existing, fresh_contact_id, rename_contact_display_name, rename_checked, renamed,
  validate_display_name, delete_contact_secure, deleted, delete_at, position, has_id, differs, keep,
  goes_to,
}
use hash_chat.SessionPersist.Contacts.Fresh.{fresh_lem}
use hash_chat.SessionPersist.Contacts.Trust.{position-some, found_stored}
use hash_chat.SessionPersist.Valid.{
  IsValid, Thins, thin-IsDistinct, thin_blocked, thin_muted, drops, same, keep-IsDistinct,
  length-keep_le, remove_at-IsDistinct, ids-update_at, ids-append, ids_of,
}

-- the same ids, and perhaps fewer that are verified
pub contacts-IsValid :
    (s : SessionState) (cs : List PersistedContact) {verified : List Text}
    → IsDistinct (ids_of cs)
    → Thins s.verified_ids verified
    → IsValid s
    → IsValid (record s { contacts = cs; verified_ids = verified })
contacts-IsValid s cs d r v = record {
  contacts = d;
  ratchets = v.ratchets;
  queue = v.queue;
  lists = record {
    blocked = v.lists.blocked;
    muted = v.lists.muted;
    verified = thin-IsDistinct r v.lists.verified;
    apart = v.lists.apart;
  };
}

pub if-Thins :
    (b : Bool) (id : Text) (ids : List Text) → Thins ids (if b then retain_other id ids else ids)
if-Thins true id ids = drops id same
if-Thins false id ids = same

pub existing-IsValid :
    (l : Link) (label : Text) (i : ℕ) (c : PersistedContact) (s : SessionState)
    → get_elem? s.contacts i ≡ some c
    → IsValid s
    → IsValid (upsert_existing l label i c s).1
unfolding upsert_existing
existing-IsValid l label i c s h v =
    contacts-IsValid s _ (subst IsDistinct (sym (ids-update_at i _ c s.contacts h refl)) v.contacts)
      (if-Thins (differs l c) c.id s.verified_ids) v

pub new-IsValid :
    (l : Link) (label id : Text) (s : SessionState)
    → has_text id (ids_of s.contacts) ≡ false
    → IsValid s
    → IsValid (upsert_new l label id s).1
unfolding upsert_new
new-IsValid l label id s free v =
    contacts-IsValid s _
      (subst IsDistinct (sym (ids-append s.contacts _))
        (IsDistinct-last id (ids_of s.contacts) free v.contacts))
      (drops id same) v

pub upsert-IsValid :
    (l : Link) (label : Text) (s : SessionState) {u : ContactUpsert} {after : SessionState}
    → upsert_contact_from_link l label s ≡ some (u, after)
    → IsValid s
    → IsValid after
unfolding upsert_contact_from_link
upsert-IsValid l label s {u} {after} run v = by_found (find_existing l s.contacts) refl run
  where
    ended :
        {r : ContactUpsert × SessionState} → some r ≡ some (u, after) → IsValid r.1 → IsValid after
    ended e w = subst (λ x. IsValid x.1) (inj e) w
      where
        inj : {x y : ContactUpsert × SessionState} → some x ≡ some y → x ≡ y
        inj q = cc

    by_found :
        (o : Option (ℕ × PersistedContact))
        → find_existing l s.contacts ≡ o
        → (elim o [
          | some (i, previous) ↦ some (upsert_existing l label i previous s)
          | none ↦ elim (fresh_contact_id s) [
            | some id ↦ some (upsert_new l label id s)
            | none ↦ none
          ]
        ]
            ≡ some (u, after))
        → IsValid after
    by_found (some (i, c)) e h =
        ended h (existing-IsValid l label i c s (found_stored l s.contacts e) v)
    by_found none e h =
        let (id, found, fresh) = fresh_lem s in
        ended (by_id (fresh_contact_id s) found h) (new-IsValid l label id s fresh.contact v)
      where
        by_id :
            (o : Option Text) {id : Text}
            → o ≡ some id
            → (elim o [ some id ↦ some (upsert_new l label id s) | none ↦ none ] ≡ some (u, after))
            → some (upsert_new l label id s) ≡ some (u, after)
        by_id none q k = cc
        by_id (some own) {id} q k =
            let same_id : id ≡ own = cc in ap (λ i. some (upsert_new l label i s)) same_id ∙ k

pub renamed-IsValid :
    (name : Text) (s : SessionState) (o : Option (ℕ × PersistedContact))
    → ((i : ℕ) (c : PersistedContact) → o ≡ some (i, c) → get_elem? s.contacts i ≡ some c)
    → IsValid s
    → IsValid (renamed name s o).1
unfolding renamed
renamed-IsValid name s none h v = v
renamed-IsValid name s (some (i, c)) h v =
    contacts-IsValid s _
      (subst IsDistinct (sym (ids-update_at i _ c s.contacts (h i c refl) refl)) v.contacts) same v

pub rename-IsValid :
    (contact_id new_name : Text) (s : SessionState)
    → IsValid s
    → IsValid (rename_contact_display_name contact_id new_name s).1
unfolding rename_contact_display_name rename_checked
rename-IsValid contact_id new_name s v = by_name (validate_display_name new_name)
  where
    by_name : (r : Result NameError Text) → IsValid (rename_checked contact_id s r).1
    by_name (err e) = v
    by_name panic = v
    by_name (ok name) = elim (Bool-cases (is_blank (trim contact_id))) [
      | inl e ↦ rw e v
      | inr e ↦ rw e (
          renamed-IsValid name s (position (has_id (trim contact_id)) s.contacts)
            (λ i c h. (position-some (has_id (trim contact_id)) s.contacts h).0) v)
    ]

pub shorter_queue :
    (onion : Text) (q : List (Text × Bytes)) (test : Text → Bool)
    → length (if is_blank onion then q else keep test q) ≤ length q
shorter_queue onion q test = ground (arith, length-keep_le test q)

pub delete_at-IsValid :
    (id onion : Text) (pos : ℕ) (s : SessionState) → IsValid s → IsValid (delete_at id onion pos s)
unfolding delete_at
delete_at-IsValid id onion pos s v = record {
  contacts = remove_at-IsDistinct pos s.contacts v.contacts;
  ratchets = keep-IsDistinct _ s.ratchets v.ratchets;
  queue = omega (arith, shorter_queue onion s.pending (λ dest. not (goes_to onion dest)), v.queue);
  lists = record {
    blocked = IsDistinct-retain id s.blocked_ids v.lists.blocked;
    muted = IsDistinct-retain id s.muted_ids v.lists.muted;
    verified = IsDistinct-retain id s.verified_ids v.lists.verified;
    apart =
        thin_muted (retain_other id s.blocked_ids) (drops id same)
          (thin_blocked s.muted_ids (drops id same) v.lists.apart);
  };
}

pub delete-IsValid :
    (contact_id : Text) (s : SessionState)
    → IsValid s
    → IsValid (delete_contact_secure contact_id s).1
unfolding delete_contact_secure deleted
delete-IsValid contact_id s v = elim (Bool-cases (is_blank (trim contact_id))) [
  | inl e ↦ rw e v
  | inr e ↦ rw e (by_found (position (has_id (trim contact_id)) s.contacts))
]
  where
    by_found : (o : Option (ℕ × PersistedContact)) → IsValid (deleted (trim contact_id) s o).1
    by_found none = v
    by_found (some (pos, c)) = delete_at-IsValid (trim contact_id) c.onion pos s v

pub empty-IsValid :
    (s : SessionState)
    → IsValid (record s {
      contacts = [];
      ratchets = [];
      pending = [];
      blocked_ids = [];
      muted_ids = [];
      verified_ids = [];
    })
empty-IsValid s = record {
  contacts = tt;
  ratchets = tt;
  queue = omega arith;
  lists = record { blocked = tt; muted = tt; verified = tt; apart = tt };
}

pub for_disk-IsValid : (s : SessionState) → IsValid s → IsValid (for_disk s)
unfolding for_disk
for_disk-IsValid s v = elim (Bool-cases (is_extreme s.net)) [
  | inl e ↦ rw e (empty-IsValid (record s { pending_invites = [] }))
  | inr e ↦ rw e v
]
