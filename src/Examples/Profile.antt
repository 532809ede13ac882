-- ===== src/Examples/Profile.antt =====
-- A profile with two contacts.
use hash_chat.Prelude.{
  ℕ, ◌≡◌, refl, ap, Bool, false, Option, none, some, List, [], ◌∷◌, length, replicate, ok, arith,
  ◌+◌, ◌^◌, ◌<◌, inl,
}
use hash_chat.Prelude.Bytes.{be32}
use hash_chat.Prelude.Utf8.{Text, IsText, as_bytes, encode_char}
use hash_chat.Net.{
  NetConfig, PostureProfile, mode_str, dns_str, posture_str, standard, default, extreme,
}
use hash_chat.Net.Persist.{to_persist_bytes, write_persist_str, flag_str}
use hash_chat.Net.Ages.{bridgeless}
use hash_chat.SessionPersist.{
  SessionState, PersistedContact, IdentityOnionState, from_identity_with_net, block_contact_id,
  mute_contact_id,
}
use hash_chat.SessionPersist.Pending.{queue_pending, ack_pending_frame, set_ratchet_bytes}
use hash_chat.SessionPersist.Contacts.{Link, fresh_contact_id, delete_contact_secure}
use hash_chat.SessionPersist.Contacts.Fresh.{IsFresh, fresh_lem}
use hash_chat.SessionPersist.Valid.{IsValid}
use hash_chat.SessionPersist.Life.{
  starts, next, blocks, mutes, queues, acks, sets_ratchet, session-Run-IsValid,
}
use hash_chat.SessionPersist.Codec.Blob.{deserialize_blob}
use hash_chat.SessionPersist.Codec.Fields.{IsShort, IsContact}
use hash_chat.SessionPersist.Codec.Options.{IsPrefs}
use hash_chat.SessionPersist.Codec.Ages.{IsBlob, blob_of, upgraded}
use hash_chat.SessionPersist.Codec.Upgrade.{load_lem, no-IsInvites_read}
use hash_chat.Examples.ToyLinks.{toy_texts}

abbrev identity : IdentityOnionState
identity = record { seed = replicate 32 1; onion = 97 ∷ []; onion_key = [] }

-- "c1" and "c2"
abbrev first : Text
first = 99 ∷ 49 ∷ []

abbrev second : Text
second = 99 ∷ 50 ∷ []

abbrev contact : Text → Text → ℕ → PersistedContact
contact id onion k = record {
  id = id;
  display_name = 120 ∷ [];
  onion = onion;
  x25519 = replicate 32 k;
  ed25519 = replicate 32 (k + 1);
}

abbrev profile : NetConfig → SessionState
profile net = record {
  identity = identity;
  contacts = contact first (98 ∷ []) 2 ∷ contact second (99 ∷ []) 4 ∷ [];
  ratchets = (first, 1 ∷ 2 ∷ []) ∷ (second, []) ∷ [];
  pending = (98 ∷ [], 7 ∷ []) ∷ (99 ∷ [], 8 ∷ []) ∷ [];
  net = net;
  disappear_ttl_secs = 60;
  blocked_ids = second ∷ [];
  muted_ids = first ∷ [];
  verified_ids = first ∷ [];
  lock_timeout_secs = 300;
  send_jitter_secs = 5;
  clock_mark_unix = 1000;
  binary_digest = replicate 32 0;
  wipe_settings =
      some (record { deadman_days = 7; failwipe_limit = 5; duress_digest = replicate 32 9 });
  save_id = some (replicate 16 3);
  pending_invites = [];
}

-- the first contact's keys with a new address
abbrev moved : Link
moved = record { onion = 100 ∷ []; x25519 = replicate 32 2; ed25519 = replicate 32 3 }

fresh_lem_example :
    (id : Text) × (fresh_contact_id (profile default) ≡ some id) × IsFresh (profile default) id
fresh_lem_example = fresh_lem (profile default)

abbrev after_delete : SessionState
after_delete = (delete_contact_secure first (profile default)).1

session-Run-IsValid_example :
    IsValid
      (ack_pending_frame
        (98 ∷ [])
        (7 ∷ [])
        (queue_pending
          (98 ∷ [])
          (7 ∷ [])
          (mute_contact_id first
            (block_contact_id first (
              set_ratchet_bytes first
                (1 ∷ [])
                (from_identity_with_net identity default))).1).1).1).1
session-Run-IsValid_example = session-Run-IsValid toy_texts (
    next
      (next
        (next (next (next (starts identity default) (sets_ratchet first (1 ∷ []))) (blocks first))
          (mutes first))
        (queues (98 ∷ []) (7 ∷ [])))
      (acks (98 ∷ []) (7 ∷ [])))

short : (s : Text) → IsText s → length (as_bytes s) < 2 ^ 32 → IsShort s
short s t h = record { text = t; size = h }

contact-IsContact :
    (id onion : Text) (k : ℕ) → IsShort id → IsShort onion → IsContact (contact id onion k)
unfolding as_bytes encode_char
contact-IsContact id onion k v w = record {
  id = v;
  display_name = short (120 ∷ []) (omega arith) (omega arith);
  onion = w;
  x25519 = refl;
  ed25519 = refl;
}

profile-IsBlob : (net : NetConfig) → IsPrefs net → IsBlob (profile net)
unfolding as_bytes encode_char
profile-IsBlob net prefs =
    let c1 = short first (omega arith) (omega arith) in
    let c2 = short second (omega arith) (omega arith) in
    let b = short (98 ∷ []) (omega arith) (omega arith) in
    let d = short (99 ∷ []) (omega arith) (omega arith) in
    record {
      seed = refl;
      onion = short (97 ∷ []) (omega arith) (omega arith);
      onion_key = omega arith;
      contacts = record {
        few = omega arith;
        each = (
          contact-IsContact first (98 ∷ []) 2 c1 b,
          (contact-IsContact second (99 ∷ []) 4 c2 d, tt),
        );
      };
      ratchets = record {
        few = omega arith;
        each = (
          record { key = c1; size = omega arith },
          (record { key = c2; size = omega arith }, tt),
        );
      };
      pending = record {
        few = omega arith;
        each =
            (record { key = b; size = omega arith }, (record { key = d; size = omega arith }, tt));
      };
      prefs = prefs;
      ttl = omega arith;
      blocked = record { few = omega arith; each = (c2, tt) };
      muted = record { few = omega arith; each = (c1, tt) };
      verified = record { few = omega arith; each = (c1, tt) };
      lock = omega arith;
      jitter = omega arith;
      mark = omega arith;
      digest = refl;
      wipe = record { days = omega arith; limit = omega arith; digest = refl };
      save = refl;
      invites = no-IsInvites_read;
    }

prefs_size :
    (p : PostureProfile) → length (to_persist_bytes (record default { posture = p })) < 2 ^ 32
unfolding to_persist_bytes as_bytes encode_char write_persist_str be32 mode_str dns_str posture_str
    flag_str
prefs_size standard = omega arith
prefs_size extreme = omega arith

default-IsPrefs : IsPrefs default
default-IsPrefs = record {
  size = prefs_size standard;
  locked = record { locked = inl refl };
  address = tt;
  custom_set = refl;
}

abbrev hardened : NetConfig
hardened = record default { posture = extreme }

load_lem_example :
    deserialize_blob (blob_of bridgeless 5 2000 (profile default))
    ≡ ok (upgraded bridgeless 5 2000 (profile default))
load_lem_example =
    load_lem bridgeless 5 2000 (profile default) (omega arith) (omega arith) (omega arith)
      (profile-IsBlob default default-IsPrefs)
