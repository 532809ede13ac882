-- ===== src/SessionPersist/Codec.antt =====
-- session_persist.rs: the state as a blob, and back. The read position is the rest of the bytes.
pub mod Ages
pub mod Blob
pub mod Fields
pub mod Options
pub mod Upgrade
use hash_chat.Prelude.{
  ℕ, zero, suc, min, ◌+◌, ◌*◌, ◌%◌, ◌^◌, ◌<◌, Bool, true, false, not, ◌&&◌, ◌||◌, Option, none,
  some, List, [], ◌∷◌, ◌++◌, map, length, take, drop, replicate, ltb, leb, ◌==◌, if◌then◌else◌,
  Result, ok, err, panic, ok_or, refuse_if, map_err, ◌>>=◌, ◌>>◌,
}
use hash_chat.Prelude.Bytes.{Bytes, be32, be64, from_be_bytes}
use hash_chat.Prelude.Utf8.{Text, as_bytes, from_utf8}
use hash_chat.Net.{NetConfig, NetModeError, default}
use hash_chat.Net.Persist.{to_persist_bytes, from_persist_bytes}
use hash_chat.ClockCheck.{advance_clock_mark}
use hash_chat.SendJitter.{max_send_jitter_secs}
use hash_chat.Invites.{InviteError, PendingInvites, from_bytes}
use hash_chat.SessionPersist.{
  SessionState, PersistedContact, IdentityOnionState, WipeSettings, from_identity,
  default_lock_timeout_secs, no_binary_digest,
}

pub data BlobError : Type 0 where
  empty_blob bad_version too_short truncated_len truncated_bytes utf8 : BlobError
  truncated_contacts truncated_keys truncated_ratchets truncated_pending bad_net_prefs : BlobError
  truncated_ttl truncated_list truncated_lock truncated_jitter truncated_mark : BlobError
  truncated_digest truncated_wipe bad_wipe_flag truncated_save bad_save_flag : BlobError
  bad_invites trailing_junk : BlobError

unfoldable pub write_len_bytes : Bytes → Bytes
write_len_bytes b = be32 (length b % 2 ^ 32) ++ b

-- `n` bytes, and what is left; or the error
unfoldable pub read_fixed : ℕ → BlobError → Bytes → Result BlobError (Bytes × Bytes)
read_fixed n e r = if ltb (length r) n then err e else ok (take n r, drop n r)

unfoldable pub read_word : ℕ → BlobError → Bytes → Result BlobError (ℕ × Bytes)
unfolding read_fixed
read_word n e r = do (b, r) ← read_fixed n e r; ok (from_be_bytes b, r)

unfoldable pub read_len_bytes : Bytes → Result BlobError (Bytes × Bytes)
unfolding read_word read_fixed
read_len_bytes r = do (n, r) ← read_word 4 truncated_len r; read_fixed n truncated_bytes r

unfoldable pub write_len_str : Text → Bytes
unfolding write_len_bytes
write_len_str s = write_len_bytes (as_bytes s)

unfoldable pub read_len_str : Bytes → Result BlobError (Text × Bytes)
unfolding read_len_bytes
read_len_str r = do (b, r) ← read_len_bytes r; s ← ok_or (from_utf8 b) utf8; ok (s, r)

module _ {A : Type 0} where
  -- the items one after the other
  unfoldable pub write_all : (A → Bytes) → List A → Bytes
  write_all write [] = []
  write_all write (a ∷ items) = write a ++ write_all write items

  -- `for _ in 0..n`
  unfoldable pub read_all :
      (Bytes → Result BlobError (A × Bytes)) → ℕ → Bytes → Result BlobError (List A × Bytes)
  read_all read zero r = ok ([], r)
  read_all read (suc n) r = do (a, r) ← read r; (items, r) ← read_all read n r; ok (a ∷ items, r)

  -- the number of items, and the items
  unfoldable pub write_counted : (A → Bytes) → List A → Bytes
  unfolding write_all
  write_counted write items = be32 (length items % 2 ^ 32) ++ write_all write items

  unfoldable pub read_counted :
      (Bytes → Result BlobError (A × Bytes)) → BlobError → Bytes → Result BlobError (List A × Bytes)
  unfolding read_word read_all
  read_counted read e r = do (n, r) ← read_word 4 e r; read_all read n r

  -- a field that blobs have since some version
  unfoldable pub since :
      Bool → A → (Bytes → Result BlobError (A × Bytes)) → Bytes → Result BlobError (A × Bytes)
  since present absent read r = elim present [ true ↦ read r | false ↦ ok (absent, r) ]

unfoldable pub write_string_list : List Text → Bytes
unfolding write_counted
write_string_list items = write_counted write_len_str items

unfoldable pub read_string_list : Bytes → Result BlobError (List Text × Bytes)
unfolding read_counted
read_string_list r = read_counted read_len_str truncated_list r

unfoldable pub contact_bytes : PersistedContact → Bytes
unfolding write_len_str
contact_bytes c =
    write_len_str c.id
    ++ (write_len_str c.display_name ++ (write_len_str c.onion ++ (c.x25519 ++ c.ed25519)))

unfoldable pub read_contact : Bytes → Result BlobError (PersistedContact × Bytes)
unfolding read_len_str read_fixed
read_contact r = do
  (id, r) ← read_len_str r
  (display_name, r) ← read_len_str r
  (onion, r) ← read_len_str r
  (keys, r) ← read_fixed 64 truncated_keys r
  ok (
    record {
      id = id;
      display_name = display_name;
      onion = onion;
      x25519 = take 32 keys;
      ed25519 = drop 32 keys;
    },
    r,
  )

-- a ratchet under its contact's id, or a frame for an onion
unfoldable pub pair_bytes : Text × Bytes → Bytes
unfolding write_len_str write_len_bytes
pair_bytes (s, b) = write_len_str s ++ write_len_bytes b

unfoldable pub read_pair : Bytes → Result BlobError ((Text × Bytes) × Bytes)
unfolding read_len_str read_len_bytes
read_pair r = do (s, r) ← read_len_str r; (b, r) ← read_len_bytes r; ok ((s, b), r)

-- `WipeSettings::to_bytes` and `WipeSettings::from_bytes`
unfoldable pub wipe_bytes : WipeSettings → Bytes
wipe_bytes w = be32 w.deadman_days ++ (be32 w.failwipe_limit ++ w.duress_digest)

unfoldable pub wipe_of : Bytes → WipeSettings
wipe_of b = record {
  deadman_days = from_be_bytes (take 4 b);
  failwipe_limit = from_be_bytes (take 4 (drop 4 b));
  duress_digest = drop 8 b;
}

-- a flag, and the bytes of the value or zeros
unfoldable pub optional_bytes : ℕ → Option Bytes → Bytes
optional_bytes n none = 0 ∷ replicate n 0
optional_bytes n (some b) = 1 ∷ b

-- what the flag says of the bytes behind it
unfoldable pub flagged : BlobError → ℕ → Bytes → Result BlobError (Option Bytes)
flagged e flag raw = if flag == 0 then ok none else if flag == 1 then ok (some raw) else err e

unfoldable pub read_optional :
    ℕ → BlobError → BlobError → Bytes → Result BlobError (Option Bytes × Bytes)
unfolding read_fixed flagged
read_optional n truncated bad r = do
  (b, r) ← read_fixed (1 + n) truncated r
  o ← flagged bad (from_be_bytes (take 1 b)) (drop 1 b)
  ok (o, r)

abbrev pub map_option {ℓ κ} : {A : Type ℓ} {B : Type κ} → (A → B) → Option A → Option B
map_option f none = none
map_option f (some a) = some (f a)

unfoldable pub read_wipe : Bytes → Result BlobError (Option WipeSettings × Bytes)
unfolding read_optional wipe_of
read_wipe r = do
  (o, r) ← read_optional 40 truncated_wipe bad_wipe_flag r
  ok (map_option wipe_of o, r)

unfoldable pub read_save_id : Bytes → Result BlobError (Option Bytes × Bytes)
unfolding read_optional
read_save_id r = read_optional 16 truncated_save bad_save_flag r

unfoldable pub read_prefs : Bytes → Result BlobError (NetConfig × Bytes)
unfolding read_len_bytes
read_prefs r = do
  (prefs, r) ← read_len_bytes r
  net ← map_err (λ e. bad_net_prefs) (from_persist_bytes prefs)
  ok (net, r)

unfoldable pub read_jitter : Bytes → Result BlobError (ℕ × Bytes)
unfolding read_word
read_jitter r = do (secs, r) ← read_word 4 truncated_jitter r; ok (min secs max_send_jitter_secs, r)

-- the record must be one that opens, and is then kept as it is
unfoldable pub read_invites : Bytes → Result BlobError (Bytes × Bytes)
unfolding read_len_bytes
read_invites r = do
  (raw, r) ← read_len_bytes r
  p ← map_err (λ e. bad_invites) (from_bytes raw)
  ok (raw, r)

abbrev pub is_empty : Bytes → Bool
is_empty [] = true
is_empty (b ∷ bs) = false
