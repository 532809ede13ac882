-- ===== src/SessionPersist/Codec/Blob.antt =====
-- session_persist.rs: `serialize_blob_at` and `deserialize_blob`.
use hash_chat.Prelude.{
  ℕ, ◌+◌, not, ◌&&◌, none, [], ◌∷◌, ◌++◌, map, length, take, drop, ltb, leb, ◌==◌, if◌then◌else◌,
  Result, ok, err, refuse_if, ◌>>=◌, ◌>>◌,
}
use hash_chat.Prelude.Bytes.{Bytes, be32, be64}
use hash_chat.Net.{default}
use hash_chat.Net.Persist.{to_persist_bytes}
use hash_chat.ClockCheck.{advance_clock_mark}
use hash_chat.SessionPersist.{
  SessionState, IdentityOnionState, from_identity, default_lock_timeout_secs, no_binary_digest,
}
use hash_chat.SessionPersist.Codec.{
  BlobError, empty_blob, bad_version, too_short, truncated_contacts, truncated_ratchets,
  truncated_pending, truncated_ttl, truncated_lock, truncated_mark, truncated_digest, trailing_junk,
  write_len_bytes, write_len_str, write_string_list, write_counted, contact_bytes, pair_bytes,
  wipe_bytes, optional_bytes, map_option, read_fixed, read_word, read_len_bytes, read_len_str,
  read_string_list, read_counted, read_contact, read_pair, read_wipe, read_save_id, read_prefs,
  read_jitter, read_invites, since, is_empty,
}

unfoldable pub serialize_blob_at : SessionState → ℕ → Bytes
unfolding write_len_bytes write_len_str write_string_list write_counted contact_bytes pair_bytes
    wipe_bytes optional_bytes
serialize_blob_at s now_unix =
    13 ∷ s.identity.seed
    ++ (write_len_str s.identity.onion
        ++ (write_len_bytes s.identity.onion_key
            ++ (write_counted contact_bytes s.contacts
                ++ (write_counted pair_bytes s.ratchets
                    ++ (write_counted pair_bytes s.pending
                        ++ (write_len_bytes (to_persist_bytes s.net)
                            ++ (be32 s.disappear_ttl_secs
                                ++ (write_string_list s.blocked_ids
                                    ++ (write_string_list s.muted_ids
                                        ++ (write_string_list s.verified_ids
                                            ++ (be32 s.lock_timeout_secs
                                                ++ (be32 s.send_jitter_secs
                                                    ++ (be64 (
                                                          advance_clock_mark s.clock_mark_unix
                                                            now_unix)
                                                        ++ (s.binary_digest
                                                            ++ (optional_bytes 40
                                                            (map_option wipe_bytes s.wipe_settings)
                                                            ++ (optional_bytes 16 s.save_id
                                                            ++ write_len_bytes
                                                            s.pending_invites))))))))))))))))

-- what follows the queue, as it is read at a version
unfoldable pub read_extras : ℕ → SessionState → Bytes → Result BlobError (SessionState × Bytes)
unfolding since read_prefs read_word read_string_list read_jitter read_fixed read_wipe read_save_id
    read_invites
read_extras ver s r = do
  (net, r) ← since (leb 3 ver) default read_prefs r
  (ttl, r) ← since (leb 4 ver) 0 (read_word 4 truncated_ttl) r
  (blocked, r) ← since (leb 5 ver) [] read_string_list r
  (muted, r) ← since (leb 5 ver) [] read_string_list r
  (verified, r) ← since (leb 6 ver) (map (λ c. c.id) s.contacts) read_string_list r
  (lock, r) ← since (leb 7 ver) default_lock_timeout_secs (read_word 4 truncated_lock) r
  (jitter, r) ← since (leb 8 ver) 0 read_jitter r
  (mark, r) ← since (leb 9 ver) 0 (read_word 8 truncated_mark) r
  (digest, r) ← since (leb 10 ver) no_binary_digest (read_fixed 32 truncated_digest) r
  (wipe, r) ← since (leb 11 ver) none read_wipe r
  (save_id, r) ← since (leb 12 ver) none read_save_id r
  (invites, r) ← since (leb 13 ver) [] read_invites r
  ok (
    record s {
      net = net;
      disappear_ttl_secs = ttl;
      blocked_ids = blocked;
      muted_ids = muted;
      verified_ids = verified;
      lock_timeout_secs = lock;
      send_jitter_secs = jitter;
      clock_mark_unix = mark;
      binary_digest = digest;
      wipe_settings = wipe;
      save_id = save_id;
      pending_invites = invites;
    },
    r,
  )

-- the lists of a blob since version 2, and what follows
unfoldable pub read_lists : ℕ → IdentityOnionState → Bytes → Result BlobError SessionState
unfolding read_counted read_contact read_pair read_extras from_identity
read_lists ver identity r = do
  (contacts, r) ← read_counted read_contact truncated_contacts r
  (ratchets, r) ← read_counted read_pair truncated_ratchets r
  (pending, r) ← read_counted read_pair truncated_pending r
  let s = record (from_identity identity) {
    contacts = contacts;
    ratchets = ratchets;
    pending = pending;
  }
  (loaded, r) ← read_extras ver s r
  refuse_if (not (is_empty r)) trailing_junk
  ok loaded

-- a blob of version `ver`, without that byte
unfoldable pub read_versioned : ℕ → Bytes → Result BlobError SessionState
unfolding read_len_str read_len_bytes read_lists from_identity
read_versioned ver r = do
  refuse_if (not (leb 1 ver && leb ver 13)) bad_version
  refuse_if (ltb (1 + length r) 33) too_short
  (onion, rest) ← read_len_str (drop 32 r)
  (onion_key, rest) ← read_len_bytes rest
  let identity : IdentityOnionState = record {
    seed = take 32 r;
    onion = onion;
    onion_key = onion_key;
  }
  if ver == 1 then ok (from_identity identity) else read_lists ver identity rest

unfoldable pub deserialize_blob : Bytes → Result BlobError SessionState
unfolding read_versioned
deserialize_blob [] = err empty_blob
deserialize_blob (ver ∷ r) = read_versioned ver r
