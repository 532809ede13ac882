-- ===== src/SessionPersist/Codec/Ages.antt =====
-- session_persist.rs: the layouts that a blob had, and what each of them keeps of a state.
use hash_chat.Prelude.{
  ℕ, ◌^◌, ◌≤◌, ◌<◌, ◌≡◌, none, List, [], ◌∷◌, ◌++◌, map, length, leb, if◌then◌else◌, All,
}
use hash_chat.Prelude.Bytes.{Bytes, be32, be64}
use hash_chat.Net.{default}
use hash_chat.Net.Ages.{Age, aged, prefs_bytes}
use hash_chat.ClockCheck.{advance_clock_mark}
use hash_chat.SendJitter.{max_send_jitter_secs}
use hash_chat.SessionPersist.{SessionState, default_lock_timeout_secs, no_binary_digest}
use hash_chat.SessionPersist.Codec.{
  write_len_bytes, write_len_str, write_string_list, write_counted, contact_bytes, pair_bytes,
  wipe_bytes, optional_bytes, map_option,
}
use hash_chat.SessionPersist.Codec.Fields.{IsShort, IsContact, IsPair}
use hash_chat.SessionPersist.Codec.Options.{IsWipes, IsSized, IsPrefs, IsInvites}

-- a list whose items are sound and whose number fits the count
pub record IsCounted {A : Type 0} (P : A → Type 0) (items : List A) : Type 0 where
  pub few : length items < 2 ^ 32
  pub each : All P items

-- a state that fits the fields of a blob
pub record IsBlob (s : SessionState) : Type 0 where
  pub seed : length s.identity.seed ≡ 32
  pub onion : IsShort s.identity.onion
  pub onion_key : length s.identity.onion_key < 2 ^ 32
  pub contacts : IsCounted IsContact s.contacts
  pub ratchets : IsCounted IsPair s.ratchets
  pub pending : IsCounted IsPair s.pending
  pub prefs : IsPrefs s.net
  pub ttl : s.disappear_ttl_secs < 2 ^ 32
  pub blocked : IsCounted IsShort s.blocked_ids
  pub muted : IsCounted IsShort s.muted_ids
  pub verified : IsCounted IsShort s.verified_ids
  pub lock : s.lock_timeout_secs < 2 ^ 32
  pub jitter : s.send_jitter_secs ≤ max_send_jitter_secs
  pub mark : s.clock_mark_unix < 2 ^ 64
  pub digest : length s.binary_digest ≡ 32
  pub wipe : IsWipes s.wipe_settings
  pub save : IsSized 16 s.save_id
  pub invites : IsInvites s.pending_invites

-- The fields that a blob of version `ver` has, in their order.
abbrev pub extras_of : Age → ℕ → ℕ → SessionState → Bytes
extras_of age ver now s =
    (if leb 3 ver then write_len_bytes (prefs_bytes age s.net) else [])
    ++ ((if leb 4 ver then be32 s.disappear_ttl_secs else [])
        ++ ((if leb 5 ver then write_string_list s.blocked_ids else [])
            ++ ((if leb 5 ver then write_string_list s.muted_ids else [])
                ++ ((if leb 6 ver then write_string_list s.verified_ids else [])
                    ++ ((if leb 7 ver then be32 s.lock_timeout_secs else [])
                        ++ ((if leb 8 ver then be32 s.send_jitter_secs else [])
                            ++ ((if leb 9 ver
                                  then be64 (advance_clock_mark s.clock_mark_unix now)
                                  else [])
                                ++ ((if leb 10 ver then s.binary_digest else [])
                                    ++ ((if leb 11 ver
                                          then optional_bytes 40
                                              (map_option wipe_bytes s.wipe_settings)
                                          else [])
                                        ++ ((if leb 12 ver then optional_bytes 16 s.save_id else [])
                                            ++ (if leb 13 ver
                                                then write_len_bytes s.pending_invites
                                                else [])))))))))))

unfoldable pub blob_of : Age → ℕ → ℕ → SessionState → Bytes
blob_of age ver now s =
    ver ∷ s.identity.seed
    ++ (write_len_str s.identity.onion
        ++ (write_len_bytes s.identity.onion_key
            ++ (write_counted contact_bytes s.contacts
                ++ (write_counted pair_bytes s.ratchets
                    ++ (write_counted pair_bytes s.pending ++ extras_of age ver now s)))))

-- What a blob of version `ver` keeps of a state, with the defaults of what it lacks.
unfoldable pub upgraded : Age → ℕ → ℕ → SessionState → SessionState
upgraded age ver now s = record {
  identity = s.identity;
  contacts = s.contacts;
  ratchets = s.ratchets;
  pending = s.pending;
  net = if leb 3 ver then aged age s.net else default;
  disappear_ttl_secs = if leb 4 ver then s.disappear_ttl_secs else 0;
  blocked_ids = if leb 5 ver then s.blocked_ids else [];
  muted_ids = if leb 5 ver then s.muted_ids else [];
  verified_ids = if leb 6 ver then s.verified_ids else map (λ c. c.id) s.contacts;
  lock_timeout_secs = if leb 7 ver then s.lock_timeout_secs else default_lock_timeout_secs;
  send_jitter_secs = if leb 8 ver then s.send_jitter_secs else 0;
  clock_mark_unix = if leb 9 ver then advance_clock_mark s.clock_mark_unix now else 0;
  binary_digest = if leb 10 ver then s.binary_digest else no_binary_digest;
  wipe_settings = if leb 11 ver then s.wipe_settings else none;
  save_id = if leb 12 ver then s.save_id else none;
  pending_invites = if leb 13 ver then s.pending_invites else [];
}
