-- ===== src/SessionPersist/Codec/Upgrade.antt =====
-- session_persist.rs: loading blobs of every version.
use hash_chat.Prelude.{
  ℕ, ◌+◌, ◌^◌, ◌≤◌, ◌<◌, ◌≡◌, refl, ap, sym, ◌∙◌, false, not, ◌&&◌, none, [], ◌++◌, map, length,
  length-append, take, drop, take-append, drop-append, append-nil, ltb, leb, le→ltb, ◌==◌,
  if◌then◌else◌, Result, ok, ◌>>=◌, arith,
}
use hash_chat.Prelude.Bytes.{Bytes}
use hash_chat.Net.{default}
use hash_chat.Net.Ages.{Age, aged}
use hash_chat.ClockCheck.{advance_clock_mark}
use hash_chat.SessionPersist.{
  SessionState, from_identity, default_lock_timeout_secs, no_binary_digest,
}
use hash_chat.Invites.{from_bytes}
use hash_chat.SessionPersist.Codec.{
  BlobError, truncated_contacts, truncated_ratchets, truncated_pending, truncated_ttl,
  truncated_lock, truncated_mark, truncated_digest, write_len_bytes, write_len_str, write_counted,
  contact_bytes, pair_bytes, read_fixed, read_word, read_string_list, read_contact, read_pair,
  read_wipe, read_save_id, read_prefs, read_jitter, read_invites, since,
}
use hash_chat.SessionPersist.Codec.Blob.{deserialize_blob, read_versioned, read_lists, read_extras}
use hash_chat.SessionPersist.Codec.Fields.{
  Reads, fixed-Reads, word-Reads, long-Reads, bytes-Reads, str-Reads, counted-Reads, each,
  list-Reads, contact-Reads, pair-Reads,
}
use hash_chat.SessionPersist.Codec.Options.{
  IsInvites, wipe-Reads, save_id-Reads, prefs-Reads, jitter-Reads, invites-Reads, since-Reads,
}
use hash_chat.SessionPersist.Codec.Ages.{IsBlob, extras_of, blob_of, upgraded}

mark_word : (mark now : ℕ) → mark < 2 ^ 64 → now < 2 ^ 64 → advance_clock_mark mark now < 2 ^ 64
unfolding advance_clock_mark
mark_word mark now h k = omega arith

-- a field at the end of the blob
last_lem :
    {A : Type 0} (read : Bytes → Result BlobError (A × Bytes)) (bytes : Bytes) (a : A)
    → Reads read bytes a
    → read bytes ≡ ok (a, [])
last_lem read bytes a h = ap read (sym (append-nil bytes)) ∙ h []

extras_lem :
    (age : Age) (ver now : ℕ) (s : SessionState)
    → now < 2 ^ 64
    → IsBlob s
    → read_extras ver
        (record (from_identity s.identity) {
          contacts = s.contacts;
          ratchets = s.ratchets;
          pending = s.pending;
        })
        (extras_of age ver now s)
      ≡ ok (upgraded age ver now s, [])
unfolding read_extras upgraded from_identity
extras_lem age ver now s clock v =
    rw
      (
        since-Reads (leb 3 ver) default (aged age s.net) read_prefs _
            (prefs-Reads age s.net v.prefs) _,
        ◌>>=◌,
        since-Reads (leb 4 ver) 0 s.disappear_ttl_secs (read_word 4 truncated_ttl) _
            (word-Reads truncated_ttl s.disappear_ttl_secs v.ttl) _,
        since-Reads (leb 5 ver) [] s.blocked_ids read_string_list _
            (list-Reads s.blocked_ids v.blocked.few v.blocked.each) _,
        since-Reads (leb 5 ver) [] s.muted_ids read_string_list _
            (list-Reads s.muted_ids v.muted.few v.muted.each) _,
        since-Reads (leb 6 ver) (map (λ c. c.id) s.contacts) s.verified_ids read_string_list _
            (list-Reads s.verified_ids v.verified.few v.verified.each) _,
        since-Reads (leb 7 ver) default_lock_timeout_secs s.lock_timeout_secs
            (read_word 4 truncated_lock) _ (word-Reads truncated_lock s.lock_timeout_secs v.lock) _,
        since-Reads (leb 8 ver) 0 s.send_jitter_secs read_jitter _
            (jitter-Reads s.send_jitter_secs v.jitter) _,
        since-Reads (leb 9 ver) 0 (advance_clock_mark s.clock_mark_unix now)
            (read_word 8 truncated_mark) _
            (long-Reads truncated_mark (advance_clock_mark s.clock_mark_unix now)
              (mark_word s.clock_mark_unix now v.mark clock))
            _,
        since-Reads (leb 10 ver) no_binary_digest s.binary_digest (read_fixed 32 truncated_digest) _
            (fixed-Reads 32 truncated_digest s.binary_digest v.digest) _,
        since-Reads (leb 11 ver) none s.wipe_settings read_wipe _
            (wipe-Reads s.wipe_settings v.wipe) _,
        since-Reads (leb 12 ver) none s.save_id read_save_id _ (save_id-Reads s.save_id v.save) _,
        last_lem (since (leb 13 ver) [] read_invites) _
            (if leb 13 ver then s.pending_invites else [])
            (since-Reads (leb 13 ver) [] s.pending_invites read_invites _
              (invites-Reads s.pending_invites v.invites)),
      )
      refl

lists_lem :
    (age : Age) (ver now : ℕ) (s : SessionState)
    → now < 2 ^ 64
    → IsBlob s
    → read_lists ver s.identity (
        write_counted contact_bytes s.contacts
        ++ (write_counted pair_bytes s.ratchets
            ++ (write_counted pair_bytes s.pending ++ extras_of age ver now s)))
      ≡ ok (upgraded age ver now s)
unfolding read_lists
lists_lem age ver now s clock v =
    rw
      (
        counted-Reads contact_bytes read_contact truncated_contacts s.contacts v.contacts.few
            (each contact-Reads s.contacts v.contacts.each) _,
        ◌>>=◌,
        counted-Reads pair_bytes read_pair truncated_ratchets s.ratchets v.ratchets.few
            (each pair-Reads s.ratchets v.ratchets.each) _,
        counted-Reads pair_bytes read_pair truncated_pending s.pending v.pending.few
            (each pair-Reads s.pending v.pending.each) _,
        extras_lem age ver now s clock v,
      )
      refl

in_range :
    (ver : ℕ) → 2 ≤ ver → ver ≤ 13 → (not (leb 1 ver && leb ver 13) ≡ false) × ((ver == 1) ≡ false)
in_range ver lo hi = ground arith

-- A state that fits the fields of a blob, in the layout of version 2 to 13, loads: every field that
-- the version had comes back, with the clock mark raised to the time of the save, and every later
-- one has its default, except that contacts older than version 6 all count as verified. The
-- preferences may lack both of their flags or the one for bridges, as they once did; isolation is
-- then on and bridges are not required. They obey their posture and have an address, not an empty
-- one, if the DNS is custom.
pub load_lem :
    (age : Age) (ver now : ℕ) (s : SessionState)
    → 2 ≤ ver
    → ver ≤ 13
    → now < 2 ^ 64
    → IsBlob s
    → deserialize_blob (blob_of age ver now s) ≡ ok (upgraded age ver now s)
unfolding deserialize_blob read_versioned blob_of
load_lem age ver now s lo hi clock v =
    let seed = s.identity.seed in
    let (version, newer) = in_range ver lo hi in
    let tail =
      write_len_str s.identity.onion
      ++ (write_len_bytes s.identity.onion_key
          ++ (write_counted contact_bytes s.contacts
              ++ (write_counted pair_bytes s.ratchets
                  ++ (write_counted pair_bytes s.pending ++ extras_of age ver now s)))) in
    let long : ltb (1 + length (seed ++ tail)) 33 ≡ false =
      le→ltb _ _ (omega (arith, length-append seed tail, v.seed)) in
    let front : take 32 (seed ++ tail) ≡ seed = rw (← v.seed) (take-append seed tail) in
    let back : drop 32 (seed ++ tail) ≡ tail = rw (← v.seed) (drop-append seed tail) in
    rw
      (
        version,
        long,
        ◌>>=◌,
        front,
        back,
        str-Reads s.identity.onion v.onion,
        bytes-Reads s.identity.onion_key v.onion_key,
        newer,
      )
      (lists_lem age ver now s clock v)

pub no-IsInvites_read : IsInvites []
unfolding from_bytes
no-IsInvites_read = record { size = omega arith; book = record { invites = [] }; opens = refl }
