-- ===== src/Lib.antt =====
-- HashChat: a verification library for the message core of the HashChat client.
--
-- A plaintext passes the size gate of src/rust/wire.rs, is padded to a size class by
-- src/rust/padding.rs, is sealed under a message key of the contact's double ratchet
-- (src/rust/ratchet.rs) and is framed by src/rust/wire.rs for the Tor transport. The receiver parses
-- the frame, builds the same additional data from its header, and hands it to its own ratchet, which
-- opens it on a scratch copy of its state. The text then goes through src/rust/term_sanitize.rs into
-- the transcript of src/rust/message_book.rs. The preferences of src/rust/net_mode.rs say whether
-- messages may be sent at all. Contacts come from the links of src/rust/contact_link.rs or from the
-- one-time invites of src/rust/invite.rs, which start the ratchets; contacts, ratchets, queued frames,
-- policy lists and open invites are kept in the session state of src/rust/session_persist.rs, and
-- the small modules of the same directory limit waits and queues. Around an unlock,
-- src/rust/failwipe.rs counts the attempts and src/rust/deadman.rs the days since the last one, both
-- in files that src/rust/private_fs.rs checks and replaces.
--
-- Files and code:
--   Padding           src/rust/padding.rs: class_for, pad, unpad
--   Wire              src/rust/wire.rs: check_plaintext_send_size, frame_v2, unframe_v2, frame_v3,
--                     unframe_v3, frame_v3_sealed, is_sealed_hint
--   Ratchet/State     src/rust/ratchet.rs: DoubleRatchet, new, zeroize, export_state, restore_state and
--                     the store of skipped keys
--   Ratchet/Bootstrap init_from_shared, init_symmetric, init_directional, init_directional_with_salt
--   Ratchet/Chain     epoch_start, kdf_root_and_dh_chain, dh_ratchet_send, dh_ratchet_recv,
--                     ratchet_send, ratchet_recv, next_recv_key, skip_recv_until
--   Ratchet/Frame     build_wire_aad, build_wire_aad_v3, encrypt_with_key, decrypt_with_key
--   Ratchet/Receive   commit_if_opens, open_skipped, recv_inner, try_recv_decrypt,
--                     try_recv_decrypt_at, try_recv_decrypt_epoch
--   Ratchet/Persist   to_bytes, from_bytes
--   Ratchet/Session   two ratchets that talk to each other
--   Ratchet/Crypto    the operations of hkdf, x25519-dalek and ring, as parameters
--   Sanitize          src/rust/term_sanitize.rs: map_char, is_terminal_safe, sanitize_for_terminal
--   MessageBook       src/rust/message_book.rs: the transcript, add, set_delivery, delete, clear,
--                     park, unpark, purge_expired, set_ephemeral
--   MessageBook/Codec export, load
--   Net               src/rust/net_mode.rs: tokens, NetConfig, from_env, set_mode, set_dns, set_posture,
--                     set_socks_isolation, require_messenger_transport
--   Net/Persist       to_persist_bytes, from_persist_bytes
--   Net/Ages          the preferences as saves before and after the bridges flag wrote them
--   GroupBook         src/rust/group_store.rs: check_name, create, create_or_replace, remove_group,
--                     add_member, remove_member
--   SessionPersist    src/rust/session_persist.rs: SessionState and its methods on the policy lists,
--                     for_disk, wipe_memory_secure
--   SessionPersist/Pending   set_ratchet_bytes, queue_pending, ack_pending_frame
--   SessionPersist/Contacts  upsert_contact_from_link, fresh_contact_id, validate_display_name,
--                     rename_contact_display_name, delete_contact_secure
--   SessionPersist/Tokens    resolve_deny_token, unverify_contact_id, unblock_contact_id,
--                     unmute_contact_id
--   SessionPersist/Codec     serialize_blob_at, deserialize_blob, and src/rust/wipe_settings.rs: the
--                     byte form of the settings
--   SessionPersist/Codec/Ages   the layouts of versions 2 to 13
--   Identity          src/rust/longterm_identity.rs: from_seed, public keys, x25519_dh_checked, sign,
--                     verify
--   OnionBinding      src/rust/onion_binding.rs: onion_public_key, sign_binding, verify_binding
--   ContactLink       src/rust/contact_link.rs: format_signed_contact_link,
--                     format_bound_contact_link, parse_signed_contact_link, sas_fingerprint,
--                     bootstrap_ratchet_from_signed_link, hex_encode, hex_decode
--   Invites           src/rust/invite.rs: PendingInvites, purge_expired, issue, revoke, redeem,
--                     to_bytes, from_bytes
--   Invites/Link      format_invite, parse_invite, bootstrap_from_invite, format_invite_reply,
--                     split_invite_reply
--   Invites/Accept    issue, accept, accept_reply, invite_hello_frame, open_hello
--   VoiceQueue        src/rust/voice_queue.rs: push, pop, clear
--   SendJitter        src/rust/send_jitter.rs: delay_from_source
--   PrivateFile       src/rust/private_fs.rs: open_private_dir, open_checked, read_private_file,
--                     write_private_file
--   FailWipe          src/rust/failwipe.rs: set_failwipe, clear_failwipe, begin_attempt,
--                     attempt_succeeded, attempt_failed
--   Deadman           src/rust/deadman.rs: set_deadman, touch_deadman, clear_deadman,
--                     wipe_if_deadman_due
--   UnlockBackoff     src/rust/unlock_backoff.rs: unlock_backoff_delay_secs
--   ClockCheck        src/rust/clock_check.rs: advance_clock_mark, clock_rollback_secs
--   Prelude           outcomes, byte strings, sorted maps, UTF-8 texts
--   Examples          the operations at concrete inputs, with a concrete Crypto
--
-- State and operations: a method on `&mut self` is a function from the state to a result and the
-- state that it leaves. A byte is a number below 256 and a byte string a list of them; a u32 counter
-- saturates as in the code, and a length cast to u8, u16 or u32 is taken modulo 2 ^ w. A `BTreeMap`
-- is an association list in key order. A slice or an index out of range is the outcome `panic`.
-- Random draws (secrets and nonces) are arguments, and so is the environment.
--
-- A private file is what stands at its path and at the directory's: kind, owner, mode and bytes. Each
-- operation is told whether the system calls that it makes succeed, the one that looks the file's name
-- up included; a write that fails leaves the old file. Nothing else changes the two paths.
--
-- Loops and fuel: the loop of `skip_recv_until` runs on the distance to its bound, which is the
-- number of rounds that it makes; the search over positions runs on `DH_SEND_EVERY` rounds, as the
-- code's range does; the eviction of skipped keys and of old messages is by recursion on the list.
-- The loop of `load` runs on the count that the bytes announce. The loop of `fresh_contact_id` runs on
-- one round more than there are ids in the lists, and `None` stands for running out of rounds.
--
-- The cryptographic operations are a record of functions. What the code relies on is `IsLawful`:
-- output lengths, the agreement of Diffie-Hellman, reflexivity of key comparison, and that the
-- cipher opens what it sealed. Signatures (`Signing`, `Hazmat`), hashes and the Unicode lower case
-- (`Texts`) and HMAC are parameters in the same way, with `IsSigning`, `IsHazmat`,
-- `IsTexts` and `IsMac`. An invite id of 16 bytes is the number that its bytes spell.
--
-- Not modelled: scrubbing of memory (the model only drops a key), I/O, the user interface, and the
-- components that the manifest lists as not modelled.
pub mod Prelude
pub mod Padding
pub mod Wire
pub mod Ratchet
pub mod Sanitize
pub mod MessageBook
pub mod Net
pub mod VoiceQueue
pub mod SendJitter
pub mod Identity
pub mod OnionBinding
pub mod ContactLink
pub mod Invites
pub mod SessionPersist
pub mod PrivateFile
pub mod FailWipe
pub mod Deadman
pub mod UnlockBackoff
pub mod ClockCheck
pub mod GroupBook
pub mod Examples
