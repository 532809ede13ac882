-- ===== src/Ratchet/Chain.antt =====
-- ratchet.rs: the key chains. One step of a chain, the Diffie-Hellman steps, and skipping ahead.
pub mod Valid
pub mod Rounds
pub mod Skip
use hash_chat.Prelude.{
  ℕ, zero, suc, ◌+◌, ◌-◌, String, Bool, true, false, ◌&&◌, Option, none, some, List, [], ◌∷◌, ltb,
  leb, if◌then◌else◌, Result, ok, err, refuse_if, ◌>>=◌, ◌>>◌,
}
use hash_chat.Prelude.Bytes.{Bytes}
use hash_chat.Ratchet.Crypto.{Crypto, ascii}
use hash_chat.Ratchet.State.{
  DoubleRatchet, dh_send_every, max_skip, saturating_add, store_skipped_key,
}

unfoldable pub epoch_start : DoubleRatchet → ℕ
epoch_start s = s.send_count - s.sends_since_dh

unfoldable pub is_some : Option Bytes → Bool
is_some none = false
is_some (some k) = true

module _ (c : Crypto) where
  unfoldable pub next_chain : Bytes → Bytes
  next_chain chain = c.expand none chain (ascii "HashChat-v1-chain")

  unfoldable pub message_key : Bytes → Bytes
  message_key chain = c.expand none chain (ascii "HashChat-v1-msg-key")

  -- the new root, and the new chain
  unfoldable pub kdf_root_and_dh_chain : Bytes → Bytes → Bytes × Bytes
  kdf_root_and_dh_chain root shared =
      let new_root = c.expand (some root) shared (ascii "HashChat-v1-root") in
      (new_root, c.expand (some new_root) shared (ascii "HashChat-v1-dh-chain"))

  dh_send_to : Option Bytes → Bytes → DoubleRatchet → DoubleRatchet
  dh_send_to none fresh s = s
  dh_send_to (some remote) fresh s =
      let derived = kdf_root_and_dh_chain s.root_key (c.diffie_hellman fresh remote) in
      record s {
        dh_secret = fresh;
        dh_public = c.public_of fresh;
        root_key = derived.0;
        chain_key_send = derived.1;
        sends_since_dh = 0;
      }

  -- at the secret that the generator draws
  unfoldable pub dh_ratchet_send : Bytes → DoubleRatchet → DoubleRatchet
  unfolding dh_send_to
  dh_ratchet_send fresh s = dh_send_to s.remote_dh fresh s

  unfoldable pub dh_ratchet_recv : Bytes → DoubleRatchet → DoubleRatchet
  dh_ratchet_recv remote s =
      let derived = kdf_root_and_dh_chain s.root_key (c.diffie_hellman s.dh_secret remote) in
      record s { root_key = derived.0; chain_key_recv = derived.1; remote_dh = some remote }

  -- take the next key of the sending chain, with no Diffie-Hellman step
  unfoldable pub next_send_key : DoubleRatchet → (Bytes × ℕ) × DoubleRatchet
  unfolding next_chain message_key
  next_send_key s = (
    (message_key s.chain_key_send, s.send_count),
    record s {
      chain_key_send = next_chain s.chain_key_send;
      send_count = saturating_add s.send_count 1;
      sends_since_dh = saturating_add s.sends_since_dh 1;
    },
  )

  unfoldable pub ratchet_send : Bytes → DoubleRatchet → (Bytes × ℕ) × DoubleRatchet
  unfolding is_some
  ratchet_send fresh s = next_send_key (
      if is_some s.remote_dh && leb dh_send_every s.sends_since_dh
      then dh_ratchet_send fresh s
      else s)

  unfoldable pub next_recv_key : DoubleRatchet → (Bytes × ℕ) × DoubleRatchet
  unfolding next_chain message_key
  next_recv_key s = (
    (message_key s.chain_key_recv, s.recv_count),
    record s {
      chain_key_recv = next_chain s.chain_key_recv;
      recv_count = saturating_add s.recv_count 1;
    },
  )

  learn_from : Option Bytes → Bytes → DoubleRatchet → DoubleRatchet
  learn_from none remote s = record s { remote_dh = some remote }
  learn_from (some existing) remote s =
      if c.same_key existing remote then s else dh_ratchet_recv remote s

  unfoldable pub learn_remote : Bytes → DoubleRatchet → DoubleRatchet
  unfolding learn_from
  learn_remote remote s = learn_from s.remote_dh remote s

  unfoldable pub ratchet_recv : Bytes → DoubleRatchet → (Bytes × ℕ) × DoubleRatchet
  unfolding learn_remote
  ratchet_recv remote s = next_recv_key (learn_remote remote s)

  -- one round of the loop: the key that is passed over is stored under its step
  unfoldable pub skip_one : DoubleRatchet → DoubleRatchet
  skip_one s = let ((key, n), s') = next_recv_key s in store_skipped_key n key s'

  -- `while self.recv_count < until`, on fuel
  unfoldable pub skip_loop : ℕ → ℕ → DoubleRatchet → DoubleRatchet
  skip_loop zero until s = s
  skip_loop (suc fuel) until s =
      let rest = skip_loop fuel until (skip_one s) in if ltb s.recv_count until then rest else s

  unfoldable pub skip_recv_until : ℕ → DoubleRatchet → Result String DoubleRatchet
  skip_recv_until until s = do
    refuse_if (ltb until s.recv_count) "stale or replayed frame"
    refuse_if (ltb max_skip (until - s.recv_count)) "too many skipped messages"
    ok (skip_loop (until - s.recv_count) until s)
