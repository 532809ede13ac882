-- ===== src/Ratchet/Receive.antt =====
-- ratchet.rs: opening an incoming frame, on a scratch copy of the state.
pub mod Cases
pub mod Atomic
pub mod Advance
pub mod Accept
pub mod Replay
pub mod Life
use hash_chat.Prelude.{
  ℕ, zero, suc, ◌+◌, ◌-◌, String, Bool, true, false, not, ◌&&◌, Option, none, some, ltb, ◌==◌,
  if◌then◌else◌, Result, ok, err, panic, ok_or, ◌>>=◌,
}
use hash_chat.Prelude.Bytes.{Bytes}
use hash_chat.Prelude.BTreeMap
use hash_chat.Ratchet.Crypto.{Crypto}
use hash_chat.Ratchet.State.{DoubleRatchet, dh_send_every, u32_max, wipe_skipped_key}
use hash_chat.Ratchet.Chain.{dh_ratchet_recv, next_recv_key, skip_recv_until}
use hash_chat.Ratchet.Frame.{decrypt_with_key}
use hash_chat.Ratchet.Persist.{to_bytes, from_bytes}

-- the plaintext and its step, or a refusal; and the state that is left
abbrev pub Received : Type 0
Received = Result String (Bytes × ℕ) × DoubleRatchet

abbrev pub Opened : Type 0
Opened = Result String ((Bytes × ℕ) × DoubleRatchet)

-- `if s.remote_dh.is_none() { s.remote_dh = Some(*remote); }`
remember : Option Bytes → Bytes → DoubleRatchet → DoubleRatchet
remember none remote s = record s { remote_dh = some remote }
remember (some k) remote s = s

unfoldable pub remember_remote : Bytes → DoubleRatchet → DoubleRatchet
unfolding remember
remember_remote remote s = remember s.remote_dh remote s

module _ (c : Crypto) where
  -- take the next key of the scratch copy, and open the frame with it
  unfoldable pub take_and_open : DoubleRatchet → Bytes → Bytes → Opened
  take_and_open advanced ciphertext aad = do
    let ((key, step), after) = next_recv_key c advanced
    pt ← decrypt_with_key c key ciphertext aad
    ok ((pt, step), after)

  -- the run on a scratch copy, which goes through the byte form
  unfoldable pub open_on_scratch :
      DoubleRatchet → Bytes → Bytes → (DoubleRatchet → Result String DoubleRatchet) → Opened
  unfolding take_and_open
  open_on_scratch s ciphertext aad advance = do
    scratch ← from_bytes (to_bytes s)
    advanced ← advance scratch
    take_and_open advanced ciphertext aad

  -- `*self = scratch`, on success only
  unfoldable pub commit : DoubleRatchet → Opened → Received
  commit s (ok (r, after)) = (ok r, after)
  commit s (err e) = (err e, s)
  commit s panic = (panic, s)

  unfoldable pub commit_if_opens :
      DoubleRatchet → Bytes → Bytes → (DoubleRatchet → Result String DoubleRatchet) → Received
  unfolding commit
  commit_if_opens s ciphertext aad advance = commit s (open_on_scratch s ciphertext aad advance)

  unfoldable pub open_skipped : DoubleRatchet → ℕ → Bytes → Bytes → Received
  unfolding commit
  open_skipped s step ciphertext aad = commit s (do
    key ← ok_or (BTreeMap.get step s.skipped_keys) "no skipped key"
    pt ← decrypt_with_key c key ciphertext aad
    ok ((pt, step), wipe_skipped_key step s))

  -- what the scratch copy does for a frame on the current chain
  unfoldable pub advance_same : Bytes → ℕ → DoubleRatchet → Result String DoubleRatchet
  advance_same remote step s = do
    skipped ← skip_recv_until c step s
    ok (remember_remote remote skipped)

  -- and for a frame on a new chain that starts at `first`
  unfoldable pub advance_epoch : Bytes → ℕ → ℕ → DoubleRatchet → Result String DoubleRatchet
  advance_epoch remote first step s = do
    ended ← skip_recv_until c first s
    skip_recv_until c step (dh_ratchet_recv c remote ended)

  -- `for k in 0..DH_SEND_EVERY`, with the rounds that are left
  unfoldable pub try_positions :
      ℕ → ℕ → String → DoubleRatchet → Bytes → ℕ → Bytes → Bytes → Received
  try_positions zero k last_err s remote step ciphertext aad = (err last_err, s)
  try_positions (suc rounds) k last_err s remote step ciphertext aad =
      let attempt = commit_if_opens s ciphertext aad (advance_epoch remote (step - k) step) in
      let next = λ (e : String). try_positions rounds (k + 1) e s remote step ciphertext aad in
      if ltb step k
      then (err last_err, s)
      else if ltb (step - k) s.recv_count
      then (err last_err, s)
      else elim attempt.0 [ ok v ↦ attempt | err e ↦ next e | panic ↦ attempt ]

  unfoldable pub knows : Option Bytes → Bytes → Bool
  knows none remote = false
  knows (some k) remote = c.same_key k remote

  -- `self.remote_dh.is_none_or(|r| r == *remote)`
  unfoldable pub is_same_chain : Option Bytes → Bytes → Bool
  is_same_chain none remote = true
  is_same_chain (some k) remote = c.same_key k remote

  -- behind the checks of `recv_inner`
  unfoldable pub recv_new_chain : DoubleRatchet → Bytes → ℕ → Option ℕ → Bytes → Bytes → Received
  recv_new_chain s remote step none ciphertext aad =
      try_positions dh_send_every 0 "open" s remote step ciphertext aad
  recv_new_chain s remote step (some first) ciphertext aad =
      if ltb first s.recv_count
      then (err "stale or replayed frame", s)
      else commit_if_opens s ciphertext aad (advance_epoch remote first step)

  unfoldable pub recv_inner : DoubleRatchet → Bytes → ℕ → Option ℕ → Bytes → Bytes → Received
  unfolding knows is_same_chain
  recv_inner s remote step epoch ciphertext aad =
      if BTreeMap.contains_key step s.skipped_keys
      then open_skipped s step ciphertext aad
      else if s.recv_count == u32_max
      then (err "receive counter exhausted", s)
      else if c.same_key remote s.dh_public
      then (err "reflected frame", s)
      else if not (knows s.remote_dh remote)
          && not (c.was_contributory (c.diffie_hellman s.dh_secret remote))
      then (err "invalid sender key", s)
      else if ltb step s.recv_count
      then (err "stale or replayed frame", s)
      else if is_same_chain s.remote_dh remote
      then commit_if_opens s ciphertext aad (advance_same remote step)
      else recv_new_chain s remote step epoch ciphertext aad

  unfoldable pub try_recv_decrypt : DoubleRatchet → Bytes → Bytes → Bytes → Received
  try_recv_decrypt s remote ciphertext aad = recv_inner s remote s.recv_count none ciphertext aad

  unfoldable pub try_recv_decrypt_at : DoubleRatchet → Bytes → ℕ → Bytes → Bytes → Received
  try_recv_decrypt_at s remote step ciphertext aad = recv_inner s remote step none ciphertext aad

  unfoldable pub try_recv_decrypt_epoch : DoubleRatchet → Bytes → ℕ → ℕ → Bytes → Bytes → Received
  try_recv_decrypt_epoch s remote step epoch ciphertext aad =
      if ltb step epoch
      then (err "epoch after step", s)
      else recv_inner s remote step (some epoch) ciphertext aad
