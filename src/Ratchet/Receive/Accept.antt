-- ===== src/Ratchet/Receive/Accept.antt =====
-- ratchet.rs: what a receive that returns a plaintext has done.
use hash_chat.Prelude.{
  ℕ, ◌≤◌, ◌≡◌, ◌≢◌, ◌∙◌, String, Option, some, arith, Result, ok, err, panic, inl, inr, length,
  ◌>>=◌, >>=-eq-ok, ok_or,
}
use hash_chat.Prelude.Bytes.{Bytes}
use hash_chat.Prelude.BTreeMap.{get}
use hash_chat.Ratchet.Crypto.{Crypto, IsLawful}
use hash_chat.Ratchet.State.{DoubleRatchet, u32_max, wipe_skipped_key}
use hash_chat.Ratchet.State.Valid.{IsValid}
use hash_chat.Ratchet.Chain.{next_recv_key}
use hash_chat.Ratchet.Chain.Valid.{step-next}
use hash_chat.Ratchet.Frame.{decrypt_with_key}
use hash_chat.Ratchet.Persist.RoundTrip.{from_bytes-to_bytes}
use hash_chat.Ratchet.Receive.{
  Received, Opened, take_and_open, commit, commit_if_opens, open_on_scratch, open_skipped,
  recv_inner, advance_same, advance_epoch,
}
use hash_chat.Ratchet.Receive.Cases.{Starts, recv_inner_cases}
use hash_chat.Ratchet.Receive.Advance.{Advanced, advance_same-Advanced, advance_epoch-Advanced}

-- A frame was opened with a stored key, which is gone; or with the next key of an advanced chain.
pub data Accepted (c : Crypto) (step : ℕ) (s s' : DoubleRatchet) : Type 0 where
  late :
      (key : Bytes)
      → get step s.skipped_keys ≡ some key
      → s' ≡ wipe_skipped_key step s
      → Accepted c step s s'
  fresh :
      (a : DoubleRatchet)
      → Advanced step s a
      → s.recv_count ≢ u32_max
      → s' ≡ (next_recv_key c a).1
      → Accepted c step s s'

-- an opened frame is accepted, at its step
pub record Sound (c : Crypto) (step : ℕ) (s : DoubleRatchet) (r : Received) : Type 0 where
  pub accept : (pt : Bytes) (n : ℕ) → r.0 ≡ ok (pt, n) → (n ≡ step) × Accepted c step s r.1

-- the next key of `a` opened the frame
record OpenedAt (c : Crypto) (a : DoubleRatchet) (ct aad pt : Bytes) (n : ℕ) (s' : DoubleRatchet)
    : Type 0 where
  step : n ≡ a.recv_count
  state : s' ≡ (next_recv_key c a).1
  opens : decrypt_with_key c (next_recv_key c a).0.0 ct aad ≡ ok pt

module _ (c : Crypto) (law : IsLawful c) (s : DoubleRatchet) (v : IsValid s) where
  finish :
      (a : DoubleRatchet) (ct aad : Bytes) {pt : Bytes} {n : ℕ} {s' : DoubleRatchet}
      → take_and_open c a ct aad ≡ ok ((pt, n), s')
      → OpenedAt c a ct aad pt n s'
  unfolding take_and_open
  finish a ct aad h = ground (arith, step-next c law a)

  scratch_inversion :
      (ct aad : Bytes) (advance : DoubleRatchet → Result String DoubleRatchet) {pt : Bytes} {n : ℕ}
      {s' : DoubleRatchet}
      → open_on_scratch c s ct aad advance ≡ ok ((pt, n), s')
      → (a : DoubleRatchet) × (advance s ≡ ok a) × OpenedAt c a ct aad pt n s'
  unfolding open_on_scratch
  scratch_inversion ct aad advance h =
      let h' = rw (from_bytes-to_bytes s v) at h in
      let (a, run, rest) = >>=-eq-ok (advance s) _ h' in (a, run, finish a ct aad rest)

  commit-eq-ok :
      (o : Opened) (pt : Bytes) (n : ℕ)
      → (commit c s o).0 ≡ ok (pt, n)
      → o ≡ ok ((pt, n), (commit c s o).1)
  unfolding commit
  commit-eq-ok (ok (w, after)) pt n h = ground arith
  commit-eq-ok (err e) pt n h = cc
  commit-eq-ok panic pt n h = cc

  commit_inversion :
      (ct aad : Bytes) (advance : DoubleRatchet → Result String DoubleRatchet) (pt : Bytes) (n : ℕ)
      → (commit_if_opens c s ct aad advance).0 ≡ ok (pt, n)
      → (a : DoubleRatchet) × (advance s ≡ ok a)
        × OpenedAt c a ct aad pt n (commit_if_opens c s ct aad advance).1
  unfolding commit_if_opens
  commit_inversion ct aad advance pt n h =
      scratch_inversion ct aad advance (commit-eq-ok (open_on_scratch c s ct aad advance) pt n h)

  module _ (step : ℕ) (le : step ≤ u32_max) where
    attempt-Sound :
        (ct aad : Bytes) (advance : DoubleRatchet → Result String DoubleRatchet)
        → s.recv_count ≢ u32_max
        → ((a : DoubleRatchet) → advance s ≡ ok a → Advanced step s a)
        → Sound c step s (commit_if_opens c s ct aad advance)
    attempt-Sound ct aad advance below advanced = record {
      accept = λ pt n h.
          let (a, run, o) = commit_inversion ct aad advance pt n h in
          let d = advanced a run in (o.step ∙ d.count, fresh a d below o.state);
    }

    late_open : Bytes → Bytes → Opened
    late_open ct aad = do
      key ← ok_or (get step s.skipped_keys) "no skipped key"
      pt ← decrypt_with_key c key ct aad
      ok ((pt, step), wipe_skipped_key step s)

    late_inversion :
        (ct aad pt : Bytes) (n : ℕ) (s' : DoubleRatchet)
        → late_open ct aad ≡ ok ((pt, n), s')
        → (key : Bytes) × (get step s.skipped_keys ≡ some key)
          × (n ≡ step)
          × (s' ≡ wipe_skipped_key step s)
    unfolding late_open
    late_inversion ct aad pt n s' h = ground arith

    late-Sound : (ct aad : Bytes) → Sound c step s (open_skipped c s step ct aad)
    unfolding open_skipped late_open
    late-Sound ct aad = record {
      accept = λ pt n h.
          let (key, got, same, state) =
            late_inversion ct aad pt n _ (commit-eq-ok (late_open ct aad) pt n h) in
          (same, late key got state);
    }

    pub recv_inner_accepted :
        (remote : Bytes) (epoch : Option ℕ) (ct aad : Bytes)
        → length remote ≡ 32
        → ((first : ℕ) → epoch ≡ some first → first ≤ u32_max)
        → Sound c step s (recv_inner c s remote step epoch ct aad)
    recv_inner_accepted remote epoch ct aad size word =
        recv_inner_cases c s remote step epoch ct aad (Sound c step s)
          (λ e. record { accept = λ pt n h. cc }) (λ _. late-Sound ct aad)
          (λ p _.
            attempt-Sound ct aad (advance_same c remote step) p.counter
              (λ a run. advance_same-Advanced c law remote step s size le v run))
          (λ p _ first starts.
            attempt-Sound ct aad (advance_epoch c remote first step) p.counter (λ a run.
              advance_epoch-Advanced c law remote first step s size (first_word first starts) le v
                run))
      where
        first_word : (first : ℕ) → Starts s step epoch first → first ≤ u32_max
        first_word first starts = elim starts.origin [
          | inl before ↦ omega (arith, before)
          | inr given ↦ word first given
        ]
