-- ===== src/Ratchet/Receive/Atomic.antt =====
-- ratchet.rs: the state after a frame that is not opened.
use hash_chat.Prelude.{ℕ, ◌≡◌, refl, String, Option, Result, ok, err, panic, inl, inr, ◌⊎◌}
use hash_chat.Prelude.Bytes.{Bytes}
use hash_chat.Ratchet.Crypto.{Crypto}
use hash_chat.Ratchet.State.{DoubleRatchet}
use hash_chat.Ratchet.Receive.{
  Received, Opened, commit, commit_if_opens, open_skipped, recv_inner, advance_same, advance_epoch,
}
use hash_chat.Ratchet.Receive.Cases.{recv_inner_cases}

-- a frame was opened, or the state is as before
record Atomic (s : DoubleRatchet) (r : Received) : Type 0 where
  outcome : (r.1 ≡ s) ⊎ ((v : Bytes × ℕ) × (r.0 ≡ ok v))

module _ (c : Crypto) (s : DoubleRatchet) where
  commit-Atomic : (o : Opened) → Atomic s (commit c s o)
  unfolding commit
  commit-Atomic (ok (v, after)) = record { outcome = inr (v, refl) }
  commit-Atomic (err e) = record { outcome = inl refl }
  commit-Atomic panic = record { outcome = inl refl }

  open_skipped-Atomic : (step : ℕ) (ct aad : Bytes) → Atomic s (open_skipped c s step ct aad)
  unfolding open_skipped
  open_skipped-Atomic step ct aad = commit-Atomic _

  commit_if_opens-Atomic :
      (ct aad : Bytes) (advance : DoubleRatchet → Result String DoubleRatchet)
      → Atomic s (commit_if_opens c s ct aad advance)
  unfolding commit_if_opens
  commit_if_opens-Atomic ct aad advance = commit-Atomic _

  pub recv_inner_outcome :
      (remote : Bytes) (step : ℕ) (epoch : Option ℕ) (ct aad : Bytes)
      → let r = recv_inner c s remote step epoch ct aad in
        (r.1 ≡ s) ⊎ ((v : Bytes × ℕ) × (r.0 ≡ ok v))
  recv_inner_outcome remote step epoch ct aad =
      (recv_inner_cases c s remote step epoch ct aad (Atomic s) (λ e. record { outcome = inl refl })
        (λ _. open_skipped-Atomic step ct aad)
        (λ _ _. commit_if_opens-Atomic ct aad (advance_same c remote step))
        (λ _ _ first _. commit_if_opens-Atomic ct aad (advance_epoch c remote first step))).outcome

  -- A frame that is refused, for whatever reason and on whatever path, leaves the state as it was.
  pub recv_inner_refused :
      (remote : Bytes) (step : ℕ) (epoch : Option ℕ) (ct aad : Bytes) {e : String}
      → (recv_inner c s remote step epoch ct aad).0 ≡ err e
      → (recv_inner c s remote step epoch ct aad).1 ≡ s
  recv_inner_refused remote step epoch ct aad h =
      elim (recv_inner_outcome remote step epoch ct aad) [ inl same ↦ same | inr (v, opened) ↦ cc ]
