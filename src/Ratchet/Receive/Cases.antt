-- ===== src/Ratchet/Receive/Cases.antt =====
-- ratchet.rs: the ways through `recv_inner`, as a rule. What holds of a refusal and of each attempt
-- to open the frame, under the checks that lead to it, holds of the result.
use hash_chat.Prelude.{
  ℕ, zero, suc, ◌+◌, ◌-◌, ◌≤◌, ◌≡◌, ◌≢◌, refl, String, Bool, true, false, not, ◌&&◌, ◌||◌, Option,
  none, some, arith, ltb, ◌==◌, if◌then◌else◌, ok, err, panic, inl, inr, ◌⊎◌,
}
use hash_chat.Prelude.Bytes.{Bytes}
use hash_chat.Prelude.BTreeMap
use hash_chat.Ratchet.Crypto.{Crypto}
use hash_chat.Ratchet.State.{DoubleRatchet, dh_send_every, u32_max}
use hash_chat.Ratchet.Receive.{
  Received, commit_if_opens, open_skipped, try_positions, recv_new_chain, recv_inner, advance_same,
  advance_epoch, knows, is_same_chain,
}

-- the checks that a frame passes before an attempt on a scratch copy
pub record Passes (c : Crypto) (s : DoubleRatchet) (remote : Bytes) (step : ℕ) : Type 0 where
  pub unstored : BTreeMap.contains_key step s.skipped_keys ≡ false
  pub counter : s.recv_count ≢ u32_max
  pub not_own : c.same_key remote s.dh_public ≡ false
  pub contributes :
      knows c s.remote_dh remote || c.was_contributory (c.diffie_hellman s.dh_secret remote) ≡ true
  pub forward : s.recv_count ≤ step

-- where a new chain may start
pub record Starts (s : DoubleRatchet) (step : ℕ) (epoch : Option ℕ) (first : ℕ) : Type 0 where
  pub from : s.recv_count ≤ first
  pub origin : (first ≤ step) ⊎ (epoch ≡ some first)

if_rule :
    (P : Received → Type 0) (b : Bool) (x y : Received)
    → (b ≡ true → P x)
    → (b ≡ false → P y)
    → P (if b then x else y)
if_rule P true x y h k = h refl
if_rule P false x y h k = k refl

-- the loop over positions keeps an attempt that opened, and goes on from an error
keep_or_next :
    (P : Received → Type 0) (attempt : Received) (next : String → Received)
    → P attempt
    → ((e : String) → P (next e))
    → P (elim attempt.0 [ ok v ↦ attempt | err e ↦ next e | panic ↦ attempt ])
keep_or_next P (ok v, s') next a n = a
keep_or_next P (err e, s') next a n = n e
keep_or_next P (panic, s') next a n = a

passed : (k d : Bool) → not k && not d ≡ false → k || d ≡ true
passed k d h = ground arith

module _ (c : Crypto) (s : DoubleRatchet) (remote : Bytes) (step : ℕ) (epoch : Option ℕ)
    (ct aad : Bytes) (P : Received → Type 0) (refused : (e : String) → P (err e, s))
    (late : BTreeMap.contains_key step s.skipped_keys ≡ true → P (open_skipped c s step ct aad))
    (same : Passes c s remote step
      → is_same_chain c s.remote_dh remote ≡ true
      → P (commit_if_opens c s ct aad (advance_same c remote step)))
    (fresh : Passes c s remote step
      → is_same_chain c s.remote_dh remote ≡ false
      → (first : ℕ) → Starts s step epoch first
      → P (commit_if_opens c s ct aad (advance_epoch c remote first step))) where
  module _ (p : Passes c s remote step) (other : is_same_chain c s.remote_dh remote ≡ false) where
    try_positions_cases :
        (rounds k : ℕ) (e : String) → P (try_positions c rounds k e s remote step ct aad)
    unfolding try_positions
    try_positions_cases zero k e = refused e
    try_positions_cases (suc rounds) k e =
        if_rule P (ltb step k) (err e, s) _ (λ _. refused e)
          (λ _.
            if_rule P (ltb (step - k) s.recv_count) (err e, s) _ (λ _. refused e)
              (λ low.
                keep_or_next P (commit_if_opens c s ct aad (advance_epoch c remote (step - k) step))
                  _
                  (fresh p other (step - k)
                    (record { from = ground arith; origin = inl (omega arith) }))
                  (λ e'. try_positions_cases rounds (k + 1) e')))

    new_chain_cases : (o : Option ℕ) → o ≡ epoch → P (recv_new_chain c s remote step o ct aad)
    unfolding recv_new_chain
    new_chain_cases none e = try_positions_cases dh_send_every 0 "open"
    new_chain_cases (some first) e =
        if_rule P (ltb first s.recv_count) (err "stale or replayed frame", s) _ (λ _. refused _)
          (λ low. fresh p other first (record { from = ground arith; origin = inr (cc) }))

  pub recv_inner_cases : P (recv_inner c s remote step epoch ct aad)
  unfolding recv_inner
  recv_inner_cases =
      if_rule P (BTreeMap.contains_key step s.skipped_keys) (open_skipped c s step ct aad) _ late
        (λ unstored.
          if_rule P (s.recv_count == u32_max) (err "receive counter exhausted", s) _
            (λ _. refused _)
            (λ counter.
              if_rule P (c.same_key remote s.dh_public) (err "reflected frame", s) _
                (λ _. refused _)
                (λ not_own.
                  if_rule P
                    (not (knows c s.remote_dh remote)
                      && not (c.was_contributory (c.diffie_hellman s.dh_secret remote)))
                    (err "invalid sender key", s) _ (λ _. refused _)
                    (λ contributes.
                      if_rule P (ltb step s.recv_count) (err "stale or replayed frame", s) _
                        (λ _. refused _)
                        (λ forward.
                          let p : Passes c s remote step = record {
                            unstored = unstored;
                            counter = ground arith;
                            not_own = not_own;
                            contributes = passed _ _ contributes;
                            forward = ground arith;
                          } in
                          if_rule P (is_same_chain c s.remote_dh remote)
                            (commit_if_opens c s ct aad (advance_same c remote step)) _ (same p)
                            (λ other. new_chain_cases p other epoch refl))))))
