-- ===== src/Ratchet/Receive/Replay.antt =====
-- ratchet.rs: the steps that can no longer be opened.
use hash_chat.Prelude.{ℕ, ◌<◌, ◌≡◌, ◌∙◌, none, some, arith, ◌⊎◌, inl, inr}
use hash_chat.Prelude.Bytes.{Bytes}
use hash_chat.Prelude.BTreeMap.{get}
use hash_chat.Prelude.BTreeMap.Laws.{get-remove, get-Below}
use hash_chat.Ratchet.Crypto.{Crypto, IsLawful}
use hash_chat.Ratchet.State.{DoubleRatchet, u32_max, wipe_skipped_key}
use hash_chat.Ratchet.State.Valid.{IsValid, wipe_skipped_key-IsValid}
use hash_chat.Ratchet.Chain.{next_recv_key}
use hash_chat.Ratchet.Chain.Valid.{next_recv_key-IsValid}
use hash_chat.Ratchet.Receive.Advance.{Gone}
use hash_chat.Ratchet.Receive.Accept.{Accepted, late, fresh}

-- A step that can no longer be opened: its key is not stored, and it is behind the counter, or the
-- counter has reached its end.
pub record Spent (n : ℕ) (s : DoubleRatchet) : Type 0 where
  pub absent : get n s.skipped_keys ≡ none
  pub behind : (n < s.recv_count) ⊎ (s.recv_count ≡ u32_max)

module _ (c : Crypto) (law : IsLawful c) where
  pub Spent-wipe :
      (n k : ℕ) (s : DoubleRatchet) → IsValid s → Spent n s → Spent n (wipe_skipped_key k s)
  unfolding wipe_skipped_key
  Spent-wipe n k s v h = record {
    absent = get-remove k n s.skipped_keys v.sorted ∙ ground (arith, h.absent);
    behind = h.behind;
  }

  stored_behind :
      (n : ℕ) (s : DoubleRatchet) {key : Bytes}
      → IsValid s
      → get n s.skipped_keys ≡ some key
      → n < s.recv_count
  stored_behind n s v got = ground (arith, get-Below s.recv_count n s.skipped_keys v.past)

  wipe-Spent :
      (n : ℕ) (s : DoubleRatchet) {key : Bytes}
      → IsValid s
      → get n s.skipped_keys ≡ some key
      → Spent n (wipe_skipped_key n s)
  unfolding wipe_skipped_key
  wipe-Spent n s v got = record {
    absent = get-remove n n s.skipped_keys v.sorted ∙ ground arith;
    behind = inl (stored_behind n s v got);
  }

  next-Spent : (n : ℕ) (a : DoubleRatchet) → IsValid a → Gone n a → Spent n (next_recv_key c a).1
  unfolding next_recv_key
  next-Spent n a v g = record { absent = g.absent; behind = ground (arith, g.passed) }

  taken-Spent : (a : DoubleRatchet) → IsValid a → Spent a.recv_count (next_recv_key c a).1
  unfolding next_recv_key
  taken-Spent a v = record {
    absent = get-Below a.recv_count a.recv_count a.skipped_keys v.past (omega arith);
    behind = ground (arith, v.recv_word);
  }

  module _ {step : ℕ} {s s' : DoubleRatchet} (v : IsValid s) where
    pub Accepted-IsValid : Accepted c step s s' → IsValid s'
    Accepted-IsValid (late key got e) = rw e (wipe_skipped_key-IsValid step s v)
    Accepted-IsValid (fresh a d below e) = rw e (next_recv_key-IsValid c law a d.valid)

    -- the step itself is spent
    pub Accepted-Spent : Accepted c step s s' → Spent step s'
    Accepted-Spent (late key got e) = rw e (wipe-Spent step s v got)
    Accepted-Spent (fresh a d below e) = rw (e, ← d.count) (taken-Spent a d.valid)

    -- and no spent step comes back
    pub Accepted-keeps : (n : ℕ) → Accepted c step s s' → Spent n s → Spent n s'
    Accepted-keeps n (late key got e) h = rw e (Spent-wipe n step s v h)
    Accepted-keeps n (fresh a d below e) h =
        rw e (
          next-Spent n a d.valid
            (d.gone n (record { passed = passed h.behind; absent = h.absent })))
      where
        passed : (n < s.recv_count) ⊎ (s.recv_count ≡ u32_max) → n < s.recv_count
        passed (inl lt) = lt
        passed (inr end) = absurd (below end)

    -- a spent step is not accepted
    pub Accepted-unspent : Accepted c step s s' → Spent step s → ⊥
    Accepted-unspent (late key got e) h = cc (h.absent)
    Accepted-unspent (fresh a d below e) h = elim h.behind [
      | inl lt ↦ absurd (omega (arith, d.forward, lt))
      | inr end ↦ absurd (below end)
    ]
