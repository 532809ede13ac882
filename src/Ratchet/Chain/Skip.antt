-- ===== src/Ratchet/Chain/Skip.antt =====
-- ratchet.rs: `skip_recv_until` against the reference of the n-th key of a chain.
use hash_chat.Prelude.{ℕ, ◌+◌, ◌-◌, ◌≤◌, ◌<◌, ◌≡◌, subst, ◌+◌, some, arith, ok}
use hash_chat.Prelude.BTreeMap.{get}
use hash_chat.Ratchet.Crypto.{Crypto, IsLawful}
use hash_chat.Ratchet.State.{DoubleRatchet, u32_max, max_skip}
use hash_chat.Ratchet.State.Valid.{IsValid}
use hash_chat.Ratchet.State.Evict.{count_from-Below}
use hash_chat.Ratchet.Chain.{skip_loop, skip_recv_until, message_key}
use hash_chat.Ratchet.Chain.Rounds.{chain_at, Skipped, Loop, skip_loop_lem}

module _ (c : Crypto) (law : IsLawful c) where
  pub skip_recv_until_lem :
      (until : ℕ) (s : DoubleRatchet) {s' : DoubleRatchet}
      → until ≤ u32_max
      → IsValid s
      → skip_recv_until c until s ≡ ok s'
      → Skipped c until s s' × (s.recv_count ≤ until) × (until ≤ s.recv_count + max_skip)
  unfolding skip_recv_until
  skip_recv_until_lem until s {s'} le v h =
      (subst (Skipped c until s) result done, bounds.0, bounds.1)
    where
      bounds : (s.recv_count ≤ until) × (until ≤ s.recv_count + max_skip)
      bounds = ground arith

      result : skip_loop c (until - s.recv_count) until s ≡ s'
      result = ground arith

      loop : Loop c law s.recv_count until s (skip_loop c (until - s.recv_count) until s)
      loop =
          skip_loop_lem c law s.recv_count (until - s.recv_count) until s le (omega arith) (record {
            valid = v;
            lower = omega arith;
            upper = bounds.0;
            window = omega (arith, bounds.1);
            few = omega (arith, count_from-Below s.recv_count s.skipped_keys v.past);
          })

      done : Skipped c until s (skip_loop c (until - s.recv_count) until s)
      done = record {
        count = loop.count;
        chain = loop.chain;
        else_same = loop.else_same;
        stored = loop.stored;
      }

  pub skip_recv_until_total :
      (until : ℕ) (s : DoubleRatchet)
      → s.recv_count ≤ until
      → until ≤ s.recv_count + max_skip
      → (s' : DoubleRatchet) × (skip_recv_until c until s ≡ ok s')
  unfolding skip_recv_until
  skip_recv_until_total until s lo hi = (skip_loop c (until - s.recv_count) until s, ground arith)

-- For lawful cryptographic operations and a well-formed ratchet: skipping ahead to a 32-bit
-- `until` leaves the counter at `until` and the chain as many steps on. It stores, for each step
-- that it passes over, at most 200 of them, the key that the chain gives at that step; the root,
-- the sending chain and the peer's key stay as they are.
pub skip_recv_until_keys :
    (c : Crypto)
    → IsLawful c
    → (until : ℕ) (s s' : DoubleRatchet) → until ≤ u32_max
    → IsValid s
    → skip_recv_until c until s ≡ ok s'
    → (j : ℕ) → s.recv_count ≤ j
    → j < until
    → (get j s'.skipped_keys
        ≡ some (message_key c (chain_at c (j - s.recv_count) s.chain_key_recv)))
      × (s'.recv_count ≡ until)
      × (until ≤ s.recv_count + max_skip)
      × (s'.chain_key_recv ≡ chain_at c (until - s.recv_count) s.chain_key_recv)
      × (s'.root_key ≡ s.root_key)
      × (s'.chain_key_send ≡ s.chain_key_send)
      × (s'.remote_dh ≡ s.remote_dh)
skip_recv_until_keys c law until s s' le v h j lo hi =
    let (k, from, to) = skip_recv_until_lem c law until s le v h in
    (
      k.stored j lo hi,
      k.count,
      to,
      k.chain,
      k.else_same.root_key,
      k.else_same.chain_key_send,
      k.else_same.remote_dh,
    )
