-- ===== src/Ratchet/Chain/Rounds.antt =====
-- ratchet.rs: the rounds of `skip_recv_until`, with the n-th key of a chain as the reference.
use hash_chat.Prelude.{
  ℕ, zero, suc, ◌+◌, ◌-◌, ◌≤◌, ◌<◌, ◌≡◌, refl, sym, ◌∙◌, ap, ap₂, ◌+◌, ◌==◌, Option, some, arith,
  ltb, inl, inr, Bool-cases, ==_iff, ltb→lt, if◌then◌else◌,
}
use hash_chat.Prelude.Bytes.{Bytes}
use hash_chat.Prelude.BTreeMap.{get}
use hash_chat.Ratchet.Crypto.{Crypto, IsLawful}
use hash_chat.Ratchet.State.{DoubleRatchet, u32_max, max_skipped_keys, store_skipped_key}
use hash_chat.Ratchet.State.Valid.{IsValid}
use hash_chat.Ratchet.State.Evict.{count_from, count_from-store, count_from_mono, get-store}
use hash_chat.Ratchet.Chain.{next_recv_key, skip_one, skip_loop, message_key, next_chain}
use hash_chat.Ratchet.Chain.Valid.{skip_one-IsValid}

-- the chain key after `n` steps
abbrev pub chain_at : Crypto → ℕ → Bytes → Bytes
chain_at c zero chain = chain
chain_at c (suc n) chain = chain_at c n (next_chain c chain)

-- All but the receiving chain, its counter and its stored keys is as before.
pub record SameElse (s s' : DoubleRatchet) : Type 0 where
  pub dh_secret : s'.dh_secret ≡ s.dh_secret
  pub dh_public : s'.dh_public ≡ s.dh_public
  pub remote_dh : s'.remote_dh ≡ s.remote_dh
  pub root_key : s'.root_key ≡ s.root_key
  pub chain_key_send : s'.chain_key_send ≡ s.chain_key_send
  pub send_count : s'.send_count ≡ s.send_count
  pub sends_since_dh : s'.sends_since_dh ≡ s.sends_since_dh

SameElse-trans : {a b d : DoubleRatchet} → SameElse a b → SameElse b d → SameElse a d
SameElse-trans h k = record {
  dh_secret = k.dh_secret ∙ h.dh_secret;
  dh_public = k.dh_public ∙ h.dh_public;
  remote_dh = k.remote_dh ∙ h.remote_dh;
  root_key = k.root_key ∙ h.root_key;
  chain_key_send = k.chain_key_send ∙ h.chain_key_send;
  send_count = k.send_count ∙ h.send_count;
  sends_since_dh = k.sends_since_dh ∙ h.sends_since_dh;
}

SameElse-refl : (s : DoubleRatchet) → SameElse s s
SameElse-refl s = record {
  dh_secret = refl;
  dh_public = refl;
  remote_dh = refl;
  root_key = refl;
  chain_key_send = refl;
  send_count = refl;
  sends_since_dh = refl;
}

-- What skipping from `s` to `until` must give.
pub record Skipped (c : Crypto) (until : ℕ) (s s' : DoubleRatchet) : Type 0 where
  pub count : s'.recv_count ≡ until
  pub chain : s'.chain_key_recv ≡ chain_at c (until - s.recv_count) s.chain_key_recv
  pub else_same : SameElse s s'
  pub stored :
      (j : ℕ)
      → s.recv_count ≤ j
      → j < until
      → get j s'.skipped_keys
        ≡ some (message_key c (chain_at c (j - s.recv_count) s.chain_key_recv))

module _ (c : Crypto) (law : IsLawful c) where
  -- one round
  record OneSkipped (s s' : DoubleRatchet) : Type 0 where
    count : s'.recv_count ≡ s.recv_count + 1
    chain : s'.chain_key_recv ≡ next_chain c s.chain_key_recv
    else_same : SameElse s s'
    keys :
        s'.skipped_keys
        ≡ (store_skipped_key s.recv_count (message_key c s.chain_key_recv) s).skipped_keys

  skip_one_lem : (s : DoubleRatchet) → s.recv_count < u32_max → OneSkipped s (skip_one c s)
  unfolding skip_one next_recv_key store_skipped_key
  skip_one_lem s lt = record {
    count = omega arith;
    chain = refl;
    else_same = record {
      dh_secret = refl;
      dh_public = refl;
      remote_dh = refl;
      root_key = refl;
      chain_key_send = refl;
      send_count = refl;
      sends_since_dh = refl;
    };
    keys = refl;
  }

  -- the loop, from a state that has already stored the keys from `base` on
  pub record Loop (base until : ℕ) (s s' : DoubleRatchet) : Type 0 where
    pub count : s'.recv_count ≡ until
    pub chain : s'.chain_key_recv ≡ chain_at c (until - s.recv_count) s.chain_key_recv
    pub else_same : SameElse s s'
    pub stored :
        (j : ℕ)
        → s.recv_count ≤ j
        → j < until
        → get j s'.skipped_keys
          ≡ some (message_key c (chain_at c (j - s.recv_count) s.chain_key_recv))
    pub kept : (j : ℕ) → base ≤ j → j < s.recv_count → get j s'.skipped_keys ≡ get j s.skipped_keys

  pub record Start (base until : ℕ) (s : DoubleRatchet) : Type 0 where
    pub valid : IsValid s
    pub lower : base ≤ s.recv_count
    pub upper : s.recv_count ≤ until
    pub window : until - base ≤ max_skipped_keys
    pub few : count_from base s.skipped_keys ≤ s.recv_count - base

  Start-next :
      (base until : ℕ) (s : DoubleRatchet)
      → until ≤ u32_max
      → s.recv_count < until
      → Start base until s
      → Start base until (skip_one c s)
  Start-next base until s le lt h =
      let one = skip_one_lem s (omega arith) in
      record {
        valid = skip_one-IsValid c law s (omega arith) h.valid;
        lower = omega (arith, one.count, h.lower);
        upper = omega (arith, one.count, lt);
        window = h.window;
        few = omega (
          arith,
          h.few,
          h.lower,
          one.count,
          ap (count_from base) one.keys,
          count_from-store base s.recv_count (message_key c s.chain_key_recv) s,
        );
      }

  chain_at_step :
      (n m : ℕ) (chain : Bytes) → n ≡ suc m → chain_at c n chain ≡ chain_at c m (next_chain c chain)
  chain_at_step n m chain e = ap (λ k. chain_at c k chain) e

  chain_at_none : (n : ℕ) (chain : Bytes) → n ≡ 0 → chain_at c n chain ≡ chain
  chain_at_none n chain e = ap (λ k. chain_at c k chain) e

  module _ (base until : ℕ) (s : DoubleRatchet) (le : until ≤ u32_max)
      (h : Start base until s) where
    Loop-done : until ≤ s.recv_count → Loop base until s s
    Loop-done done = record {
      count = omega (arith, h.upper);
      chain = sym (chain_at_none (until - s.recv_count) s.chain_key_recv (omega arith));
      else_same = SameElse-refl s;
      stored = λ j lo hi. absurd (omega arith);
      kept = λ j lo hi. refl;
    }

    one : s.recv_count < until → OneSkipped s (skip_one c s)
    one more = skip_one_lem s (omega arith)

    get_after :
        (more : s.recv_count < until) (j : ℕ)
        → base ≤ j
        → get j (skip_one c s).skipped_keys ≡ (
            if s.recv_count == j
            then some (message_key c s.chain_key_recv)
            else get j s.skipped_keys)
    get_after more j lo =
        ap (get j) (one more).keys
        ∙ get-store j s.recv_count (message_key c s.chain_key_recv) s h.valid.sorted
            (omega (arith, count_from_mono base j s.skipped_keys lo, h.few, h.lower, h.window))

    stored_key : ℕ → Option Bytes
    stored_key j = some (message_key c (chain_at c (j - s.recv_count) s.chain_key_recv))

    if_eq :
        (j : ℕ)
        → s.recv_count ≡ j
        → (if s.recv_count == j
            then some (message_key c s.chain_key_recv)
            else get j s.skipped_keys)
          ≡ stored_key j
    unfolding stored_key
    if_eq j e = ground (arith, chain_at_none (j - s.recv_count) s.chain_key_recv)

    stored_more :
        {s' : DoubleRatchet} (more : s.recv_count < until)
        → Loop base until (skip_one c s) s'
        → (j : ℕ) → s.recv_count ≤ j
        → j < until
        → get j s'.skipped_keys ≡ stored_key j
    unfolding stored_key
    stored_more {s'} more rest j lo hi = elim (Bool-cases (s.recv_count == j)) [
      | inl same ↦
          let e : s.recv_count ≡ j = (==_iff _ _).0 same in
          rest.kept j (omega (arith, h.lower)) (omega (arith, (one more).count))
          ∙ get_after more j (omega (arith, h.lower))
          ∙ if_eq j e
      | inr other ↦
          let ne : s.recv_count < j = ground arith in
          rest.stored j (omega (arith, (one more).count)) hi
          ∙ ap₂ (λ n ch. some (message_key c (chain_at c n ch))) (ap (λ n. j - n) (one more).count)
              (one more).chain
          ∙ ap (λ k. some (message_key c k))
              (sym (
                chain_at_step (j - s.recv_count) (j - (s.recv_count + 1)) s.chain_key_recv
                  (omega arith)))
    ]

    Loop-more :
        {s' : DoubleRatchet} (more : s.recv_count < until)
        → Loop base until (skip_one c s) s'
        → Loop base until s s'
    Loop-more {s'} more rest = record {
      count = rest.count;
      chain =
          rest.chain
          ∙ ap₂ (chain_at c) (ap (λ n. until - n) (one more).count) (one more).chain
          ∙ sym (
              chain_at_step (until - s.recv_count) (until - (s.recv_count + 1)) s.chain_key_recv
                (omega arith));
      else_same = SameElse-trans (one more).else_same rest.else_same;
      stored = λ j lo hi. unfold stored_key in stored_more more rest j lo hi;
      kept = λ j lo hi.
          rest.kept j lo (omega (arith, (one more).count)) ∙ get_after more j lo ∙ if_ne j hi;
    }
      where
        if_ne :
            (j : ℕ)
            → j < s.recv_count
            → (if s.recv_count == j
                then some (message_key c s.chain_key_recv)
                else get j s.skipped_keys)
              ≡ get j s.skipped_keys
        if_ne j lt = ground arith

  pub skip_loop_lem :
      (base fuel until : ℕ) (s : DoubleRatchet)
      → until ≤ u32_max
      → until - s.recv_count ≤ fuel
      → Start base until s
      → Loop base until s (skip_loop c fuel until s)
  unfolding skip_loop
  skip_loop_lem base zero until s le enough h = Loop-done base until s le h (omega arith)
  skip_loop_lem base (suc fuel) until s le enough h = elim (Bool-cases (ltb s.recv_count until)) [
    | inl more ↦ rw more (
        let lt = ltb→lt _ _ more in
        Loop-more base until s le h lt (
          skip_loop_lem base fuel until (skip_one c s) le
            (omega (arith, (skip_one_lem s (omega arith)).count))
            (Start-next base until s le lt h)))
    | inr done ↦ rw done (Loop-done base until s le h (ground arith))
  ]

  pub skip_one-keys :
      (s : DoubleRatchet)
      → s.recv_count < u32_max
      → ((skip_one c s).recv_count ≡ s.recv_count + 1)
        × ((skip_one c s).skipped_keys
            ≡ (store_skipped_key s.recv_count (message_key c s.chain_key_recv) s).skipped_keys)
  skip_one-keys s lt = let one = skip_one_lem s lt in (one.count, one.keys)
