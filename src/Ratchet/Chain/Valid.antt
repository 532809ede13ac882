-- ===== src/Ratchet/Chain/Valid.antt =====
-- ratchet.rs: the invariant under the steps of the chains.
use hash_chat.Prelude.{
  ℕ, zero, suc, ◌-◌, ◌≤◌, ◌<◌, ◌≡◌, refl, Option, none, some, arith, ltb, length, inl, inr,
  Bool-cases, ok, some, ltb→lt, ◌&&◌, leb,
}
use hash_chat.Prelude.Bytes.{Bytes}
use hash_chat.Prelude.BTreeMap.Laws.{Below-weaken}
use hash_chat.Ratchet.Crypto.{Crypto, IsLawful}
use hash_chat.Ratchet.State.{DoubleRatchet, u32_max, dh_send_every}
use hash_chat.Ratchet.State.Valid.{IsValid, store_skipped_key-IsValid}
use hash_chat.Ratchet.Chain.{
  dh_ratchet_send, dh_ratchet_recv, kdf_root_and_dh_chain, next_send_key, next_recv_key,
  ratchet_send, skip_one, skip_loop, skip_recv_until, is_some, dh_send_to,
}

module _ (c : Crypto) (law : IsLawful c) where
  pub next_recv_key-IsValid : (s : DoubleRatchet) → IsValid s → IsValid (next_recv_key c s).1
  unfolding next_recv_key
  next_recv_key-IsValid s v = record {
    secret_size = v.secret_size;
    public_size = v.public_size;
    remote_size = v.remote_size;
    root_size = v.root_size;
    send_size = v.send_size;
    recv_size = law.length-expand _ _ _;
    send_word = v.send_word;
    recv_word = omega arith;
    since_word = v.since_word;
    since_sends = v.since_sends;
    sorted = v.sorted;
    past = Below-weaken s.recv_count _ s.skipped_keys (omega (arith, v.recv_word)) v.past;
    keys = v.keys;
    capped = v.capped;
  }

  next_send_key-IsValid : (s : DoubleRatchet) → IsValid s → IsValid (next_send_key c s).1
  unfolding next_send_key
  next_send_key-IsValid s v = record {
    secret_size = v.secret_size;
    public_size = v.public_size;
    remote_size = v.remote_size;
    root_size = v.root_size;
    send_size = law.length-expand _ _ _;
    recv_size = v.recv_size;
    send_word = omega arith;
    recv_word = v.recv_word;
    since_word = omega arith;
    since_sends = omega (arith, v.since_sends);
    sorted = v.sorted;
    past = v.past;
    keys = v.keys;
    capped = v.capped;
  }

  pub dh_ratchet_recv-IsValid :
      (remote : Bytes) (s : DoubleRatchet)
      → length remote ≡ 32
      → IsValid s
      → IsValid (dh_ratchet_recv c remote s)
  unfolding dh_ratchet_recv kdf_root_and_dh_chain
  dh_ratchet_recv-IsValid remote s size v = record {
    secret_size = v.secret_size;
    public_size = v.public_size;
    remote_size = size;
    root_size = law.length-expand _ _ _;
    send_size = v.send_size;
    recv_size = law.length-expand _ _ _;
    send_word = v.send_word;
    recv_word = v.recv_word;
    since_word = v.since_word;
    since_sends = v.since_sends;
    sorted = v.sorted;
    past = v.past;
    keys = v.keys;
    capped = v.capped;
  }

  dh_send_to-IsValid :
      (r : Option Bytes) (fresh : Bytes) (s : DoubleRatchet)
      → length fresh ≡ 32
      → IsValid s
      → IsValid (dh_send_to c r fresh s)
  unfolding dh_send_to kdf_root_and_dh_chain
  dh_send_to-IsValid none fresh s size v = v
  dh_send_to-IsValid (some remote) fresh s size v = record {
    secret_size = size;
    public_size = law.length-public_of fresh;
    remote_size = v.remote_size;
    root_size = law.length-expand _ _ _;
    send_size = law.length-expand _ _ _;
    recv_size = v.recv_size;
    send_word = v.send_word;
    recv_word = v.recv_word;
    since_word = omega arith;
    since_sends = omega arith;
    sorted = v.sorted;
    past = v.past;
    keys = v.keys;
    capped = v.capped;
  }

  dh_ratchet_send-IsValid :
      (fresh : Bytes) (s : DoubleRatchet)
      → length fresh ≡ 32
      → IsValid s
      → IsValid (dh_ratchet_send c fresh s)
  unfolding dh_ratchet_send
  dh_ratchet_send-IsValid fresh s = dh_send_to-IsValid s.remote_dh fresh s

  pub ratchet_send-IsValid :
      (fresh : Bytes) (s : DoubleRatchet)
      → length fresh ≡ 32
      → IsValid s
      → IsValid (ratchet_send c fresh s).1
  unfolding ratchet_send
  ratchet_send-IsValid fresh s size v =
      elim (Bool-cases (is_some s.remote_dh && leb dh_send_every s.sends_since_dh)) [
        | inl e ↦ rw e (next_send_key-IsValid _ (dh_ratchet_send-IsValid fresh s size v))
        | inr e ↦ rw e (next_send_key-IsValid s v)
      ]

  recv_count-next :
      (s : DoubleRatchet) → s.recv_count < u32_max → s.recv_count < (next_recv_key c s).1.recv_count
  unfolding next_recv_key
  recv_count-next s lt = omega arith

  length-message_key : (s : DoubleRatchet) → length (next_recv_key c s).0.0 ≡ 32
  unfolding next_recv_key
  length-message_key s = law.length-expand _ _ _

  pub step-next : (s : DoubleRatchet) → (next_recv_key c s).0.1 ≡ s.recv_count
  unfolding next_recv_key
  step-next s = refl

  pub skip_one-IsValid :
      (s : DoubleRatchet) → s.recv_count < u32_max → IsValid s → IsValid (skip_one c s)
  unfolding skip_one
  skip_one-IsValid s lt v =
      store_skipped_key-IsValid _ _ (next_recv_key c s).1
        (omega (arith, step-next s, recv_count-next s lt)) (length-message_key s)
        (next_recv_key-IsValid s v)

  pub skip_loop-IsValid :
      (fuel until : ℕ) (s : DoubleRatchet)
      → until ≤ u32_max
      → IsValid s
      → IsValid (skip_loop c fuel until s)
  unfolding skip_loop
  skip_loop-IsValid zero until s le v = v
  skip_loop-IsValid (suc fuel) until s le v = elim (Bool-cases (ltb s.recv_count until)) [
    | inl more ↦ rw more (
        skip_loop-IsValid fuel until (skip_one c s) le
          (skip_one-IsValid s (omega (arith, ltb→lt _ _ more)) v))
    | inr done ↦ rw done v
  ]

  -- Skipping ahead keeps the state well formed.
  pub skip_recv_until-IsValid :
      (until : ℕ) (s : DoubleRatchet) {s' : DoubleRatchet}
      → until ≤ u32_max
      → IsValid s
      → skip_recv_until c until s ≡ ok s'
      → IsValid s'
  unfolding skip_recv_until
  skip_recv_until-IsValid until s le v h =
      ground (arith, skip_loop-IsValid (until - s.recv_count) until s le v)
