-- ===== src/Ratchet/Receive/Advance.antt =====
-- What the scratch copy may have become before the frame is opened: a well-formed state at the
-- frame's step, in which no consumed step has got its key back.
use hash_chat.Prelude.{
  ℕ, zero, suc, ◌+◌, ◌-◌, ◌*◌, ◌≤◌, ◌<◌, ◌≡◌, refl, ◌∙◌, ap, subst, Option, none, some, arith, ltb,
  ltb→lt, length, ok, Bool-cases, inl, inr, >>=-eq-ok,
}
use hash_chat.Prelude.Bytes.{Bytes}
use hash_chat.Prelude.BTreeMap.{get}
use hash_chat.Ratchet.Crypto.{Crypto, IsLawful}
use hash_chat.Ratchet.State.{DoubleRatchet, u32_max, max_skip}
use hash_chat.Ratchet.State.Valid.{IsValid}
use hash_chat.Ratchet.State.Evict.{get-store_none}
use hash_chat.Ratchet.Chain.{skip_one, skip_loop, skip_recv_until, dh_ratchet_recv}
use hash_chat.Ratchet.Chain.Valid.{skip_recv_until-IsValid, dh_ratchet_recv-IsValid}
use hash_chat.Ratchet.Chain.Skip.{skip_recv_until_lem}
use hash_chat.Ratchet.Chain.Rounds.{skip_one-keys}
use hash_chat.Ratchet.Receive.{remember_remote, remember, advance_same, advance_epoch}

-- a step whose key is gone: passed, and not stored
pub record Gone (n : ℕ) (s : DoubleRatchet) : Type 0 where
  pub passed : n < s.recv_count
  pub absent : get n s.skipped_keys ≡ none

module _ (c : Crypto) (law : IsLawful c) where
  skip_one-Gone :
      (n : ℕ) (s : DoubleRatchet) → s.recv_count < u32_max → Gone n s → Gone n (skip_one c s)
  skip_one-Gone n s lt g =
      let (count, keys) = skip_one-keys c law s lt in
      record {
        passed = omega (arith, count, g.passed);
        absent = ap (get n) keys ∙ get-store_none n s.recv_count _ s g.passed g.absent;
      }

  skip_loop-Gone :
      (n fuel until : ℕ) (s : DoubleRatchet)
      → until ≤ u32_max
      → Gone n s
      → Gone n (skip_loop c fuel until s)
  unfolding skip_loop
  skip_loop-Gone n zero until s le g = g
  skip_loop-Gone n (suc fuel) until s le g = elim (Bool-cases (ltb s.recv_count until)) [
    | inl more ↦ rw more (
        skip_loop-Gone n fuel until (skip_one c s) le
          (skip_one-Gone n s (omega (arith, ltb→lt _ _ more)) g))
    | inr done ↦ rw done g
  ]

  skip_recv_until-Gone :
      (n until : ℕ) (s : DoubleRatchet) {s' : DoubleRatchet}
      → until ≤ u32_max
      → Gone n s
      → skip_recv_until c until s ≡ ok s'
      → Gone n s'
  unfolding skip_recv_until
  skip_recv_until-Gone n until s le g h =
      ground (arith, skip_loop-Gone n (until - s.recv_count) until s le g)

-- from `s` to the scratch state `a`, ready for the frame of `step`
pub record Advanced (step : ℕ) (s a : DoubleRatchet) : Type 0 where
  pub valid : IsValid a
  pub count : a.recv_count ≡ step
  pub forward : s.recv_count ≤ step
  pub bounded : step ≤ s.recv_count + 2 * max_skip
  pub gone : (n : ℕ) → Gone n s → Gone n a
  pub send_same :
      (a.chain_key_send ≡ s.chain_key_send)
      × (a.send_count ≡ s.send_count)
      × (a.sends_since_dh ≡ s.sends_since_dh)
  pub own_same : (a.dh_secret ≡ s.dh_secret) × (a.dh_public ≡ s.dh_public)

module _ (c : Crypto) (law : IsLawful c) where
  skip-Advanced :
      (step : ℕ) (s : DoubleRatchet) {a : DoubleRatchet}
      → step ≤ u32_max
      → IsValid s
      → skip_recv_until c step s ≡ ok a
      → Advanced step s a
  skip-Advanced step s le v h =
      let (k, lo, hi) = skip_recv_until_lem c law step s le v h in
      record {
        valid = skip_recv_until-IsValid c law step s le v h;
        count = k.count;
        forward = lo;
        bounded = omega (arith, hi);
        gone = λ n g. skip_recv_until-Gone c law n step s le g h;
        send_same =
            (k.else_same.chain_key_send, k.else_same.send_count, k.else_same.sends_since_dh);
        own_same = (k.else_same.dh_secret, k.else_same.dh_public);
      }

  with_remote :
      (remote : Bytes) (s : DoubleRatchet)
      → length remote ≡ 32
      → IsValid s
      → IsValid (record s { remote_dh = some remote })
  with_remote remote s size v = record {
    secret_size = v.secret_size;
    public_size = v.public_size;
    remote_size = size;
    root_size = v.root_size;
    send_size = v.send_size;
    recv_size = v.recv_size;
    send_word = v.send_word;
    recv_word = v.recv_word;
    since_word = v.since_word;
    since_sends = v.since_sends;
    sorted = v.sorted;
    past = v.past;
    keys = v.keys;
    capped = v.capped;
  }

  remember-Advanced :
      (r : Option Bytes) (remote : Bytes) (step : ℕ) (s a : DoubleRatchet)
      → length remote ≡ 32
      → Advanced step s a
      → Advanced step s (remember r remote a)
  unfolding remember
  remember-Advanced (some k) remote step s a size d = d
  remember-Advanced none remote step s a size d = record {
    valid = with_remote remote a size d.valid;
    count = d.count;
    forward = d.forward;
    bounded = d.bounded;
    gone = λ n g. let h = d.gone n g in record { passed = h.passed; absent = h.absent };
    send_same = d.send_same;
    own_same = d.own_same;
  }

  pub advance_same-Advanced :
      (remote : Bytes) (step : ℕ) (s : DoubleRatchet) {a : DoubleRatchet}
      → length remote ≡ 32
      → step ≤ u32_max
      → IsValid s
      → advance_same c remote step s ≡ ok a
      → Advanced step s a
  unfolding advance_same remember_remote
  advance_same-Advanced remote step s {a} size le v h =
      let (k, run, e) = >>=-eq-ok (skip_recv_until c step s) _ h in
      let same : remember k.remote_dh remote k ≡ a = cc in
      subst (Advanced step s) (same)
        (remember-Advanced k.remote_dh remote step s k size (skip-Advanced step s le v run))

  module _ (remote : Bytes) (k : DoubleRatchet) where
    recv_count-dh : (dh_ratchet_recv c remote k).recv_count ≡ k.recv_count
    unfolding dh_ratchet_recv
    recv_count-dh = refl

    Gone-dh : (n : ℕ) → Gone n k → Gone n (dh_ratchet_recv c remote k)
    unfolding dh_ratchet_recv
    Gone-dh n g = record { passed = g.passed; absent = g.absent }

    send_same-dh :
        let d = dh_ratchet_recv c remote k in
        (d.chain_key_send ≡ k.chain_key_send)
        × (d.send_count ≡ k.send_count)
        × (d.sends_since_dh ≡ k.sends_since_dh)
    unfolding dh_ratchet_recv
    send_same-dh = (refl, refl, refl)

    own_same-dh :
        let d = dh_ratchet_recv c remote k in
        (d.dh_secret ≡ k.dh_secret) × (d.dh_public ≡ k.dh_public)
    unfolding dh_ratchet_recv
    own_same-dh = (refl, refl)

  pub advance_epoch-Advanced :
      (remote : Bytes) (first step : ℕ) (s : DoubleRatchet) {a : DoubleRatchet}
      → length remote ≡ 32
      → first ≤ u32_max
      → step ≤ u32_max
      → IsValid s
      → advance_epoch c remote first step s ≡ ok a
      → Advanced step s a
  unfolding advance_epoch
  advance_epoch-Advanced remote first step s size lf le v h =
      let (k, run, e) = >>=-eq-ok (skip_recv_until c first s) _ h in
      let d₁ = skip-Advanced first s lf v run in
      let d₂ =
        skip-Advanced step (dh_ratchet_recv c remote k) le
          (dh_ratchet_recv-IsValid c law remote k size d₁.valid) e in
      record {
        valid = d₂.valid;
        count = d₂.count;
        forward = omega (arith, d₁.forward, d₁.count, d₂.forward, recv_count-dh remote k);
        bounded = omega (
          arith,
          (skip_recv_until_lem c law first s lf v run).2,
          (skip_recv_until_lem c law step (dh_ratchet_recv c remote k) le
              (dh_ratchet_recv-IsValid c law remote k size d₁.valid) e).2,
          d₁.count,
          recv_count-dh remote k,
        );
        gone = λ n g. d₂.gone n (Gone-dh remote k n (d₁.gone n g));
        send_same = (
          d₂.send_same.0 ∙ (send_same-dh remote k).0 ∙ d₁.send_same.0,
          d₂.send_same.1 ∙ (send_same-dh remote k).1 ∙ d₁.send_same.1,
          d₂.send_same.2 ∙ (send_same-dh remote k).2 ∙ d₁.send_same.2,
        );
        own_same = (
          d₂.own_same.0 ∙ (own_same-dh remote k).0 ∙ d₁.own_same.0,
          d₂.own_same.1 ∙ (own_same-dh remote k).1 ∙ d₁.own_same.1,
        );
      }
