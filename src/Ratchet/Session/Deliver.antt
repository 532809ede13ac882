-- ===== src/Ratchet/Session/Deliver.antt =====
-- ratchet.rs: the delivery of the next frame of a sender that is in step.
use hash_chat.Prelude.{
  ℕ, ◌≤◌, ◌<◌, ◌≡◌, ◌⊎◌, inl, inr, ◌∙◌, refl, ap, sym, subst, true, false, ◌&&◌, none, some, arith,
  ok, length, ltb, leb, Bool-cases,
}
use hash_chat.Prelude.Bytes.{Bytes}
use hash_chat.Ratchet.Crypto.{Crypto, IsLawful}
use hash_chat.Ratchet.State.{DoubleRatchet, u32_max, dh_send_every}
use hash_chat.Ratchet.State.Valid.{IsValid}
use hash_chat.Ratchet.Frame.{encrypt_with_key, decrypt_with_key}
use hash_chat.Ratchet.Chain.{
  epoch_start, next_recv_key, next_send_key, ratchet_send, dh_ratchet_send, dh_ratchet_recv,
  kdf_root_and_dh_chain, is_some, message_key, next_chain,
}
use hash_chat.Ratchet.Chain.Valid.{ratchet_send-IsValid}
use hash_chat.Ratchet.Receive.{
  Received, recv_inner, remember_remote, is_same_chain, try_recv_decrypt_epoch,
}
use hash_chat.Ratchet.Session.{InStep}
use hash_chat.Ratchet.Session.Sealed.{decrypt-encrypt}
use hash_chat.Ratchet.Session.Expect.{IsHonest, recv_same, recv_rotated}
use hash_chat.Ratchet.Receive.Life.{recv_inner-IsValid, IsFrame}

-- The sender's chain in `b` and the receiver's in `a` agree, and the receiver knows the sender's key.
record Ready (c : Crypto) (b a : DoubleRatchet) : Type 0 where
  chain : b.chain_key_send ≡ a.chain_key_recv
  count : b.send_count ≡ a.recv_count
  root : b.root_key ≡ a.root_key
  own_key : a.dh_public ≡ c.public_of a.dh_secret
  knows_receiver : (b.remote_dh ≡ none) ⊎ (b.remote_dh ≡ some a.dh_public)
  knows_sender : a.remote_dh ≡ some b.dh_public

module _ (c : Crypto) (law : IsLawful c) where
  Ready-InStep :
      (b a : DoubleRatchet)
      → Ready c b a
      → IsValid (next_send_key c b).1
      → IsValid (next_recv_key c a).1
      → InStep c (next_send_key c b).1 (next_recv_key c a).1
  unfolding next_send_key next_recv_key
  Ready-InStep b a h vb va = record {
    sender_valid = vb;
    receiver_valid = va;
    chain = ap (next_chain c) h.chain;
    count = omega (arith, h.count);
    root = h.root;
    own_key = h.own_key;
    knows_receiver = h.knows_receiver;
    knows_sender = inl h.knows_sender;
  }

  -- the two sides draw the same message key
  Ready-key :
      (b a : DoubleRatchet) → Ready c b a → (next_send_key c b).0.0 ≡ (next_recv_key c a).0.0
  unfolding next_send_key next_recv_key
  Ready-key b a h = ap (message_key c) h.chain

  module _ {s r : DoubleRatchet} (sync : InStep c s r) where
    known : (r.remote_dh ≡ some s.dh_public) ⊎ (r.remote_dh ≡ none)
    known = elim sync.knows_sender [ inl k ↦ inl k | inr (k, zero_sends) ↦ inr k ]

    same_chain : is_same_chain c r.remote_dh s.dh_public ≡ true
    unfolding is_same_chain
    same_chain = ground (arith, known, law.same_key_refl s.dh_public)

    Ready-same : Ready c s (remember_remote s.dh_public r)
    unfolding remember_remote
    Ready-same =
        ground (arith, known, sync.chain, sync.count, sync.root, sync.own_key, sync.knows_receiver)

    -- a sender that rotates has sent before, so both keys are known
    rotation_keys :
        (is_some s.remote_dh && leb dh_send_every s.sends_since_dh) ≡ true
        → (s.remote_dh ≡ some r.dh_public) × (r.remote_dh ≡ some s.dh_public)
    unfolding is_some
    rotation_keys h = ground (arith, sync.knows_receiver, sync.knows_sender)

    Ready-rotated :
        (secret : Bytes)
        → s.remote_dh ≡ some r.dh_public
        → Ready c (dh_ratchet_send c secret s) (dh_ratchet_recv c (c.public_of secret) r)
    unfolding dh_ratchet_send dh_ratchet_recv kdf_root_and_dh_chain
    Ready-rotated secret k =
        ground (arith, sync.count, sync.root, sync.own_key, law.agreement secret r.dh_secret)

remember_count :
    (remote : Bytes) (r : DoubleRatchet) → (remember_remote remote r).recv_count ≡ r.recv_count
unfolding remember_remote
remember_count remote r = ground arith

module _ (c : Crypto) where
  dh_count :
      (remote : Bytes) (r : DoubleRatchet) → (dh_ratchet_recv c remote r).recv_count ≡ r.recv_count
  unfolding dh_ratchet_recv
  dh_count remote r = refl

  sent_public : (b : DoubleRatchet) → (next_send_key c b).1.dh_public ≡ b.dh_public
  unfolding next_send_key
  sent_public b = refl

-- The frame `m`, sealed and received, opens at its step and leaves the two in step.
abbrev Delivers :
    Crypto → DoubleRatchet → (nonce plain aad : Bytes) → (Bytes × ℕ) × DoubleRatchet → Type 0
Delivers c r nonce plain aad m =
    let ((key, step), s') = m in
    (ct : Bytes)
    → encrypt_with_key c (some nonce) key plain aad ≡ ok ct
    → let received = try_recv_decrypt_epoch c r s'.dh_public step (epoch_start s') ct aad in
      (received.0 ≡ ok (plain, step)) × InStep c s' received.1

module _ (c : Crypto) (law : IsLawful c) (r : DoubleRatchet) (v : IsValid r)
    (room : r.recv_count < u32_max) (nonce plain aad : Bytes) (nonce_size : length nonce ≡ 12) where
  module _ (b a : DoubleRatchet) (ready : Ready c b a) (at_r : a.recv_count ≡ r.recv_count)
      (vb : IsValid (next_send_key c b).1) where
    sent_step : (next_send_key c b).0.1 ≡ r.recv_count
    unfolding next_send_key
    sent_step = ready.count ∙ at_r

    sent_key : (next_send_key c b).1.dh_public ≡ b.dh_public
    unfolding next_send_key
    sent_key = refl

    epoch-le : epoch_start (next_send_key c b).1 ≤ (next_send_key c b).0.1
    unfolding epoch_start next_send_key
    epoch-le = omega arith

    Delivers-ready :
        ((ct : Bytes)
          → decrypt_with_key c (next_recv_key c a).0.0 ct aad ≡ ok plain
          → recv_inner c r b.dh_public r.recv_count
              (some (epoch_start (next_send_key c b).1))
              ct
              aad
            ≡ (ok (plain, a.recv_count), (next_recv_key c a).1))
        → Delivers c r nonce plain aad (next_send_key c b)
    unfolding try_recv_decrypt_epoch
    Delivers-ready run ct sealed =
        let opens : decrypt_with_key c (next_recv_key c a).0.0 ct aad ≡ ok plain =
          subst (λ k. decrypt_with_key c k ct aad ≡ ok plain) (Ready-key c law b a ready)
            (decrypt-encrypt c law nonce _ plain aad nonce_size sealed) in
        let got = run ct opens in
        let frame : IsFrame b.dh_public r.recv_count (some (epoch_start (next_send_key c b).1)) =
          record {
            key = subst (λ k. length k ≡ 32) sent_key vb.public_size;
            word = v.recv_word;
            epoch_word = λ first e. ground (arith, epoch-le, sent_step, v.recv_word);
          } in
        let in_order : ltb r.recv_count (epoch_start (next_send_key c b).1) ≡ false =
          ground (arith, epoch-le, sent_step) in
        let va : IsValid (next_recv_key c a).1 =
          subst IsValid (ap (λ (q : Received). q.1) got)
            (recv_inner-IsValid c law r v b.dh_public r.recv_count _ ct aad frame) in
        rw (sent_key, sent_step, in_order, got)
          (ap (λ n. ok (plain, n)) at_r, Ready-InStep c law b a ready vb va)

module _ (c : Crypto) (law : IsLawful c) (s r : DoubleRatchet) (sync : InStep c s r)
    (room : s.send_count < u32_max) (secret : Bytes) (secret_size : length secret ≡ 32)
    (honest : IsHonest c r (ratchet_send c secret s).1.dh_public) (nonce plain aad : Bytes)
    (nonce_size : length nonce ≡ 12) where
  remote : Bytes
  remote = (ratchet_send c secret s).1.dh_public

  space : r.recv_count < u32_max
  space = omega (arith, sync.count)

  Delivers-by :
      (b a : DoubleRatchet)
      → ratchet_send c secret s ≡ next_send_key c b
      → Ready c b a
      → a.recv_count ≡ r.recv_count
      → (IsHonest c r b.dh_public
          → (ct : Bytes) → decrypt_with_key c (next_recv_key c a).0.0 ct aad ≡ ok plain
          → recv_inner c r b.dh_public r.recv_count
              (some (epoch_start (next_send_key c b).1))
              ct
              aad
            ≡ (ok (plain, a.recv_count), (next_recv_key c a).1))
      → Delivers c r nonce plain aad (ratchet_send c secret s)
  Delivers-by b a e ready at_r run =
      let vb : IsValid (next_send_key c b).1 =
        subst (λ m. IsValid m.1) e
          (ratchet_send-IsValid c law secret s secret_size sync.sender_valid) in
      let honest_b : IsHonest c r b.dh_public =
        subst (IsHonest c r)
          (ap (λ (m : (Bytes × ℕ) × DoubleRatchet). m.1.dh_public) e ∙ sent_public c b) honest in
      subst (Delivers c r nonce plain aad) (sym e) (
        Delivers-ready c law r sync.receiver_valid space nonce plain aad nonce_size b a ready at_r
          vb (run honest_b))

  plain_case :
      (is_some s.remote_dh && leb dh_send_every s.sends_since_dh) ≡ false
      → Delivers c r nonce plain aad (ratchet_send c secret s)
  plain_case no_rotation =
      Delivers-by s (remember_remote s.dh_public r) (sent_plain no_rotation) (Ready-same c law sync)
        (remember_count s.dh_public r)
        (λ h ct.
          recv_same c law r sync.receiver_valid s.dh_public h space plain ct aad _
            (same_chain c law sync))
    where
      sent_plain :
          (is_some s.remote_dh && leb dh_send_every s.sends_since_dh) ≡ false
          → ratchet_send c secret s ≡ next_send_key c s
      sent_plain h = unfold ratchet_send in rw h

  rotated_public :
      s.remote_dh ≡ some r.dh_public → (dh_ratchet_send c secret s).dh_public ≡ c.public_of secret
  unfolding dh_ratchet_send
  rotated_public k = ground arith

  rotated_epoch :
      s.remote_dh ≡ some r.dh_public
      → epoch_start (next_send_key c (dh_ratchet_send c secret s)).1 ≡ s.send_count
  unfolding dh_ratchet_send epoch_start next_send_key
  rotated_epoch k = ground arith

  new_chain :
      r.remote_dh ≡ some s.dh_public
      → c.same_key s.dh_public (c.public_of secret) ≡ false
      → is_same_chain c r.remote_dh (c.public_of secret) ≡ false
  unfolding is_same_chain
  new_chain k differs = ground arith

  rotated_case :
      c.same_key s.dh_public (c.public_of secret) ≡ false
      → (is_some s.remote_dh && leb dh_send_every s.sends_since_dh) ≡ true
      → Delivers c r nonce plain aad (ratchet_send c secret s)
  rotated_case differs rotation =
      let (k, kr) = rotation_keys c law sync rotation in
      Delivers-by (dh_ratchet_send c secret s) (dh_ratchet_recv c (c.public_of secret) r)
        (unfold ratchet_send in rw rotation) (Ready-rotated c law sync secret k)
        (dh_count c (c.public_of secret) r)
        (λ h ct opens.
          rw (rotated_epoch k ∙ sync.count, rotated_public k)
            (recv_rotated c law r sync.receiver_valid (c.public_of secret)
              (subst (IsHonest c r) (rotated_public k) h) space plain ct aad (new_chain kr differs)
              opens))

-- For lawful cryptographic operations: the next frame of a sender that is in step and has steps
-- left, sealed with a 12-byte nonce over any additional data, is opened by the receiver at its
-- step, whether or not the sender rotates its key for it, and the two stay in step. The sender's
-- key must be honest to the receiver, and a fresh 32-byte secret must give another public key than
-- the one before.
pub delivery :
    (c : Crypto)
    → IsLawful c
    → (s r : DoubleRatchet) → InStep c s r
    → s.send_count < u32_max
    → (secret : Bytes) → length secret ≡ 32
    → c.same_key s.dh_public (c.public_of secret) ≡ false
    → IsHonest c r (ratchet_send c secret s).1.dh_public
    → (nonce plain aad ct : Bytes) → length nonce ≡ 12
    → let ((key, step), s') = ratchet_send c secret s in
      encrypt_with_key c (some nonce) key plain aad ≡ ok ct
      → let received = try_recv_decrypt_epoch c r s'.dh_public step (epoch_start s') ct aad in
        (received.0 ≡ ok (plain, step)) × InStep c s' received.1
delivery c law s r sync room secret secret_size differs honest nonce plain aad ct nonce_size
      sealed =
    elim (Bool-cases (is_some s.remote_dh && leb dh_send_every s.sends_since_dh)) [
      | inl rotation ↦
          rotated_case c law s r sync room secret secret_size honest nonce plain aad nonce_size
            differs rotation ct sealed
      | inr no_rotation ↦
          plain_case c law s r sync room secret secret_size honest nonce plain aad nonce_size
            no_rotation ct sealed
    ]
