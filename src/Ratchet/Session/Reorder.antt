-- ===== src/Ratchet/Session/Reorder.antt =====
-- ratchet.rs: frames of one chain that arrive out of order.
use hash_chat.Prelude.{
  ℕ, ◌+◌, ◌-◌, ◌≤◌, ◌<◌, ◌≡◌, ◌∙◌, refl, ap, true, false, Option, none, some, arith, ok, length,
}
use hash_chat.Prelude.Bytes.{Bytes}
use hash_chat.Prelude.BTreeMap.{get, contains_key}
use hash_chat.Prelude.BTreeMap.Laws.{get-Below}
use hash_chat.Ratchet.Crypto.{Crypto, IsLawful}
use hash_chat.Ratchet.State.{DoubleRatchet, u32_max, max_skip}
use hash_chat.Ratchet.State.Valid.{IsValid}
use hash_chat.Ratchet.Frame.{encrypt_with_key, decrypt_with_key}
use hash_chat.Ratchet.Chain.{next_recv_key, skip_recv_until, message_key}
use hash_chat.Ratchet.Chain.Rounds.{chain_at}
use hash_chat.Ratchet.Chain.Skip.{skip_recv_until_lem, skip_recv_until_total}
use hash_chat.Ratchet.Receive.{
  commit, recv_inner, advance_same, remember_remote, is_same_chain, open_skipped,
}
use hash_chat.Ratchet.Session.Expect.{IsHonest}
use hash_chat.Ratchet.Session.Sealed.{decrypt-encrypt, commit_opens}

-- the key of step `n` on the receiving chain of `r`
abbrev pub key_of_step : Crypto → DoubleRatchet → ℕ → Bytes
key_of_step c r n = message_key c (chain_at c (n - r.recv_count) r.chain_key_recv)

module _ (c : Crypto) where
  -- what learning the key leaves alone
  remember_chain :
      (remote : Bytes) (k : DoubleRatchet)
      → ((remember_remote remote k).chain_key_recv ≡ k.chain_key_recv)
        × ((remember_remote remote k).skipped_keys ≡ k.skipped_keys)
        × ((remember_remote remote k).recv_count ≡ k.recv_count)
  unfolding remember_remote
  remember_chain remote k = ground arith

  taken :
      (a : DoubleRatchet)
      → ((next_recv_key c a).0.0 ≡ message_key c a.chain_key_recv)
        × ((next_recv_key c a).1.skipped_keys ≡ a.skipped_keys)
  unfolding next_recv_key
  taken a = (refl, refl)

  contains-get :
      (step : ℕ) (s : DoubleRatchet) (key : Bytes)
      → get step s.skipped_keys ≡ some key
      → contains_key step s.skipped_keys ≡ true
  unfolding contains_key
  contains-get step s key got =
      ap (λ (o : Option Bytes). elim o [ none ↦ false | some v ↦ true ]) got

  open_late :
      (s : DoubleRatchet) (remote : Bytes) (step : ℕ) (epoch : Option ℕ) (ct aad pt key : Bytes)
      → get step s.skipped_keys ≡ some key
      → decrypt_with_key c key ct aad ≡ ok pt
      → (recv_inner c s remote step epoch ct aad).0 ≡ ok (pt, step)
  unfolding recv_inner open_skipped commit
  open_late s remote step epoch ct aad pt key got opens =
      rw (contains-get step s key got, got, opens)

module _ (c : Crypto) (law : IsLawful c) (r : DoubleRatchet) (v : IsValid r) (remote : Bytes)
    (honest : IsHonest c r remote) (same : is_same_chain c r.remote_dh remote ≡ true)
    (room : r.recv_count < u32_max) (j : ℕ) (from : r.recv_count ≤ j)
    (near : j ≤ r.recv_count + max_skip) (word : j ≤ u32_max) where
  skipped : (k : DoubleRatchet) × (skip_recv_until c j r ≡ ok k)
  skipped = skip_recv_until_total c law j r from near

  ahead : DoubleRatchet
  ahead = remember_remote remote skipped.0

  run : advance_same c remote j r ≡ ok ahead
  unfolding advance_same ahead
  run = rw skipped.1

  unstored : contains_key j r.skipped_keys ≡ false
  unfolding contains_key
  unstored = ground (arith, get-Below r.recv_count j r.skipped_keys v.past)

  open_ahead :
      (epoch : Option ℕ) (ct aad pt : Bytes)
      → decrypt_with_key c (next_recv_key c ahead).0.0 ct aad ≡ ok pt
      → recv_inner c r remote j epoch ct aad
        ≡ (ok (pt, ahead.recv_count), (next_recv_key c ahead).1)
  unfolding recv_inner
  open_ahead epoch ct aad pt opens = ground (
    arith,
    unstored,
    honest.not_own,
    honest.contributes,
    commit_opens c law r v ct aad pt (advance_same c remote j) ahead run opens,
  )

  ahead_key : (next_recv_key c ahead).0.0 ≡ key_of_step c r j
  unfolding ahead
  ahead_key =
      (taken c ahead).0
      ∙ ap (message_key c) (
          (remember_chain c remote skipped.0).0
          ∙ (skip_recv_until_lem c law j r word v skipped.1).0.chain)

  ahead_count : ahead.recv_count ≡ j
  unfolding ahead
  ahead_count =
      (remember_chain c remote skipped.0).2
      ∙ (skip_recv_until_lem c law j r word v skipped.1).0.count

  ahead_stored :
      (i : ℕ)
      → r.recv_count ≤ i
      → i < j
      → get i (next_recv_key c ahead).1.skipped_keys ≡ some (key_of_step c r i)
  unfolding ahead
  ahead_stored i lo hi =
      ap (get i) ((taken c ahead).1 ∙ (remember_chain c remote skipped.0).1)
      ∙ (skip_recv_until_lem c law j r word v skipped.1).0.stored i lo hi

-- For lawful cryptographic operations, a well-formed receiver and an honest key of its present
-- chain: a frame that is at most 200 steps ahead opens, and a frame of the chain that it has
-- overtaken still opens afterwards, each under the key of its own step. Both are sealed with
-- 12-byte nonces, and the later step fits 32 bits.
pub overtaken_frame_opens :
    (c : Crypto)
    → IsLawful c
    → (r : DoubleRatchet) → IsValid r
    → (remote : Bytes) → IsHonest c r remote
    → is_same_chain c r.remote_dh remote ≡ true
    → (i j : ℕ) → r.recv_count ≤ i
    → i < j
    → j ≤ r.recv_count + max_skip
    → j ≤ u32_max
    → (epoch₁ epoch₂ : Option ℕ) (nonce₁ nonce₂ plain₁ plain₂ aad₁ aad₂ ct₁ ct₂ : Bytes)
    → length nonce₁ ≡ 12
    → length nonce₂ ≡ 12
    → encrypt_with_key c (some nonce₁) (key_of_step c r i) plain₁ aad₁ ≡ ok ct₁
    → encrypt_with_key c (some nonce₂) (key_of_step c r j) plain₂ aad₂ ≡ ok ct₂
    → let first = recv_inner c r remote j epoch₂ ct₂ aad₂ in
      let second = recv_inner c first.1 remote i epoch₁ ct₁ aad₁ in
      (first.0 ≡ ok (plain₂, j)) × (second.0 ≡ ok (plain₁, i))
overtaken_frame_opens c law r v remote honest same i j lo hi near word epoch₁ epoch₂ nonce₁ nonce₂
      plain₁ plain₂ aad₁ aad₂ ct₁ ct₂ size₁ size₂ sealed₁ sealed₂ =
    let room : r.recv_count < u32_max = omega arith in
    let from : r.recv_count ≤ j = omega arith in
    let key = ahead_key c law r v remote honest same room j from near word in
    let opens : decrypt_with_key c
          (next_recv_key c (ahead c law r v remote honest same room j from near word)).0.0 ct₂ aad₂
        ≡ ok plain₂ =
      rw key (decrypt-encrypt c law nonce₂ _ plain₂ aad₂ size₂ sealed₂) in
    let got =
      open_ahead c law r v remote honest same room j from near word epoch₂ ct₂ aad₂ plain₂ opens in
    rw got (
      ap (λ n. ok (plain₂, n)) (ahead_count c law r v remote honest same room j from near word),
      open_late c _ remote i epoch₁ ct₁ aad₁ plain₁ (key_of_step c r i)
          (ahead_stored c law r v remote honest same room j from near word i lo hi)
          (decrypt-encrypt c law nonce₁ _ plain₁ aad₁ size₁ sealed₁),
    )
