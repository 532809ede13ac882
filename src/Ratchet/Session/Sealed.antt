-- ===== src/Ratchet/Session/Sealed.antt =====
-- ratchet.rs: opening what was sealed.
use hash_chat.Prelude.{
  ℕ, ◌+◌, ◌-◌, ◌≡◌, ap, some, Option-cases, inl, inr, subst, arith, ok, Result, String, length,
  ◌++◌, length-append, take-append, drop-append, ◌>>=◌,
}
use hash_chat.Prelude.Bytes.{Bytes}
use hash_chat.Ratchet.Crypto.{Crypto, IsLawful}
use hash_chat.Ratchet.State.{DoubleRatchet}
use hash_chat.Ratchet.State.Valid.{IsValid}
use hash_chat.Ratchet.Frame.{encrypt_with_key, decrypt_with_key}
use hash_chat.Ratchet.Chain.{next_recv_key, skip_recv_until, skip_loop}
use hash_chat.Ratchet.Chain.Valid.{step-next}
use hash_chat.Ratchet.Persist.RoundTrip.{from_bytes-to_bytes}
use hash_chat.Ratchet.Receive.{commit, commit_if_opens, open_on_scratch, take_and_open}

module _ (c : Crypto) (law : IsLawful c) where
  open_nonce :
      (nonce sealed key aad plain : Bytes)
      → length nonce ≡ 12
      → length sealed ≡ length plain + 16
      → c.open_sealed key nonce aad sealed ≡ some plain
      → decrypt_with_key c key (nonce ++ sealed) aad ≡ ok plain
  unfolding decrypt_with_key
  open_nonce nonce sealed key aad plain size tag opens =
      ground (arith, length-append nonce sealed, take-append nonce sealed, drop-append nonce sealed)

  -- For lawful cryptographic operations: what `encrypt_with_key` seals with a 12-byte nonce,
  -- `decrypt_with_key` opens, under the same key and additional data.
  pub decrypt-encrypt :
      (nonce key plain aad : Bytes) {ct : Bytes}
      → length nonce ≡ 12
      → encrypt_with_key c (some nonce) key plain aad ≡ ok ct
      → decrypt_with_key c key ct aad ≡ ok plain
  unfolding encrypt_with_key
  decrypt-encrypt nonce key plain aad {ct} size h =
      elim (Option-cases (c.seal key nonce aad plain)) [
        | inl e ↦ absurd (ground (arith, e))
        | inr (sealed, e) ↦
            let same : nonce ++ sealed ≡ ct = ground (arith, e) in
            subst (λ t. decrypt_with_key c key t aad ≡ ok plain) same
              (open_nonce nonce sealed key aad plain size (law.length-seal key nonce aad plain e)
                (law.open-seal key nonce aad plain e))
      ]

  -- no gap: skipping to the step that is expected changes nothing
  pub skip_none :
      (s : DoubleRatchet) (step : ℕ) → s.recv_count ≡ step → skip_recv_until c step s ≡ ok s
  unfolding skip_recv_until skip_loop
  skip_none s step e = ground (arith, skip_no_rounds (step - s.recv_count))
    where
      skip_no_rounds : (n : ℕ) → n ≡ 0 → skip_loop c n step s ≡ s
      skip_no_rounds n e = ap (λ k. skip_loop c k step s) e

  pub commit_opens :
      (s : DoubleRatchet)
      → IsValid s
      → (ct aad pt : Bytes) (advance : DoubleRatchet → Result String DoubleRatchet)
        (a : DoubleRatchet)
      → advance s ≡ ok a
      → decrypt_with_key c (next_recv_key c a).0.0 ct aad ≡ ok pt
      → commit_if_opens c s ct aad advance ≡ (ok (pt, a.recv_count), (next_recv_key c a).1)
  unfolding commit_if_opens open_on_scratch take_and_open commit
  commit_opens s v ct aad pt advance a run opens =
      rw (from_bytes-to_bytes s v, ◌>>=◌, run, opens)
        (ap (λ n. (ok (pt, n), (next_recv_key c a).1)) (step-next c law a))
