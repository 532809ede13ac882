-- ===== src/Ratchet/Session/Expect.antt =====
-- ratchet.rs: how a receiver opens the frame that it expects, on the chain it has or on a new one.
use hash_chat.Prelude.{ℕ, ◌<◌, ◌≡◌, refl, true, false, Option, some, arith, ok, ◌>>=◌}
use hash_chat.Prelude.Bytes.{Bytes}
use hash_chat.Prelude.BTreeMap.{contains_key}
use hash_chat.Prelude.BTreeMap.Laws.{get-Below}
use hash_chat.Ratchet.Crypto.{Crypto, IsLawful}
use hash_chat.Ratchet.State.{DoubleRatchet, u32_max}
use hash_chat.Ratchet.State.Valid.{IsValid}
use hash_chat.Ratchet.Frame.{decrypt_with_key}
use hash_chat.Ratchet.Chain.{next_recv_key, dh_ratchet_recv}
use hash_chat.Ratchet.Receive.{
  recv_inner, recv_new_chain, advance_same, advance_epoch, remember_remote, is_same_chain,
}
use hash_chat.Ratchet.Session.Sealed.{skip_none, commit_opens}

-- A key that a peer may send: not the receiver's own, and contributing to the agreement.
pub record IsHonest (c : Crypto) (r : DoubleRatchet) (remote : Bytes) : Type 0 where
  pub not_own : c.same_key remote r.dh_public ≡ false
  pub contributes : c.was_contributory (c.diffie_hellman r.dh_secret remote) ≡ true

module _ (c : Crypto) (law : IsLawful c) (r : DoubleRatchet) (v : IsValid r) (remote : Bytes)
    (honest : IsHonest c r remote) (room : r.recv_count < u32_max) (plain ct aad : Bytes) where
  unstored : contains_key r.recv_count r.skipped_keys ≡ false
  unfolding contains_key
  unstored = ground (arith, get-Below r.recv_count r.recv_count r.skipped_keys v.past)

  same_run : advance_same c remote r.recv_count r ≡ ok (remember_remote remote r)
  unfolding advance_same
  same_run = rw (skip_none c law r r.recv_count refl)

  pub recv_same :
      (epoch : Option ℕ)
      → is_same_chain c r.remote_dh remote ≡ true
      → decrypt_with_key c (next_recv_key c (remember_remote remote r)).0.0 ct aad ≡ ok plain
      → recv_inner c r remote r.recv_count epoch ct aad ≡ (
        ok (plain, (remember_remote remote r).recv_count),
        (next_recv_key c (remember_remote remote r)).1,
      )
  unfolding recv_inner
  recv_same epoch same opens = ground (
    arith,
    unstored,
    honest.not_own,
    honest.contributes,
    commit_opens c law r v ct aad plain (advance_same c remote r.recv_count)
        (remember_remote remote r) same_run opens,
  )

  count-dh : (dh_ratchet_recv c remote r).recv_count ≡ r.recv_count
  unfolding dh_ratchet_recv
  count-dh = refl

  epoch_run : advance_epoch c remote r.recv_count r.recv_count r ≡ ok (dh_ratchet_recv c remote r)
  unfolding advance_epoch
  epoch_run =
      rw (skip_none c law r r.recv_count refl, ◌>>=◌)
        (skip_none c law (dh_ratchet_recv c remote r) r.recv_count count-dh)

  pub recv_rotated :
      is_same_chain c r.remote_dh remote ≡ false
      → decrypt_with_key c (next_recv_key c (dh_ratchet_recv c remote r)).0.0 ct aad ≡ ok plain
      → recv_inner c r remote r.recv_count (some r.recv_count) ct aad ≡ (
        ok (plain, (dh_ratchet_recv c remote r).recv_count),
        (next_recv_key c (dh_ratchet_recv c remote r)).1,
      )
  unfolding recv_inner recv_new_chain
  recv_rotated other opens = ground (
    arith,
    unstored,
    honest.not_own,
    honest.contributes,
    commit_opens c law r v ct aad plain (advance_epoch c remote r.recv_count r.recv_count)
        (dh_ratchet_recv c remote r) epoch_run opens,
  )
