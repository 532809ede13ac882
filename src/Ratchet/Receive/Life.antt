-- ===== src/Ratchet/Receive/Life.antt =====
-- ratchet.rs: the life of a ratchet, over any sequence of sends, frames and wipes.
use hash_chat.Prelude.{
  ℕ, ◌+◌, ◌*◌, ◌≤◌, min, ◌≡◌, ◌≢◌, refl, ◌∙◌, ap, Option, some, arith, ok, ◌⊎◌, inl, inr, length,
}
use hash_chat.Prelude.Bytes.{Bytes}
use hash_chat.Prelude.BTreeMap.{get}
use hash_chat.Ratchet.Crypto.{Crypto, IsLawful}
use hash_chat.Ratchet.State.{DoubleRatchet, u32_max, wipe_skipped_key, max_skip}
use hash_chat.Ratchet.State.Valid.{IsValid, wipe_skipped_key-IsValid}
use hash_chat.Ratchet.Chain.{next_recv_key, next_send_key, dh_ratchet_send, ratchet_send}
use hash_chat.Ratchet.Chain.Valid.{ratchet_send-IsValid}
use hash_chat.Ratchet.Receive.{recv_inner}
use hash_chat.Ratchet.Receive.Atomic.{recv_inner_outcome}
use hash_chat.Ratchet.Receive.Accept.{Accepted, late, fresh, Sound, recv_inner_accepted}
use hash_chat.Ratchet.Receive.Replay.{
  Spent, Spent-wipe, Accepted-IsValid, Accepted-Spent, Accepted-keeps, Accepted-unspent,
}

-- A frame as it arrives: its numbers are 32-bit words and its key is an array of 32 bytes.
pub record IsFrame (remote : Bytes) (step : ℕ) (epoch : Option ℕ) : Type 0 where
  pub key : length remote ≡ 32
  pub word : step ≤ u32_max
  pub epoch_word : (first : ℕ) → epoch ≡ some first → first ≤ u32_max

-- The life of a ratchet: it sends, it is handed frames of any content, and it wipes stored keys.
pub data Event (c : Crypto) : DoubleRatchet → DoubleRatchet → Type 0 where
  sends :
      {s : DoubleRatchet} (fresh_secret : Bytes)
      → length fresh_secret ≡ 32
      → Event c s (ratchet_send c fresh_secret s).1
  receives :
      {s : DoubleRatchet} (remote : Bytes) (step : ℕ) (epoch : Option ℕ) (ct aad : Bytes)
      → IsFrame remote step epoch
      → Event c s (recv_inner c s remote step epoch ct aad).1
  wipes : {s : DoubleRatchet} (n : ℕ) → Event c s (wipe_skipped_key n s)

pub data Reach (c : Crypto) (s : DoubleRatchet) : DoubleRatchet → Type 0 where
  here : Reach c s s
  next : {t u : DoubleRatchet} → Reach c s t → Event c t u → Reach c s u

module _ (c : Crypto) (law : IsLawful c) where
  module _ (s : DoubleRatchet) (v : IsValid s) (remote : Bytes) (step : ℕ) (epoch : Option ℕ)
      (ct aad : Bytes) (frame : IsFrame remote step epoch) where
    sound : Sound c step s (recv_inner c s remote step epoch ct aad)
    sound =
        recv_inner_accepted c law s v step frame.word remote epoch ct aad frame.key frame.epoch_word

    received :
        ((recv_inner c s remote step epoch ct aad).1 ≡ s)
        ⊎ Accepted c step s (recv_inner c s remote step epoch ct aad).1
    received = elim (recv_inner_outcome c s remote step epoch ct aad) [
      | inl same ↦ inl same
      | inr ((pt, n), opened) ↦ inr (sound.accept pt n opened).1
    ]

    pub recv_inner-IsValid : IsValid (recv_inner c s remote step epoch ct aad).1
    recv_inner-IsValid = elim received [ inl same ↦ rw same v | inr a ↦ Accepted-IsValid c law v a ]

    recv_inner-Spent : (n : ℕ) → Spent n s → Spent n (recv_inner c s remote step epoch ct aad).1
    recv_inner-Spent n h = elim received [
      | inl same ↦ rw same h
      | inr a ↦ Accepted-keeps c law v n a h
    ]

    recv_inner-unspent :
        Spent step s
        → (pt : Bytes) (n : ℕ) → (recv_inner c s remote step epoch ct aad).0 ≢ ok (pt, n)
    recv_inner-unspent h pt n opened = Accepted-unspent c law v (sound.accept pt n opened).1 h

  recv_same-send :
      (fresh_secret : Bytes) (s : DoubleRatchet)
      → ((ratchet_send c fresh_secret s).1.skipped_keys ≡ s.skipped_keys)
        × ((ratchet_send c fresh_secret s).1.recv_count ≡ s.recv_count)
  unfolding ratchet_send next_send_key dh_ratchet_send
  recv_same-send fresh_secret s = ground arith

  Event-IsValid : {s t : DoubleRatchet} → Event c s t → IsValid s → IsValid t
  Event-IsValid {s} (sends secret size) v = ratchet_send-IsValid c law secret s size v
  Event-IsValid {s} (receives remote step epoch ct aad frame) v =
      recv_inner-IsValid s v remote step epoch ct aad frame
  Event-IsValid {s} (wipes n) v = wipe_skipped_key-IsValid n s v

  -- For lawful cryptographic operations: a well-formed ratchet stays well formed through any sends
  -- with 32-byte secrets, any frames with 32-byte keys and 32-bit numbers, and any wipes.
  pub Reach-IsValid : {s t : DoubleRatchet} → Reach c s t → IsValid s → IsValid t
  Reach-IsValid here v = v
  Reach-IsValid (next r e) v = Event-IsValid e (Reach-IsValid r v)

  Event-Spent : {s t : DoubleRatchet} (n : ℕ) → Event c s t → IsValid s → Spent n s → Spent n t
  Event-Spent {s} n (sends secret size) v h =
      let (skipped, count) = recv_same-send secret s in
      record { absent = ap (get n) skipped ∙ h.absent; behind = rw count h.behind }
  Event-Spent {s} n (receives remote step epoch ct aad frame) v h =
      recv_inner-Spent s v remote step epoch ct aad frame n h
  Event-Spent {s} n (wipes k) v h = Spent-wipe c law n k s v h

  Reach-Spent : {s t : DoubleRatchet} (n : ℕ) → Reach c s t → IsValid s → Spent n s → Spent n t
  Reach-Spent n here v h = h
  Reach-Spent n (next r e) v h = Event-Spent n e (Reach-IsValid r v) (Reach-Spent n r v h)

  -- For lawful cryptographic operations and a well-formed ratchet: once a frame of a step has been
  -- opened, no frame of that step is opened again, whatever it contains and whatever the ratchet
  -- has sent, received and wiped in between. Frames have 32-byte keys and 32-bit numbers.
  pub no_replay :
      (s : DoubleRatchet)
      → IsValid s
      → (remote : Bytes) (step : ℕ) (epoch : Option ℕ) (ct aad : Bytes) → IsFrame remote step epoch
      → (pt : Bytes) (n : ℕ) → (recv_inner c s remote step epoch ct aad).0 ≡ ok (pt, n)
      → (t : DoubleRatchet) → Reach c (recv_inner c s remote step epoch ct aad).1 t
      → (remote' : Bytes) (epoch' : Option ℕ) (ct' aad' : Bytes) → IsFrame remote' step epoch'
      → (pt' : Bytes) (n' : ℕ) → (recv_inner c t remote' step epoch' ct' aad').0 ≢ ok (pt', n')
  no_replay s v remote step epoch ct aad frame pt n opened t r remote' epoch' ct' aad' frame' =
      let after = recv_inner-IsValid s v remote step epoch ct aad frame in
      let spent =
        Accepted-Spent c law v ((sound s v remote step epoch ct aad frame).accept pt n opened).1 in
      recv_inner-unspent t (Reach-IsValid r after) remote' step epoch' ct' aad' frame'
        (Reach-Spent step r after spent)

  count-wipe : (n : ℕ) (s : DoubleRatchet) → (wipe_skipped_key n s).recv_count ≡ s.recv_count
  unfolding wipe_skipped_key
  count-wipe n s = refl

  count-next :
      (a : DoubleRatchet) → (next_recv_key c a).1.recv_count ≡ min (a.recv_count + 1) u32_max
  unfolding next_recv_key
  count-next a = refl

  -- For lawful cryptographic operations and a well-formed ratchet: one frame, with a 32-byte key
  -- and 32-bit numbers, moves the counter by at most twice the skip limit and one, and never back.
  pub recv_inner_work :
      (s : DoubleRatchet)
      → IsValid s
      → (remote : Bytes) (step : ℕ) (epoch : Option ℕ) (ct aad : Bytes) → IsFrame remote step epoch
      → let s' = (recv_inner c s remote step epoch ct aad).1 in
        (s.recv_count ≤ s'.recv_count) × (s'.recv_count ≤ s.recv_count + 2 * max_skip + 1)
  recv_inner_work s v remote step epoch ct aad frame =
      elim (received s v remote step epoch ct aad frame) [
        | inl same ↦ rw same (omega arith, omega arith)
        | inr (late key got e) ↦
            rw e (let w = count-wipe step s in (omega (arith, w), omega (arith, w)))
        | inr (fresh a d below e) ↦ rw e (
            let w = count-next a in
            (
              omega (arith, w, d.count, d.forward, d.valid.recv_word),
              omega (arith, w, d.count, d.bounded),
            ))
      ]
