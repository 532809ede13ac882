-- ===== src/Ratchet/Session.antt =====
-- ratchet.rs: two ratchets that talk. A sender and a receiver are in step when the receiver expects
-- the sender's next frame.
pub mod Sealed
pub mod Expect
pub mod Deliver
pub mod Reorder
pub mod Start
use hash_chat.Prelude.{ℕ, ◌≡◌, ◌⊎◌, Option, none, some}
use hash_chat.Ratchet.Crypto.{Crypto}
use hash_chat.Ratchet.State.{DoubleRatchet}
use hash_chat.Ratchet.State.Valid.{IsValid}

-- `s` sends to `r`, and every frame sent so far has been opened.
pub record InStep (c : Crypto) (s r : DoubleRatchet) : Type 0 where
  pub sender_valid : IsValid s
  pub receiver_valid : IsValid r
  pub chain : s.chain_key_send ≡ r.chain_key_recv
  pub count : s.send_count ≡ r.recv_count
  pub root : s.root_key ≡ r.root_key
  pub own_key : r.dh_public ≡ c.public_of r.dh_secret
  pub knows_receiver : (s.remote_dh ≡ none) ⊎ (s.remote_dh ≡ some r.dh_public)
  pub knows_sender :
      (r.remote_dh ≡ some s.dh_public) ⊎ ((r.remote_dh ≡ none) × (s.sends_since_dh ≡ 0))
