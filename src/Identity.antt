-- ===== src/Identity.antt =====
-- src/rust/longterm_identity.rs: the identity of a profile, derived from its seed.
use hash_chat.Prelude.{◌≡◌, Bool, true, false, Option, none, some, length, if◌then◌else◌}
use hash_chat.Prelude.Bytes.{Bytes, IsBytes}
use hash_chat.Ratchet.Crypto.{Crypto, ascii}

-- The crate ed25519-dalek: its operations on a signing seed, and on a verifying key as bytes.
pub record Signing : Type 0 where
  -- `SigningKey::from_bytes(&seed).verifying_key().to_bytes()`
  pub verifying_key : Bytes → Bytes
  -- `signing_key.sign(message).to_bytes()`
  pub sign : Bytes → Bytes → Bytes
  -- `VerifyingKey::from_bytes(bytes).is_ok()`
  pub is_key : Bytes → Bool
  -- `vk.verify(message, &signature).is_ok()`
  pub verifies : Bytes → Bytes → Bytes → Bool

pub record IsSigning (g : Signing) : Type 0 where
  pub length-verifying_key : (seed : Bytes) → length (g.verifying_key seed) ≡ 32
  pub verifying_key-IsBytes : (seed : Bytes) → IsBytes (g.verifying_key seed)
  pub length-sign : (seed message : Bytes) → length (g.sign seed message) ≡ 64
  pub sign-IsBytes : (seed message : Bytes) → IsBytes (g.sign seed message)
  pub is_key-verifying_key : (seed : Bytes) → g.is_key (g.verifying_key seed) ≡ true
  pub verifies-sign :
      (seed message : Bytes)
      → g.verifies (g.verifying_key seed) message (g.sign seed message) ≡ true

pub record LongTermIdentity : Type 0 where
  pub seed : Bytes
  pub ed25519_signing : Bytes
  pub x25519_secret : Bytes

module _ (c : Crypto) (g : Signing) where
  unfoldable pub from_seed : Bytes → LongTermIdentity
  unfolding ascii
  from_seed seed = record {
    seed = seed;
    ed25519_signing = c.expand (some (ascii "HashChat-v1-longterm")) seed (ascii "ed25519-seed");
    x25519_secret = c.expand (some (ascii "HashChat-v1-longterm")) seed (ascii "x25519-seed");
  }

  unfoldable pub ed25519_public_bytes : LongTermIdentity → Bytes
  ed25519_public_bytes id = g.verifying_key id.ed25519_signing

  unfoldable pub x25519_public_bytes : LongTermIdentity → Bytes
  x25519_public_bytes id = c.public_of id.x25519_secret

  unfoldable pub x25519_dh_checked : LongTermIdentity → Bytes → Option Bytes
  x25519_dh_checked id peer =
      let shared = c.diffie_hellman id.x25519_secret peer in
      if c.was_contributory shared then some shared else none

  unfoldable pub sign : LongTermIdentity → Bytes → Bytes
  sign id message = g.sign id.ed25519_signing message

  unfoldable pub verify : Bytes → Bytes → Bytes → Bool
  verify pub_bytes message sig_bytes =
      if g.is_key pub_bytes then g.verifies pub_bytes message sig_bytes else false
