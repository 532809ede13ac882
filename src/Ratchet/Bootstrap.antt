-- ===== src/Ratchet/Bootstrap.antt =====
-- ratchet.rs: the ways to start a session from a shared secret.
use hash_chat.Prelude.{
  Bool, true, false, ◌&&◌, ◌||◌, Option, none, some, [], ◌∷◌, ◌++◌, ltb, ◌==◌, if◌then◌else◌,
}
use hash_chat.Prelude.Bytes.{Bytes}
use hash_chat.Ratchet.Crypto.{Crypto, ascii}
use hash_chat.Ratchet.State.{DoubleRatchet}

module _ (c : Crypto) where
  unfoldable pub init_from_shared : Bytes → Bytes → DoubleRatchet → DoubleRatchet
  init_from_shared remote_pub shared s =
      let root = c.expand none shared (ascii "HashChat-v1-initial-root") in
      record s {
        remote_dh = some remote_pub;
        root_key = root;
        chain_key_send = root;
        chain_key_recv = root;
      }

  unfoldable pub init_symmetric : Bytes → DoubleRatchet → DoubleRatchet
  init_symmetric shared s =
      let root = c.expand none shared (ascii "HashChat-v1-initial-root") in
      record s {
        remote_dh = none;
        root_key = root;
        chain_key_send = root;
        chain_key_recv = root;
        send_count = 0;
        recv_count = 0;
        sends_since_dh = 0;
      }

-- `<=` on arrays of bytes: lexicographic
unfoldable pub le_bytes : Bytes → Bytes → Bool
le_bytes [] ys = true
le_bytes (x ∷ xs) [] = false
le_bytes (x ∷ xs) (y ∷ ys) = ltb x y || x == y && le_bytes xs ys

-- `salt.iter().all(|&b| b == 0)`
unfoldable pub all_zero : Bytes → Bool
all_zero [] = true
all_zero (b ∷ bs) = b == 0 && all_zero bs

-- the two keys in ascending order, behind the label of the root
unfoldable pub root_info : Bytes → Bytes → Bytes
root_info local_static remote_static =
    if le_bytes local_static remote_static
    then ascii "HashChat-v3-root" ++ (local_static ++ remote_static)
    else ascii "HashChat-v3-root" ++ (remote_static ++ local_static)

module _ (c : Crypto) where
  -- the part that the two directional bootstraps share
  unfoldable pub directional : Option Bytes → Bytes → Bytes → Bytes → DoubleRatchet → DoubleRatchet
  unfolding root_info
  directional salt shared local_static remote_static s =
      let root = c.expand salt shared (root_info local_static remote_static) in
      let low_chain = c.expand none root (ascii "HashChat-v3-chain-low-to-high") in
      let high_chain = c.expand none root (ascii "HashChat-v3-chain-high-to-low") in
      let low_first = le_bytes local_static remote_static in
      record s {
        remote_dh = none;
        root_key = root;
        chain_key_send = if low_first then low_chain else high_chain;
        chain_key_recv = if low_first then high_chain else low_chain;
        send_count = 0;
        recv_count = 0;
        sends_since_dh = 0;
      }

  unfoldable pub init_directional : Bytes → Bytes → Bytes → DoubleRatchet → DoubleRatchet
  unfolding directional
  init_directional shared local_static remote_static s =
      directional none shared local_static remote_static s

  unfoldable pub init_directional_with_salt :
      Bytes → Bytes → Bytes → Bytes → DoubleRatchet → DoubleRatchet
  unfolding directional all_zero
  init_directional_with_salt shared local_static remote_static salt s =
      directional (if all_zero salt then none else some salt) shared local_static remote_static s
