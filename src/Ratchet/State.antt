-- ===== src/Ratchet/State.antt =====
-- ratchet.rs: the state of a `DoubleRatchet`, its accessors and its store of skipped keys. A key is
-- scrubbed from memory where it is dropped; the model drops it.
pub mod Valid
pub mod Evict
use hash_chat.Prelude.{
  ℕ, suc, ◌+◌, ◌-◌, ◌^◌, min, Bool, Option, none, some, List, [], ◌∷◌, ltb, if◌then◌else◌, length,
  replicate,
}
use hash_chat.Prelude.Bytes.{Bytes}
use hash_chat.Prelude.BTreeMap
use hash_chat.Prelude.BTreeMap.{Map}
use hash_chat.Ratchet.Crypto.{Crypto}

abbrev pub ratchet_key_len : ℕ
ratchet_key_len = 32

abbrev pub ratchet_nonce_len : ℕ
ratchet_nonce_len = 12

abbrev pub dh_send_every : ℕ
dh_send_every = 5

abbrev pub max_skip : ℕ
max_skip = 200

abbrev pub max_skipped_keys : ℕ
max_skipped_keys = 1000

abbrev pub u32_max : ℕ
u32_max = 2 ^ 32 - 1

-- `u32::saturating_add`
abbrev pub saturating_add : ℕ → ℕ → ℕ
saturating_add a b = min (a + b) u32_max

pub record DoubleRatchet : Type 0 where
  pub dh_secret : Bytes
  pub dh_public : Bytes
  pub remote_dh : Option Bytes
  pub root_key : Bytes
  pub chain_key_send : Bytes
  pub chain_key_recv : Bytes
  pub send_count : ℕ
  pub recv_count : ℕ
  pub sends_since_dh : ℕ
  pub skipped_keys : Map Bytes

abbrev pub zero_key : Bytes
zero_key = replicate 32 0

-- `new`, at the secret that the generator draws
unfoldable pub new : Crypto → Bytes → DoubleRatchet
new c secret = record {
  dh_secret = secret;
  dh_public = c.public_of secret;
  remote_dh = none;
  root_key = zero_key;
  chain_key_send = zero_key;
  chain_key_recv = zero_key;
  send_count = 0;
  recv_count = 0;
  sends_since_dh = 0;
  skipped_keys = [];
}

-- `Zeroize::zeroize`, which `clear` and the destructor call
unfoldable pub zeroize : DoubleRatchet → DoubleRatchet
zeroize s = record s {
  root_key = zero_key;
  chain_key_send = zero_key;
  chain_key_recv = zero_key;
  send_count = 0;
  recv_count = 0;
  sends_since_dh = 0;
  skipped_keys = [];
}

unfoldable pub export_state : DoubleRatchet → Bytes × ℕ × ℕ
export_state s = (s.root_key, s.send_count, s.recv_count)

unfoldable pub restore_state : Bytes → ℕ → ℕ → DoubleRatchet → DoubleRatchet
restore_state root send recv s = record s { root_key = root; send_count = send; recv_count = recv }

-- `while self.skipped_keys.len() > MAX_SKIPPED_KEYS { self.skipped_keys.pop_first() }`
pop_excess : Map Bytes → Map Bytes
pop_excess [] = []
pop_excess (e ∷ m) = if ltb max_skipped_keys (length (e ∷ m)) then pop_excess m else e ∷ m

unfoldable pub store_skipped_key : ℕ → Bytes → DoubleRatchet → DoubleRatchet
unfolding pop_excess
store_skipped_key msg_number key s = record s {
  skipped_keys = pop_excess (BTreeMap.insert msg_number key s.skipped_keys);
}

unfoldable pub skipped_key_count : DoubleRatchet → ℕ
skipped_key_count s = length s.skipped_keys

unfoldable pub get_skipped_key : ℕ → DoubleRatchet → Option Bytes × DoubleRatchet
get_skipped_key msg_number s = (
  BTreeMap.get msg_number s.skipped_keys,
  record s { skipped_keys = BTreeMap.remove msg_number s.skipped_keys },
)

unfoldable pub wipe_skipped_key : ℕ → DoubleRatchet → DoubleRatchet
wipe_skipped_key msg_number s = record s {
  skipped_keys = BTreeMap.remove msg_number s.skipped_keys;
}
