-- ===== src/Ratchet/State/Valid.antt =====
-- ratchet.rs: the invariant of a ratchet's state, and the store of skipped keys.
use hash_chat.Prelude.{none, some, Option, ℕ, ◌≤◌, ◌<◌, ◌≡◌, some, [], ◌∷◌, length, arith, All}
use hash_chat.Prelude.Bytes.{Bytes}
use hash_chat.Prelude.BTreeMap.{Map, Below, IsSorted, insert, remove}
use hash_chat.Prelude.BTreeMap.Laws.{
  IsSorted-insert, IsSorted-remove, Below-insert, Below-remove, length-remove_le,
}
use hash_chat.Ratchet.State.{
  DoubleRatchet, u32_max, max_skipped_keys, pop_excess, store_skipped_key, wipe_skipped_key,
}

-- every stored key has 32 bytes
abbrev pub AreKeys : Map Bytes → Type 0
AreKeys = All (λ e. length e.1 ≡ 32)

-- a key that is known has 32 bytes
abbrev pub IsKey : Option Bytes → Type 0
IsKey none = Unit
IsKey (some k) = length k ≡ 32

pub record IsValid (s : DoubleRatchet) : Type 0 where
  pub secret_size : length s.dh_secret ≡ 32
  pub public_size : length s.dh_public ≡ 32
  pub remote_size : IsKey s.remote_dh
  pub root_size : length s.root_key ≡ 32
  pub send_size : length s.chain_key_send ≡ 32
  pub recv_size : length s.chain_key_recv ≡ 32
  pub send_word : s.send_count ≤ u32_max
  pub recv_word : s.recv_count ≤ u32_max
  pub since_word : s.sends_since_dh ≤ u32_max
  pub since_sends : s.sends_since_dh ≤ s.send_count
  pub sorted : IsSorted s.skipped_keys
  pub past : Below s.recv_count s.skipped_keys
  pub keys : AreKeys s.skipped_keys
  pub capped : length s.skipped_keys ≤ max_skipped_keys

AreKeys-insert :
    (k : ℕ) (v : Bytes) (m : Map Bytes) → length v ≡ 32 → AreKeys m → AreKeys (insert k v m)
unfolding insert
AreKeys-insert k v [] e h = (e, tt)
AreKeys-insert k v ((j, w) ∷ m) e h = ground (arith, AreKeys-insert k v m)

AreKeys-remove : (k : ℕ) (m : Map Bytes) → AreKeys m → AreKeys (remove k m)
unfolding remove
AreKeys-remove k [] h = tt
AreKeys-remove k ((j, w) ∷ m) h = ground (arith, AreKeys-remove k m)

-- What holds of the tail of a sorted map with keys below `n` survives the eviction.
record IsStore (n : ℕ) (m : Map Bytes) : Type 0 where
  sorted : IsSorted m
  past : Below n m
  keys : AreKeys m

pop_excess-IsStore : (n : ℕ) (m : Map Bytes) → IsStore n m → IsStore n (pop_excess m)
unfolding pop_excess
pop_excess-IsStore n [] h = h
pop_excess-IsStore n ((k, v) ∷ m) h = ground (
  arith,
  pop_excess-IsStore n m (record { sorted = h.sorted.1; past = h.past.1; keys = h.keys.1 }),
)

length-pop_excess : (m : Map Bytes) → length (pop_excess m) ≤ max_skipped_keys
unfolding pop_excess
length-pop_excess [] = omega arith
length-pop_excess (e ∷ m) = ground (arith, length-pop_excess m)

IsStore-of : (s : DoubleRatchet) → IsValid s → IsStore s.recv_count s.skipped_keys
IsStore-of s v = record { sorted = v.sorted; past = v.past; keys = v.keys }

insert-IsStore :
    (n k : ℕ) (key : Bytes) (m : Map Bytes)
    → k < n
    → length key ≡ 32
    → IsStore n m
    → IsStore n (insert k key m)
insert-IsStore n k key m lt size h = record {
  sorted = IsSorted-insert k key m h.sorted;
  past = Below-insert n k key m lt h.past;
  keys = AreKeys-insert k key m size h.keys;
}

pub store_skipped_key-IsValid :
    (n : ℕ) (key : Bytes) (s : DoubleRatchet)
    → n < s.recv_count
    → length key ≡ 32
    → IsValid s
    → IsValid (store_skipped_key n key s)
unfolding store_skipped_key
store_skipped_key-IsValid n key s lt size v =
    let kept =
      pop_excess-IsStore s.recv_count _
        (insert-IsStore s.recv_count n key s.skipped_keys lt size (IsStore-of s v)) in
    record {
      secret_size = v.secret_size;
      public_size = v.public_size;
      remote_size = v.remote_size;
      root_size = v.root_size;
      send_size = v.send_size;
      recv_size = v.recv_size;
      send_word = v.send_word;
      recv_word = v.recv_word;
      since_word = v.since_word;
      since_sends = v.since_sends;
      sorted = kept.sorted;
      past = kept.past;
      keys = kept.keys;
      capped = length-pop_excess (insert n key s.skipped_keys);
    }

pub wipe_skipped_key-IsValid :
    (n : ℕ) (s : DoubleRatchet) → IsValid s → IsValid (wipe_skipped_key n s)
unfolding wipe_skipped_key
wipe_skipped_key-IsValid n s v = record {
  secret_size = v.secret_size;
  public_size = v.public_size;
  remote_size = v.remote_size;
  root_size = v.root_size;
  send_size = v.send_size;
  recv_size = v.recv_size;
  send_word = v.send_word;
  recv_word = v.recv_word;
  since_word = v.since_word;
  since_sends = v.since_sends;
  sorted = IsSorted-remove n s.skipped_keys v.sorted;
  past = Below-remove s.recv_count n s.skipped_keys v.past;
  keys = AreKeys-remove n s.skipped_keys v.keys;
  capped = omega (arith, length-remove_le n s.skipped_keys, v.capped);
}
