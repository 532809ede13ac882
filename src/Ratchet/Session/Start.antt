-- ===== src/Ratchet/Session/Start.antt =====
-- ratchet.rs: the two ends of a bootstrap.
use hash_chat.Prelude.{
  ◌≡◌, ◌≢◌, inl, inr, refl, ap, sym, Bool, true, false, Option, none, some, arith, [], ◌∷◌, length,
  if◌then◌else◌,
}
use hash_chat.Prelude.Bytes.{Bytes}
use hash_chat.Ratchet.Crypto.{Crypto, IsLawful}
use hash_chat.Ratchet.State.{DoubleRatchet, new}
use hash_chat.Ratchet.State.Valid.{IsValid}
use hash_chat.Ratchet.Bootstrap.{
  le_bytes, root_info, directional, init_directional, init_directional_with_salt, all_zero,
}
use hash_chat.Ratchet.Session.{InStep}

le_bytes_total : (xs ys : Bytes) → le_bytes xs ys ≡ false → le_bytes ys xs ≡ true
unfolding le_bytes
le_bytes_total [] ys h = cc
le_bytes_total (x ∷ xs) [] h = refl
le_bytes_total (x ∷ xs) (y ∷ ys) h = ground (arith, le_bytes_total xs ys)

le_bytes_antisymm : (xs ys : Bytes) → le_bytes xs ys ≡ true → le_bytes ys xs ≡ true → xs ≡ ys
unfolding le_bytes
le_bytes_antisymm [] [] h k = refl
le_bytes_antisymm [] (y ∷ ys) h k = cc
le_bytes_antisymm (x ∷ xs) [] h k = cc
le_bytes_antisymm (x ∷ xs) (y ∷ ys) h k = ground (arith, le_bytes_antisymm xs ys)

module _ (c : Crypto) (law : IsLawful c) (salt : Option Bytes) (shared a b : Bytes) (ne : a ≢ b)
    (secret_a secret_b : Bytes) (size_a : length secret_a ≡ 32)
    (size_b : length secret_b ≡ 32) where
  root_info_comm : root_info a b ≡ root_info b a
  unfolding root_info
  root_info_comm = ground (arith, le_bytes_total a b, le_bytes_antisymm a b)

  directional-IsValid :
      (local_static remote_static secret : Bytes)
      → length secret ≡ 32
      → IsValid (directional c salt shared local_static remote_static (new c secret))
  unfolding directional new
  directional-IsValid local_static remote_static secret size = record {
    secret_size = size;
    public_size = law.length-public_of secret;
    remote_size = tt;
    root_size = law.length-expand _ _ _;
    send_size =
        either (le_bytes local_static remote_static) _ _ (law.length-expand _ _ _)
          (law.length-expand _ _ _);
    recv_size =
        either (le_bytes local_static remote_static) _ _ (law.length-expand _ _ _)
          (law.length-expand _ _ _);
    send_word = omega arith;
    recv_word = omega arith;
    since_word = omega arith;
    since_sends = omega arith;
    sorted = tt;
    past = tt;
    keys = tt;
    capped = omega arith;
  }
    where
      either :
          (low : Bool) (x y : Bytes)
          → length x ≡ 32
          → length y ≡ 32
          → length (if low then x else y) ≡ 32
      either true x y hx hy = hx
      either false x y hx hy = hy

  directional-InStep :
      InStep c
        (directional c salt shared a b (new c secret_a))
        (directional c salt shared b a (new c secret_b))
  unfolding directional new
  directional-InStep = record {
    sender_valid = unfold directional new in directional-IsValid a b secret_a size_a;
    receiver_valid = unfold directional new in directional-IsValid b a secret_b size_b;
    chain = ground (arith, root_info_comm, le_bytes_total a b, le_bytes_antisymm a b);
    count = refl;
    root = ap (λ i. c.expand salt shared i) root_info_comm;
    own_key = refl;
    knows_receiver = inl refl;
    knows_sender = inr (refl, refl);
  }

-- For lawful cryptographic operations: after the bootstrap of two different static keys with the
-- same shared secret and the same salt, from new ratchets with 32-byte secrets, each side is in
-- step with the other: what one sends on, the other receives on.
pub salted_start :
    (c : Crypto)
    → IsLawful c
    → (shared salt a b : Bytes) → a ≢ b
    → (secret_a secret_b : Bytes) → length secret_a ≡ 32
    → length secret_b ≡ 32
    → let x = init_directional_with_salt c shared a b salt (new c secret_a) in
      let y = init_directional_with_salt c shared b a salt (new c secret_b) in
      InStep c x y × InStep c y x
unfolding init_directional_with_salt
salted_start c law shared salt a b ne secret_a secret_b size_a size_b =
    let used : Option Bytes = if all_zero salt then none else some salt in
    (
      directional-InStep c law used shared a b ne secret_a secret_b size_a size_b,
      directional-InStep c law used shared b a (λ e. ne (sym e)) secret_b secret_a size_b size_a,
    )

-- A salt of zeros gives the bootstrap without a salt.
pub zero_salt :
    (c : Crypto) (shared salt a b : Bytes) (s : DoubleRatchet)
    → all_zero salt ≡ true
    → init_directional_with_salt c shared a b salt s ≡ init_directional c shared a b s
unfolding init_directional_with_salt init_directional
zero_salt c shared salt a b s h = rw h
