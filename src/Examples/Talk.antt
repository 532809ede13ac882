-- ===== src/Examples/Talk.antt =====
-- Two ratchets that talk: a sender whose key is due for rotation, and the receiver that is in step
-- with it and still holds the key of an earlier frame.
use hash_chat.Prelude.{ℕ, ◌≡◌, ◌≢◌, refl, inl, inr, true, some, [], ◌∷◌, ◌++◌, arith, replicate, ok}
use hash_chat.Prelude.Bytes.{Bytes}
use hash_chat.Ratchet.State.{DoubleRatchet, new}
use hash_chat.Ratchet.State.Valid.{IsValid}
use hash_chat.Ratchet.Bootstrap.{init_directional_with_salt}
use hash_chat.Ratchet.Frame.{encrypt_with_key}
use hash_chat.Ratchet.Chain.{ratchet_send, epoch_start, dh_ratchet_send, next_send_key}
use hash_chat.Ratchet.Receive.{try_recv_decrypt_epoch, is_same_chain, recv_inner}
use hash_chat.Ratchet.Session.{InStep}
use hash_chat.Ratchet.Session.Expect.{IsHonest}
use hash_chat.Ratchet.Session.Deliver.{delivery}
use hash_chat.Ratchet.Session.Reorder.{overtaken_frame_opens, key_of_step}
use hash_chat.Ratchet.Session.Start.{salted_start}
use hash_chat.Examples.Toy.{toy, toy-IsLawful, tag}

abbrev pub key : ℕ → Bytes
key n = n ∷ replicate 31 0

abbrev pub alice : DoubleRatchet
alice = record {
  dh_secret = key 40;
  dh_public = key 40;
  remote_dh = some (key 50);
  root_key = key 1;
  chain_key_send = key 3;
  chain_key_recv = key 4;
  send_count = 5;
  recv_count = 0;
  sends_since_dh = 5;
  skipped_keys = [];
}

abbrev pub bob : DoubleRatchet
bob = record {
  dh_secret = key 50;
  dh_public = key 50;
  remote_dh = some (key 40);
  root_key = key 1;
  chain_key_send = key 4;
  chain_key_recv = key 3;
  send_count = 0;
  recv_count = 5;
  sends_since_dh = 0;
  skipped_keys = (2, key 9) ∷ [];
}

alice-IsValid : IsValid alice
alice-IsValid = record {
  secret_size = refl;
  public_size = refl;
  remote_size = refl;
  root_size = refl;
  send_size = refl;
  recv_size = refl;
  send_word = omega arith;
  recv_word = omega arith;
  since_word = omega arith;
  since_sends = omega arith;
  sorted = tt;
  past = tt;
  keys = tt;
  capped = omega arith;
}

pub bob-IsValid : IsValid bob
bob-IsValid = record {
  secret_size = refl;
  public_size = refl;
  remote_size = refl;
  root_size = refl;
  send_size = refl;
  recv_size = refl;
  send_word = omega arith;
  recv_word = omega arith;
  since_word = omega arith;
  since_sends = omega arith;
  sorted = (tt, tt);
  past = (omega arith, tt);
  keys = (refl, tt);
  capped = omega arith;
}

in_step : InStep toy alice bob
in_step = record {
  sender_valid = alice-IsValid;
  receiver_valid = bob-IsValid;
  chain = refl;
  count = refl;
  root = refl;
  own_key = refl;
  knows_receiver = inr refl;
  knows_sender = inl refl;
}

abbrev pub nonce : Bytes
nonce = 6 ∷ replicate 11 0

abbrev pub plain : Bytes
plain = 104 ∷ 105 ∷ []

abbrev pub aad : Bytes
aad = 3 ∷ []

-- what the concrete cipher makes of the text
abbrev pub sealed : Bytes → Bytes
sealed k = nonce ++ (tag k nonce aad ++ plain)

encrypts : (k : Bytes) → encrypt_with_key toy (some nonce) k plain aad ≡ ok (sealed k)
unfolding encrypt_with_key
encrypts k = refl

abbrev pub sent : (Bytes × ℕ) × DoubleRatchet
sent = ratchet_send toy (key 60) alice

IsHonest-fresh : IsHonest toy bob sent.1.dh_public
unfolding ratchet_send dh_ratchet_send next_send_key
IsHonest-fresh = record { not_own = refl; contributes = refl }

delivery_example :
    let received =
      try_recv_decrypt_epoch toy bob sent.1.dh_public sent.0.1
        (epoch_start sent.1)
        (sealed sent.0.0)
        aad in
    (received.0 ≡ ok (plain, sent.0.1)) × InStep toy sent.1 received.1
delivery_example =
    delivery toy toy-IsLawful alice bob in_step (omega arith) (key 60) refl refl IsHonest-fresh
      nonce plain aad (sealed sent.0.0) refl (encrypts sent.0.0)

IsHonest-known : IsHonest toy bob (key 40)
IsHonest-known = record { not_own = refl; contributes = refl }

known : is_same_chain toy bob.remote_dh (key 40) ≡ true
unfolding is_same_chain
known = refl

abbrev key_at : ℕ → Bytes
key_at n = key_of_step toy bob n

overtaken_frame_opens_example :
    let first = recv_inner toy bob (key 40) 8 (some 5) (sealed (key_at 8)) aad in
    let second = recv_inner toy first.1 (key 40) 6 (some 5) (sealed (key_at 6)) aad in
    (first.0 ≡ ok (plain, 8)) × (second.0 ≡ ok (plain, 6))
overtaken_frame_opens_example =
    overtaken_frame_opens toy toy-IsLawful bob bob-IsValid (key 40) IsHonest-known known 6 8
      (omega arith) (omega arith) (omega arith) (omega arith) (some 5) (some 5) nonce nonce plain
      plain aad aad (sealed (key_at 6)) (sealed (key_at 8)) refl refl (encrypts (key_at 6))
      (encrypts (key_at 8))

different : key 1 ≢ key 2
different e = cc

salted_start_example :
    let x = init_directional_with_salt toy (key 9) (key 1) (key 2) (key 5) (new toy (key 40)) in
    let y = init_directional_with_salt toy (key 9) (key 2) (key 1) (key 5) (new toy (key 50)) in
    InStep toy x y × InStep toy y x
salted_start_example =
    salted_start toy toy-IsLawful (key 9) (key 5) (key 1) (key 2) different (key 40) (key 50) refl
      refl
