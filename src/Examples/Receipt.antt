-- ===== src/Examples/Receipt.antt =====
-- What a receiver does with frames: skipped keys, refusals, replays and its stored form.
use hash_chat.Prelude.{
  ℕ, ◌+◌, ◌-◌, ◌*◌, ◌≤◌, ◌<◌, ◌≡◌, ◌≢◌, refl, ap, some, none, Option, [], ◌∷◌, ◌++◌, arith, length,
  ok, err,
}
use hash_chat.Prelude.Bytes.{Bytes}
use hash_chat.Prelude.BTreeMap.{get, contains_key}
use hash_chat.Ratchet.State.{DoubleRatchet, max_skip, wipe_skipped_key}
use hash_chat.Ratchet.State.Valid.{IsValid}
use hash_chat.Ratchet.Chain.{ratchet_send, skip_recv_until, message_key}
use hash_chat.Ratchet.Chain.Rounds.{chain_at}
use hash_chat.Ratchet.Chain.Skip.{skip_recv_until_keys, skip_recv_until_total}
use hash_chat.Ratchet.Frame.{decrypt_with_key}
use hash_chat.Ratchet.Persist.{to_bytes, from_bytes}
use hash_chat.Ratchet.Persist.RoundTrip.{from_bytes-to_bytes}
use hash_chat.Ratchet.Receive.{recv_inner, open_skipped}
use hash_chat.Ratchet.Receive.Atomic.{recv_inner_refused}
use hash_chat.Ratchet.Receive.Life.{
  IsFrame, Reach, here, next, sends, receives, wipes, no_replay, Reach-IsValid, recv_inner_work,
}
use hash_chat.Examples.Toy.{toy, toy-IsLawful}
use hash_chat.Examples.Talk.{key, bob, bob-IsValid, plain, aad, sealed}

skipped : (k : DoubleRatchet) × (skip_recv_until toy 8 bob ≡ ok k)
skipped = skip_recv_until_total toy toy-IsLawful 8 bob (omega arith) (omega arith)

skip_recv_until_keys_example :
    let s' = skipped.0 in
    (get 6 s'.skipped_keys ≡ some (message_key toy (chain_at toy (6 - 5) (key 3))))
    × (s'.recv_count ≡ 8)
    × (8 ≤ 5 + max_skip)
    × (s'.chain_key_recv ≡ chain_at toy (8 - 5) (key 3))
    × (s'.root_key ≡ key 1)
    × (s'.chain_key_send ≡ key 4)
    × (s'.remote_dh ≡ some (key 40))
skip_recv_until_keys_example =
    skip_recv_until_keys toy toy-IsLawful 8 bob skipped.0 (omega arith) bob-IsValid skipped.1 6
      (omega arith) (omega arith)

from_bytes-to_bytes_example : from_bytes (to_bytes bob) ≡ ok bob
from_bytes-to_bytes_example = from_bytes-to_bytes bob bob-IsValid

frame : IsFrame (key 40) 2 none
frame = record { key = refl; word = omega arith; epoch_word = λ first e. cc }

-- the frame of step 2, which was overtaken
abbrev late : Bytes
late = sealed (key 9)

opened : (recv_inner toy bob (key 40) 2 none late aad).0 ≡ ok (plain, 2)
unfolding recv_inner contains_key open_skipped decrypt_with_key
opened = refl

abbrev pub after : DoubleRatchet
after = (recv_inner toy bob (key 40) 2 none late aad).1

-- and then a reply with a new key, and the wiping of a stored key
abbrev pub replied : DoubleRatchet
replied = (ratchet_send toy (key 60) after).1

replied_later : Reach toy after (wipe_skipped_key 3 replied)
replied_later = next (next here (sends (key 60) refl)) (wipes 3)

no_replay_example :
    (recv_inner toy (wipe_skipped_key 3 replied) (key 40) 2 none late aad).0 ≢ ok (plain, 2)
no_replay_example =
    no_replay toy toy-IsLawful bob bob-IsValid (key 40) 2 none late aad frame plain 2 opened
      (wipe_skipped_key 3 replied) replied_later (key 40) none late aad frame plain 2

Reach-IsValid_example : IsValid (wipe_skipped_key 3 replied)
Reach-IsValid_example =
    Reach-IsValid toy toy-IsLawful
      (next (next (next here (receives (key 40) 2 none late aad frame)) (sends (key 60) refl))
        (wipes 3))
      bob-IsValid

recv_inner_work_example :
    let s' = (recv_inner toy bob (key 40) 2 none late aad).1 in
    (5 ≤ s'.recv_count) × (s'.recv_count ≤ 5 + 2 * max_skip + 1)
recv_inner_work_example =
    recv_inner_work toy toy-IsLawful bob bob-IsValid (key 40) 2 none late aad frame

-- a frame two steps ahead that is sealed with a wrong key
forged : (recv_inner toy bob (key 40) 7 none (sealed (key 8)) aad).0 ≡ err "open"
unfolding recv_inner contains_key decrypt_with_key hash_chat.Ratchet.Receive.commit_if_opens
    hash_chat.Ratchet.Receive.open_on_scratch from_bytes hash_chat.Ratchet.Persist.read_version
    to_bytes hash_chat.Prelude.Bytes.get_array hash_chat.Ratchet.Persist.remote_bytes
    hash_chat.Prelude.Bytes.be32 hash_chat.Ratchet.Persist.skipped_bytes
    hash_chat.Ratchet.Persist.read_remote hash_chat.Ratchet.Persist.read_since
    hash_chat.Ratchet.Persist.read_skipped hash_chat.Prelude.Bytes.from_be_bytes
    hash_chat.Ratchet.Receive.advance_same skip_recv_until hash_chat.Ratchet.Chain.next_recv_key
    hash_chat.Ratchet.Receive.remember_remote hash_chat.Prelude.Bytes.get_range
    hash_chat.Prelude.BTreeMap.insert message_key hash_chat.Ratchet.Chain.next_chain
    hash_chat.Ratchet.Chain.skip_loop hash_chat.Ratchet.Chain.skip_one
    hash_chat.Ratchet.Crypto.ascii hash_chat.Ratchet.Receive.commit
    hash_chat.Ratchet.Receive.is_same_chain hash_chat.Ratchet.Receive.take_and_open
    hash_chat.Ratchet.State.store_skipped_key get hash_chat.Ratchet.Receive.knows
forged = refl

recv_inner_refused_example : (recv_inner toy bob (key 40) 7 none (sealed (key 8)) aad).1 ≡ bob
recv_inner_refused_example = recv_inner_refused toy bob (key 40) 7 none (sealed (key 8)) aad forged
