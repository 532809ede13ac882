-- ===== src/Ratchet/Persist.antt =====
-- ratchet.rs: the complete state as bytes, and back.
pub mod RoundTrip
use hash_chat.Prelude.{
  ℕ, zero, suc, ◌+◌, ◌%◌, ◌^◌, String, ◌||◌, Option, none, some, [], ◌∷◌, ◌++◌, leb, ◌==◌,
  if◌then◌else◌, length, get_elem?, Result, ok, err, ok_or, ◌>>=◌,
}
use hash_chat.Prelude.Bytes.{Bytes, be32, from_be_bytes, get_array}
use hash_chat.Prelude.BTreeMap
use hash_chat.Prelude.BTreeMap.{Map}
use hash_chat.Ratchet.State.{DoubleRatchet}

unfoldable pub remote_bytes : Option Bytes → Bytes
remote_bytes none = 0 ∷ []
remote_bytes (some pk) = 1 ∷ pk

unfoldable pub skipped_bytes : Map Bytes → Bytes
skipped_bytes [] = []
skipped_bytes ((num, key) ∷ m) = be32 num ++ (key ++ skipped_bytes m)

unfoldable pub to_bytes : DoubleRatchet → Bytes
to_bytes s =
    2
    ∷ (s.dh_secret
        ++ (s.dh_public
            ++ (remote_bytes s.remote_dh
                ++ (s.root_key
                    ++ (s.chain_key_send
                        ++ (s.chain_key_recv
                            ++ (be32 s.send_count
                                ++ (be32 s.recv_count
                                    ++ (be32 s.sends_since_dh
                                        ++ (be32 (length s.skipped_keys % 2 ^ 32)
                                            ++ skipped_bytes s.skipped_keys))))))))))

-- the version byte, if it is 1 or 2
unfoldable pub read_version : Bytes → Result String ℕ
read_version [] = err "bad version"
read_version (v ∷ rest) = if v == 1 || v == 2 then ok v else err "bad version"

-- the peer's key, if the flag says so, and the position behind it
unfoldable pub read_remote : Bytes → ℕ → Result String (Option Bytes × ℕ)
read_remote raw pos = do
  flag ← ok_or (get_elem? raw pos) "bad remote flag"
  if flag == 1
      then (do b ← get_array raw (pos + 1) 32 "bad remote"; ok (some b, pos + 1 + 32))
      else ok (none, pos + 1)

-- absent from blobs of version 1
unfoldable pub read_since : ℕ → Bytes → ℕ → Result String (ℕ × ℕ)
read_since version raw pos =
    if leb 2 version
    then (do v ← get_array raw pos 4 "bad sends_since_dh"; ok (from_be_bytes v, pos + 4))
    else ok (0, pos)

unfoldable pub read_skipped : ℕ → Bytes → ℕ → Map Bytes → Result String (Map Bytes)
read_skipped zero raw pos skipped = ok skipped
read_skipped (suc n) raw pos skipped = do
  num ← get_array raw pos 4 "bad snum"
  k ← get_array raw (pos + 4) 32 "bad skey"
  read_skipped n raw (pos + 4 + 32) (BTreeMap.insert (from_be_bytes num) k skipped)

unfoldable pub from_bytes : Bytes → Result String DoubleRatchet
from_bytes raw = do
  version ← read_version raw
  dh_sec ← get_array raw 1 32 "bad dh sec"
  dh_pub ← get_array raw (1 + 32) 32 "bad dh pub"
  (remote, pos) ← read_remote raw (1 + 32 + 32)
  root ← get_array raw pos 32 "bad root"
  csend ← get_array raw (pos + 32) 32 "bad csend"
  crecv ← get_array raw (pos + 32 + 32) 32 "bad crecv"
  send ← get_array raw (pos + 32 + 32 + 32) 4 "bad send"
  recv ← get_array raw (pos + 32 + 32 + 32 + 4) 4 "bad recv"
  (since, after) ← read_since version raw (pos + 32 + 32 + 32 + 4 + 4)
  sk_len ← get_array raw after 4 "bad sklen"
  skipped ← read_skipped (from_be_bytes sk_len) raw (after + 4) []
  ok (record {
    dh_secret = dh_sec;
    dh_public = dh_pub;
    remote_dh = remote;
    root_key = root;
    chain_key_send = csend;
    chain_key_recv = crecv;
    send_count = from_be_bytes send;
    recv_count = from_be_bytes recv;
    sends_since_dh = since;
    skipped_keys = skipped;
  })
