-- ===== src/Ratchet/Persist/RoundTrip.antt =====
-- ratchet.rs: `from_bytes` on the bytes of `to_bytes`.
use hash_chat.Prelude.{
  ℕ, zero, suc, ◌+◌, ◌%◌, ◌^◌, ◌≤◌, ◌<◌, ◌≡◌, refl, ◌∙◌, ap, Option, none, some, arith, length,
  drop, get_elem?, ok, [], ◌∷◌, ◌++◌, All, append_assoc, String, ◌>>=◌, append-nil,
}
use hash_chat.Prelude.Bytes.{
  Bytes, be32, length-be32, from_be_bytes, from_be_bytes-be32, get_array, At, At-next, get_array-At,
}
use hash_chat.Prelude.BTreeMap.{Map, insert, Above, Below, IsSorted}
use hash_chat.Ratchet.State.{DoubleRatchet}
use hash_chat.Ratchet.State.Valid.{IsValid, IsKey, AreKeys}
use hash_chat.Ratchet.Persist.{
  remote_bytes, skipped_bytes, to_bytes, read_version, read_remote, read_since, read_skipped,
  from_bytes,
}

read_array :
    (e : String) (raw : Bytes) {pos : ℕ} (n : ℕ) (mid post : Bytes)
    → At raw pos (mid ++ post)
    → length mid ≡ n
    → get_array raw pos n e ≡ ok mid
read_array e raw n mid post at size = get_array-At raw n mid post at size e

insert_last :
    (k : ℕ) (v : Bytes) (acc : Map Bytes) → Below k acc → insert k v acc ≡ acc ++ (k, v) ∷ []
unfolding insert
insert_last k v [] h = refl
insert_last k v ((j, w) ∷ acc) h = ground (arith, insert_last k v acc h.1)

-- every key of `m` lies above those of `acc`
abbrev Before : Map Bytes → Map Bytes → Type 0
Before acc m = All (λ e. Below e.0 acc) m

Below-last :
    (n k : ℕ) (v : Bytes) (acc : Map Bytes) → Below n acc → k < n → Below n (acc ++ (k, v) ∷ [])
Below-last n k v [] h lt = (lt, tt)
Below-last n k v ((j, w) ∷ acc) h lt = (h.0, Below-last n k v acc h.1 lt)

Before-last :
    (k : ℕ) (v : Bytes) (acc m : Map Bytes)
    → Before acc m
    → Above k m
    → Before (acc ++ (k, v) ∷ []) m
Before-last k v acc [] h a = tt
Before-last k v acc ((j, w) ∷ m) h a = (Below-last j k v acc h.0 a.0, Before-last k v acc m h.1 a.1)

Before-none : (m : Map Bytes) → Before [] m
Before-none [] = tt
Before-none (e ∷ m) = (tt, Before-none m)

read_skipped_lem :
    (raw : Bytes) (pos : ℕ) (acc m : Map Bytes)
    → At raw pos (skipped_bytes m)
    → Before acc m
    → IsSorted m
    → AreKeys m
    → Below (2 ^ 32) m
    → read_skipped (length m) raw pos acc ≡ ok (acc ++ m)
unfolding read_skipped skipped_bytes
read_skipped_lem raw pos acc [] at before sorted keys words = rw append-nil
read_skipped_lem raw pos acc ((k, v) ∷ m) at before sorted keys words =
    let at_key = At-next raw 4 (be32 k) (v ++ skipped_bytes m) at (length-be32 k) in
    let at_next = At-next raw 32 v (skipped_bytes m) at_key keys.0 in
    rw
      (
        read_array "bad snum" raw 4 (be32 k) (v ++ skipped_bytes m) at (length-be32 k),
        ◌>>=◌,
        read_array "bad skey" raw 32 v (skipped_bytes m) at_key keys.0,
        from_be_bytes-be32 k words.0,
        insert_last k v acc before.0,
      )
      (read_skipped_lem raw (pos + 4 + 32) (acc ++ (k, v) ∷ []) m at_next
          (Before-last k v acc m before.1 sorted.0) sorted.1 keys.1 words.1
        ∙ ap ok (append_assoc acc ((k, v) ∷ []) m))

get_elem?-drop :
    (bs : Bytes) (pos b : ℕ) (rest : Bytes) → drop pos bs ≡ b ∷ rest → get_elem? bs pos ≡ some b
get_elem?-drop [] zero b rest e = cc
get_elem?-drop [] (suc pos) b rest e = cc
get_elem?-drop (x ∷ bs) zero b rest e = ground arith
get_elem?-drop (x ∷ bs) (suc pos) b rest e = get_elem?-drop bs pos b rest e

-- the position behind the peer's key
remote_end : Option Bytes → ℕ → ℕ
remote_end none pos = pos + 1
remote_end (some k) pos = pos + 1 + 32

module _ (raw : Bytes) (pos : ℕ) (rest : Bytes) where
  read_remote_lem :
      (r : Option Bytes)
      → IsKey r
      → At raw pos (remote_bytes r ++ rest)
      → (read_remote raw pos ≡ ok (r, remote_end r pos)) × At raw (remote_end r pos) rest
  unfolding read_remote remote_end remote_bytes
  read_remote_lem none size at =
      (rw (get_elem?-drop raw pos 0 rest at.suffix), At-next raw 1 (0 ∷ []) rest at refl)
  read_remote_lem (some k) size at =
      let at_key = At-next raw 1 (1 ∷ []) (k ++ rest) at refl in
      (
        rw (
          get_elem?-drop raw pos 1 (k ++ rest) at.suffix,
          ◌>>=◌,
          read_array "bad remote" raw 32 k rest at_key size,
        ),
        At-next raw 32 k rest at_key size,
      )

Below-word : (n : ℕ) (m : Map Bytes) → n ≤ 2 ^ 32 → Below n m → Below (2 ^ 32) m
Below-word n [] le h = tt
Below-word n ((k, v) ∷ m) le h = (omega (arith, h.0), Below-word n m le h.1)

module _ (s : DoubleRatchet) (v : IsValid s) where
  count_bytes : Bytes
  count_bytes = be32 (length s.skipped_keys % 2 ^ 32) ++ skipped_bytes s.skipped_keys

  since_bytes : Bytes
  since_bytes = be32 s.sends_since_dh ++ count_bytes

  recv_bytes : Bytes
  recv_bytes = be32 s.recv_count ++ since_bytes

  send_bytes : Bytes
  send_bytes = be32 s.send_count ++ recv_bytes

  crecv_bytes : Bytes
  crecv_bytes = s.chain_key_recv ++ send_bytes

  csend_bytes : Bytes
  csend_bytes = s.chain_key_send ++ crecv_bytes

  root_bytes : Bytes
  root_bytes = s.root_key ++ csend_bytes

  remote_part : Bytes
  remote_part = remote_bytes s.remote_dh ++ root_bytes

  raw : Bytes
  raw = 2 ∷ (s.dh_secret ++ (s.dh_public ++ remote_part))

  raw-eq : to_bytes s ≡ raw
  unfolding to_bytes raw remote_part root_bytes csend_bytes crecv_bytes send_bytes recv_bytes
      since_bytes count_bytes
  raw-eq = refl

  pos : ℕ
  pos = remote_end s.remote_dh (1 + 32 + 32)

  At-secret : At raw 1 (s.dh_secret ++ (s.dh_public ++ remote_part))
  unfolding raw
  At-secret = record { within = omega arith; suffix = refl }

  At-public : At raw (1 + 32) (s.dh_public ++ remote_part)
  At-public = At-next raw 32 s.dh_secret _ At-secret v.secret_size

  At-remote : At raw (1 + 32 + 32) (remote_bytes s.remote_dh ++ root_bytes)
  unfolding remote_part
  At-remote = At-next raw 32 s.dh_public _ At-public v.public_size

  remote_read : (read_remote raw (1 + 32 + 32) ≡ ok (s.remote_dh, pos)) × At raw pos root_bytes
  unfolding pos
  remote_read = read_remote_lem raw (1 + 32 + 32) root_bytes s.remote_dh v.remote_size At-remote

  At-root : At raw pos (s.root_key ++ csend_bytes)
  unfolding root_bytes
  At-root = remote_read.1

  At-csend : At raw (pos + 32) (s.chain_key_send ++ crecv_bytes)
  unfolding csend_bytes
  At-csend = At-next raw 32 s.root_key _ At-root v.root_size

  At-crecv : At raw (pos + 32 + 32) (s.chain_key_recv ++ send_bytes)
  unfolding crecv_bytes
  At-crecv = At-next raw 32 s.chain_key_send _ At-csend v.send_size

  At-send : At raw (pos + 32 + 32 + 32) (be32 s.send_count ++ recv_bytes)
  unfolding send_bytes
  At-send = At-next raw 32 s.chain_key_recv _ At-crecv v.recv_size

  At-recv : At raw (pos + 32 + 32 + 32 + 4) (be32 s.recv_count ++ since_bytes)
  unfolding recv_bytes
  At-recv = At-next raw 4 (be32 s.send_count) _ At-send (length-be32 s.send_count)

  At-since : At raw (pos + 32 + 32 + 32 + 4 + 4) (be32 s.sends_since_dh ++ count_bytes)
  unfolding since_bytes
  At-since = At-next raw 4 (be32 s.recv_count) _ At-recv (length-be32 s.recv_count)

  after : ℕ
  after = pos + 32 + 32 + 32 + 4 + 4 + 4

  At-count : At raw after (be32 (length s.skipped_keys % 2 ^ 32) ++ skipped_bytes s.skipped_keys)
  unfolding count_bytes after
  At-count = At-next raw 4 (be32 s.sends_since_dh) _ At-since (length-be32 s.sends_since_dh)

  since_read : read_since 2 raw (pos + 32 + 32 + 32 + 4 + 4) ≡ ok (s.sends_since_dh, after)
  unfolding read_since after
  since_read = rw (
    read_array "bad sends_since_dh" raw 4 (be32 s.sends_since_dh) count_bytes At-since
        (length-be32 s.sends_since_dh),
    ◌>>=◌,
    from_be_bytes-be32 s.sends_since_dh (omega (arith, v.since_word)),
  )

  count_value : from_be_bytes (be32 (length s.skipped_keys % 2 ^ 32)) ≡ length s.skipped_keys
  count_value = from_be_bytes-be32 _ (omega (arith, v.capped)) ∙ omega (arith, v.capped)

  At-skipped : At raw (after + 4) (skipped_bytes s.skipped_keys)
  At-skipped = At-next raw 4 (be32 (length s.skipped_keys % 2 ^ 32)) _ At-count (length-be32 _)

  skipped_read :
      read_skipped (from_be_bytes (be32 (length s.skipped_keys % 2 ^ 32))) raw (after + 4) []
      ≡ ok s.skipped_keys
  skipped_read = rw count_value (
      read_skipped_lem raw (after + 4) [] s.skipped_keys At-skipped (Before-none s.skipped_keys)
        v.sorted v.keys
        (Below-word s.recv_count s.skipped_keys (omega (arith, v.recv_word)) v.past))

  version_read : read_version raw ≡ ok 2
  unfolding read_version raw
  version_read = refl

  -- A well-formed state is restored from its bytes, field by field.
  pub from_bytes-to_bytes : from_bytes (to_bytes s) ≡ ok s
  unfolding from_bytes
  from_bytes-to_bytes = rw (
    raw-eq,
    version_read,
    ◌>>=◌,
    read_array "bad dh sec" raw 32 s.dh_secret _ At-secret v.secret_size,
    read_array "bad dh pub" raw 32 s.dh_public _ At-public v.public_size,
    remote_read.0,
    read_array "bad root" raw 32 s.root_key _ At-root v.root_size,
    read_array "bad csend" raw 32 s.chain_key_send _ At-csend v.send_size,
    read_array "bad crecv" raw 32 s.chain_key_recv _ At-crecv v.recv_size,
    read_array "bad send" raw 4 (be32 s.send_count) _ At-send (length-be32 s.send_count),
    read_array "bad recv" raw 4 (be32 s.recv_count) _ At-recv (length-be32 s.recv_count),
    since_read,
    read_array "bad sklen" raw 4 (be32 (length s.skipped_keys % 2 ^ 32)) _ At-count (length-be32 _),
    skipped_read,
    from_be_bytes-be32 s.send_count (omega (arith, v.send_word)),
    from_be_bytes-be32 s.recv_count (omega (arith, v.recv_word)),
  )
