-- ===== src/Invites/RoundTrip.antt =====
-- invite.rs: `from_bytes` on the bytes of `to_bytes`.
use hash_chat.Prelude.{
  ℕ, ◌*◌, ◌/◌, ◌%◌, ◌^◌, ◌≤◌, ◌<◌, ◌≡◌, refl, ap, sym, ◌∙◌, false, not, ◌||◌, [], ◌∷◌, ◌++◌, length,
  length-append, take, drop, take-append, drop-append, drop-drop, append_assoc, append-nil, ltb,
  ◌==◌, All, All-append, ok, ◌>>=◌, arith,
}
use hash_chat.Prelude.Bytes.{Bytes, be32, be64, from_be_bytes, length-be64, from_be_bytes-be64}
use hash_chat.Prelude.BTreeMap.{Map, contains_key, insert, IsSorted, Above, Below}
use hash_chat.Prelude.BTreeMap.Laws.{get-Below}
use hash_chat.Invites.{
  PendingEntry, PendingInvites, be128, entry_bytes, open_bytes, to_bytes, read_chunks, from_bytes,
  max_pending_invites,
}

pub record IsEntry (e : ℕ × PendingEntry) : Type 0 where
  pub id : e.0 < 2 ^ 128
  pub salt : length e.1.salt ≡ 32
  pub expires : e.1.expires < 2 ^ 64

pub record IsOpen (p : PendingInvites) : Type 0 where
  pub sorted : IsSorted p.invites
  pub entries : All IsEntry p.invites
  pub capped : length p.invites ≤ max_pending_invites

pub length-be128 : (n : ℕ) → length (be128 n) ≡ 16
unfolding be128
length-be128 n = omega (
  arith,
  length-append (be64 (n / 2 ^ 64 % 2 ^ 64)) (be64 (n % 2 ^ 64)),
  length-be64 (n / 2 ^ 64 % 2 ^ 64),
  length-be64 (n % 2 ^ 64),
)

pub from_be_bytes-be128 : (n : ℕ) → n < 2 ^ 128 → from_be_bytes (be128 n) ≡ n
unfolding be128 from_be_bytes be64 be32
from_be_bytes-be128 n h = omega arith

length-entry : (e : ℕ × PendingEntry) → IsEntry e → length (entry_bytes e) ≡ 56
unfolding entry_bytes
length-entry (id, e) v = omega (
  arith,
  length-append (be128 id) (e.salt ++ be64 e.expires),
  length-append e.salt (be64 e.expires),
  length-be128 id,
  length-be64 e.expires,
  v.salt,
)

length-open_bytes : (m : Map PendingEntry) → All IsEntry m → length (open_bytes m) ≡ 56 * length m
unfolding open_bytes
length-open_bytes [] h = refl
length-open_bytes (e ∷ m) h = omega (
  arith,
  length-append (entry_bytes e) (open_bytes m),
  length-entry e h.0,
  length-open_bytes m h.1,
)

insert_last :
    (k : ℕ) (v : PendingEntry) (m : Map PendingEntry) → Below k m → insert k v m ≡ m ++ (k, v) ∷ []
unfolding insert
insert_last k v [] h = refl
insert_last k v ((j, w) ∷ m) h = ground (arith, insert_last k v m h.1, h.0)

Above-next :
    (k : ℕ) (v : PendingEntry) (read m : Map PendingEntry)
    → Above k m
    → All (λ e. Below e.0 read) m
    → All (λ e. Below e.0 (read ++ (k, v) ∷ [])) m
Above-next k v read [] a h = tt
Above-next k v read ((j, w) ∷ m) a h =
    (All-append _ read ((k, v) ∷ []) h.0 (a.0, tt), Above-next k v read m a.1 h.1)

take_front : (n : ℕ) (xs ys : Bytes) → length xs ≡ n → take n (xs ++ ys) ≡ xs
take_front n xs ys size = rw (← size) (take-append xs ys)

drop_front : (n : ℕ) (xs ys : Bytes) → length xs ≡ n → drop n (xs ++ ys) ≡ ys
drop_front n xs ys size = rw (← size) (drop-append xs ys)

-- the parts of the bytes of one entry
pub record IsChunk (chunk : Bytes) (id : ℕ) (e : PendingEntry) : Type 0 where
  pub id_part : from_be_bytes (take 16 chunk) ≡ id
  pub salt_part : take 32 (drop 16 chunk) ≡ e.salt
  pub expires_part : from_be_bytes (drop 48 chunk) ≡ e.expires

entry-IsChunk : (id : ℕ) (e : PendingEntry) → IsEntry (id, e) → IsChunk (entry_bytes (id, e)) id e
unfolding entry_bytes
entry-IsChunk id e v =
    let tail = e.salt ++ be64 e.expires in
    let dropped : drop 16 (be128 id ++ tail) ≡ tail =
      drop_front 16 (be128 id) tail (length-be128 id) in
    record {
      id_part =
          ap from_be_bytes (take_front 16 (be128 id) tail (length-be128 id))
          ∙ from_be_bytes-be128 id v.id;
      salt_part = ap (take 32) dropped ∙ take_front 32 e.salt (be64 e.expires) v.salt;
      expires_part =
          ap from_be_bytes (
            sym (drop-drop 16 32 (be128 id ++ tail))
            ∙ ap (drop 32) dropped
            ∙ drop_front 32 e.salt (be64 e.expires) v.salt)
          ∙ from_be_bytes-be64 e.expires v.expires;
    }

absent : (id : ℕ) (read : Map PendingEntry) → Below id read → contains_key id read ≡ false
unfolding contains_key
absent id read b = rw (contains_key, get-Below id id read b (omega arith)) refl

read_lem :
    (m read : Map PendingEntry)
    → All IsEntry m
    → IsSorted m
    → All (λ e. Below e.0 read) m
    → read_chunks (length m) (open_bytes m) read ≡ ok (read ++ m)
unfolding read_chunks open_bytes
read_lem [] read h s a = ap ok (sym (append-nil read))
read_lem ((id, e) ∷ m) read h s a =
    let c = entry-IsChunk id e h.0 in
    let size = length-entry (id, e) h.0 in
    rw
      (
        take_front 56 (entry_bytes (id, e)) (open_bytes m) size,
        drop_front 56 (entry_bytes (id, e)) (open_bytes m) size,
        c.id_part,
        c.salt_part,
        c.expires_part,
        absent id read a.0,
        ◌>>=◌,
        insert_last id e read a.0,
      )
      (read_lem m (read ++ (id, e) ∷ []) h.1 s.1 (Above-next id e read m s.0 a.1)
        ∙ ap ok (append_assoc read ((id, e) ∷ []) m))

Below-nil : (m : Map PendingEntry) → All (λ e. Below {V = PendingEntry} e.0 []) m
Below-nil [] = tt
Below-nil (e ∷ m) = (tt, Below-nil m)

-- Open invites in the order of their ids, at most 64 and each with a 32-byte salt, come back from
-- their bytes as they were.
pub invites_from_bytes-to_bytes : (p : PendingInvites) → IsOpen p → from_bytes (to_bytes p) ≡ ok p
unfolding from_bytes to_bytes
invites_from_bytes-to_bytes p v =
    let n = length p.invites in
    let size = length-open_bytes p.invites v.entries in
    rw
      (
        size,
        count n,
        bounds n v.capped,
        ◌>>=◌,
        read_lem p.invites [] v.entries v.sorted (Below-nil p.invites),
      )
      refl
  where
    count : (n : ℕ) → 56 * n / 56 ≡ n
    count n = omega arith

    bounds :
        (n : ℕ)
        → n ≤ max_pending_invites
        → (not (56 * n % 56 == 0) || ltb max_pending_invites n) ≡ false
    bounds n h = ground arith
