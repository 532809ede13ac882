-- ===== src/SessionPersist/Codec/Fields.antt =====
-- session_persist.rs: reading one field that was written.
use hash_chat.Prelude.{
  ℕ, ◌%◌, ◌^◌, ◌<◌, ◌≡◌, refl, List, [], ◌∷◌, ◌++◌, length, length-append, take, drop, take-append,
  drop-append, append_assoc, Result, ok, ◌>>=◌, All, arith,
}
use hash_chat.Prelude.Bytes.{
  Bytes, be32, be64, length-be32, length-be64, from_be_bytes-be32, from_be_bytes-be64,
}
use hash_chat.Prelude.Utf8.{Text, IsText, as_bytes, from_utf8-as_bytes}
use hash_chat.SessionPersist.{PersistedContact}
use hash_chat.SessionPersist.Codec.{
  BlobError, truncated_len, truncated_bytes, truncated_keys, write_len_bytes, read_fixed, read_word,
  read_len_bytes, write_len_str, read_len_str, write_all, read_all, write_counted, read_counted,
  write_string_list, read_string_list, contact_bytes, read_contact, pair_bytes, read_pair,
  truncated_list,
}

-- `read` takes `a` off its bytes
abbrev pub Reads : {A : Type 0} → (Bytes → Result BlobError (A × Bytes)) → Bytes → A → Type 0
Reads read bytes a = (rest : Bytes) → read (bytes ++ rest) ≡ ok (a, rest)

pub fixed-Reads : (n : ℕ) (e : BlobError) (b : Bytes) → length b ≡ n → Reads (read_fixed n e) b b
unfolding read_fixed
fixed-Reads n e b size rest =
    rw (← size) (ground (arith, length-append b rest, take-append b rest, drop-append b rest))

pub word-Reads : (e : BlobError) (n : ℕ) → n < 2 ^ 32 → Reads (read_word 4 e) (be32 n) n
unfolding read_word
word-Reads e n h rest =
    rw (fixed-Reads 4 e (be32 n) (length-be32 n) rest, ◌>>=◌, from_be_bytes-be32 n h) refl

pub long-Reads : (e : BlobError) (n : ℕ) → n < 2 ^ 64 → Reads (read_word 8 e) (be64 n) n
unfolding read_word
long-Reads e n h rest =
    rw (fixed-Reads 8 e (be64 n) (length-be64 n) rest, ◌>>=◌, from_be_bytes-be64 n h) refl

pub bytes-Reads : (b : Bytes) → length b < 2 ^ 32 → Reads read_len_bytes (write_len_bytes b) b
unfolding read_len_bytes write_len_bytes
bytes-Reads b h rest =
    let small : length b % 2 ^ 32 ≡ length b = omega (arith, h) in
    rw
      (
        small,
        append_assoc (be32 (length b)) b rest,
        word-Reads truncated_len (length b) h (b ++ rest),
        ◌>>=◌,
      )
      (fixed-Reads (length b) truncated_bytes b refl rest)

-- a string that fits the length field
pub record IsShort (s : Text) : Type 0 where
  pub text : IsText s
  pub size : length (as_bytes s) < 2 ^ 32

pub str-Reads : (s : Text) → IsShort s → Reads read_len_str (write_len_str s) s
unfolding read_len_str write_len_str
str-Reads s v rest =
    rw (bytes-Reads (as_bytes s) v.size rest, ◌>>=◌, from_utf8-as_bytes s v.text) refl

module _ {A : Type 0} (write : A → Bytes) (read : Bytes → Result BlobError (A × Bytes)) where
  all-Reads :
      (items : List A)
      → All (λ a. Reads read (write a) a) items
      → Reads (read_all read (length items)) (write_all write items) items
  unfolding read_all write_all
  all-Reads [] h rest = refl
  all-Reads (a ∷ items) h rest =
      rw
        (
          append_assoc (write a) (write_all write items) rest,
          h.0 (write_all write items ++ rest),
          ◌>>=◌,
          all-Reads items h.1 rest,
        )
        refl

  pub counted-Reads :
      (e : BlobError) (items : List A)
      → length items < 2 ^ 32
      → All (λ a. Reads read (write a) a) items
      → Reads (read_counted read e) (write_counted write items) items
  unfolding read_counted write_counted
  counted-Reads e items few h rest =
      let small : length items % 2 ^ 32 ≡ length items = omega (arith, few) in
      rw
        (
          small,
          append_assoc (be32 (length items)) (write_all write items) rest,
          word-Reads e (length items) few (write_all write items ++ rest),
          ◌>>=◌,
        )
        (all-Reads items h rest)

module _ {A : Type 0} {P : A → Type 0} {Q : A → Type 0} (f : (a : A) → P a → Q a) where
  pub each : (items : List A) → All P items → All Q items
  each [] h = tt
  each (a ∷ items) h = (f a h.0, each items h.1)

pub list-Reads :
    (items : List Text)
    → length items < 2 ^ 32
    → All IsShort items
    → Reads read_string_list (write_string_list items) items
unfolding read_string_list write_string_list
list-Reads items few h =
    counted-Reads write_len_str read_len_str truncated_list items few (each str-Reads items h)

pub record IsContact (c : PersistedContact) : Type 0 where
  pub id : IsShort c.id
  pub display_name : IsShort c.display_name
  pub onion : IsShort c.onion
  pub x25519 : length c.x25519 ≡ 32
  pub ed25519 : length c.ed25519 ≡ 32

pub contact-Reads : (c : PersistedContact) → IsContact c → Reads read_contact (contact_bytes c) c
unfolding read_contact contact_bytes
contact-Reads c v rest =
    let keys = c.x25519 ++ c.ed25519 in
    let size : length keys ≡ 64 =
      omega (arith, length-append c.x25519 c.ed25519, v.x25519, v.ed25519) in
    let first : take 32 keys ≡ c.x25519 = rw (← v.x25519) (take-append c.x25519 c.ed25519) in
    let second : drop 32 keys ≡ c.ed25519 = rw (← v.x25519) (drop-append c.x25519 c.ed25519) in
    rw
      (
        append_assoc (write_len_str c.id) _ rest,
        str-Reads c.id v.id,
        ◌>>=◌,
        append_assoc (write_len_str c.display_name) _ rest,
        str-Reads c.display_name v.display_name,
        append_assoc (write_len_str c.onion) _ rest,
        str-Reads c.onion v.onion,
        fixed-Reads 64 truncated_keys keys size rest,
        first,
        second,
      )
      refl

pub record IsPair (p : Text × Bytes) : Type 0 where
  pub key : IsShort p.0
  pub size : length p.1 < 2 ^ 32

pub pair-Reads : (p : Text × Bytes) → IsPair p → Reads read_pair (pair_bytes p) p
unfolding read_pair pair_bytes
pair-Reads (s, b) v rest =
    rw
      (
        append_assoc (write_len_str s) (write_len_bytes b) rest,
        str-Reads s v.key,
        ◌>>=◌,
        bytes-Reads b v.size rest,
      )
      refl
