-- ===== src/MessageBook/ReadEntry.antt =====
-- message_book.rs: reading the bytes of one entry.
use hash_chat.Prelude.{
  ℕ, ◌%◌, ◌^◌, ◌≤◌, ◌<◌, ◌≡◌, refl, Bool, true, false, ◌||◌, Option, none, some, ◌∷◌, ◌++◌, arith,
  length, length-append, take-append, drop-append, ltb, ◌==◌, le→ltb, ok, append_assoc, ◌>>=◌,
}
use hash_chat.Prelude.Bytes.{
  Bytes, be32, be64, length-be32, length-be64, from_be_bytes, from_be_bytes-be32,
  from_be_bytes-be64,
}
use hash_chat.Prelude.Utf8.{as_bytes, from_utf8-as_bytes}
use hash_chat.MessageBook.{
  MessageEntry, Delivery, no_delivery, queued, sent, failed, to_u8, from_u8, max_text_bytes,
  u64_max,
}
use hash_chat.MessageBook.Codec.{
  entry_bytes, read, read_number, read_entry, deadline_of, from_bool, unwrap_or_zero,
}
use hash_chat.MessageBook.Clean.{size_of}
use hash_chat.MessageBook.Valid.{IsEntry, IsDeadline}

pub read_lem : (n : ℕ) (mid post : Bytes) → length mid ≡ n → read n (mid ++ post) ≡ ok (mid, post)
unfolding read
read_lem n mid post size =
    rw (← size) (ground (arith, length-append mid post, take-append mid post, drop-append mid post))

pub number_32 : (n : ℕ) (post : Bytes) → n < 2 ^ 32 → read_number 4 (be32 n ++ post) ≡ ok (n, post)
unfolding read_number
number_32 n post h =
    rw (read_lem 4 (be32 n) post (length-be32 n), ◌>>=◌, from_be_bytes-be32 n h) refl

number_64 : (n : ℕ) (post : Bytes) → n < 2 ^ 64 → read_number 8 (be64 n ++ post) ≡ ok (n, post)
unfolding read_number
number_64 n post h =
    rw (read_lem 8 (be64 n) post (length-be64 n), ◌>>=◌, from_be_bytes-be64 n h) refl

number_8 : (n : ℕ) (post : Bytes) → read_number 1 (n ∷ post) ≡ ok (n, post)
unfolding read_number read from_be_bytes
number_8 n post = ground arith

from_u8-to_u8 : (d : Delivery) → from_u8 (to_u8 d) ≡ some d
unfolding from_u8 to_u8
from_u8-to_u8 no_delivery = refl
from_u8-to_u8 queued = refl
from_u8-to_u8 sent = refl
from_u8-to_u8 failed = refl

deadline_back : (o : Option ℕ) → IsDeadline o → deadline_of (unwrap_or_zero o) ≡ o
unfolding deadline_of
deadline_back none h = refl
deadline_back (some t) h = ground arith

deadline_word : (o : Option ℕ) → IsDeadline o → unwrap_or_zero o < 2 ^ 64
deadline_word none h = omega arith
deadline_word (some t) h = omega arith

flag_back : (b : Bool) → (from_bool b == 1) ≡ b
flag_back true = refl
flag_back false = refl

flags_pass : (b : Bool) (id : ℕ) → 0 < id → (ltb 1 (from_bool b) || id == 0) ≡ false
flags_pass true id h = ground arith
flags_pass false id h = ground arith

-- the bytes of an entry, with what follows
layout :
    (e : MessageEntry) (post : Bytes)
    → entry_bytes e ++ post
      ≡ be64 e.id
        ++ (from_bool e.mine
            ∷ to_u8 e.delivery
            ∷ (be64 e.sent_at
                ++ (be64 (unwrap_or_zero e.expires_at)
                    ++ (be32 (size_of e.text % 2 ^ 32) ++ (as_bytes e.text ++ post)))))
unfolding entry_bytes
layout e post = rw (append_assoc, append_assoc, append_assoc, append_assoc) refl

pub read_entry_lem :
    (n : ℕ) (e : MessageEntry) (post : Bytes)
    → n ≤ u64_max
    → IsEntry n e
    → read_entry (entry_bytes e ++ post) ≡ ok (e, post)
unfolding read_entry
read_entry_lem n e post word v =
    rw
      (
        layout e post,
        number_64 e.id _ (omega (arith, v.older)),
        ◌>>=◌,
        number_8 (from_bool e.mine) _,
        flags_pass e.mine e.id v.numbered,
        number_8 (to_u8 e.delivery) _,
        from_u8-to_u8 e.delivery,
        number_64 e.sent_at _ (omega (arith, v.sent_word)),
        number_64 (unwrap_or_zero e.expires_at) _ (deadline_word e.expires_at v.expiry),
        small,
        number_32 (size_of e.text) _ (omega (arith, v.clean.capped)),
        le→ltb max_text_bytes (size_of e.text) v.clean.capped,
        read_lem (size_of e.text) (as_bytes e.text) post refl,
        from_utf8-as_bytes e.text v.clean.text,
        deadline_back e.expires_at v.expiry,
        flag_back e.mine,
      )
      refl
  where
    small : size_of e.text % 2 ^ 32 ≡ size_of e.text
    small = omega (arith, v.clean.capped)
