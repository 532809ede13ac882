-- ===== src/MessageBook/Codec.antt =====
-- message_book.rs: `export` and `load`. The reader is the bytes that are left.
use hash_chat.Prelude.{
  ℕ, zero, suc, ◌+◌, ◌*◌, ◌%◌, ◌^◌, max, Bool, true, false, not, ◌||◌, ◌&&◌, Option, none, some,
  List, [], ◌∷◌, ◌++◌, length, take, drop, ltb, leb, ◌==◌, if◌then◌else◌, Result, ok, err, panic,
  ok_or, refuse_if, ◌>>=◌, ◌>>◌,
}
use hash_chat.Prelude.Bytes.{Bytes, be32, be64, from_be_bytes}
use hash_chat.Prelude.Utf8.{as_bytes, from_utf8}
use hash_chat.MessageBook.{
  MessageBook, MessageEntry, to_u8, from_u8, max_messages, max_text_bytes, clean_text, is_kept,
  persisted_entries,
}

pub data MessageBookError : Type 0 where
  malformed too_large : MessageBookError

-- `b"HCMB1"`
abbrev pub magic : Bytes
magic = 72 ∷ 67 ∷ 77 ∷ 66 ∷ 49 ∷ []

abbrev pub max_encoded_bytes : ℕ
max_encoded_bytes = max_messages * (max_text_bytes + 30) + 16

abbrev pub from_bool : Bool → ℕ
from_bool false = 0
from_bool true = 1

abbrev pub unwrap_or_zero : Option ℕ → ℕ
unwrap_or_zero none = 0
unwrap_or_zero (some t) = t

unfoldable pub entry_bytes : MessageEntry → Bytes
entry_bytes e =
    be64 e.id
    ++ (from_bool e.mine
        ∷ to_u8 e.delivery
        ∷ (be64 e.sent_at
            ++ (be64 (unwrap_or_zero e.expires_at)
                ++ (be32 (length (as_bytes e.text) % 2 ^ 32) ++ as_bytes e.text))))

unfoldable pub entries_bytes : List MessageEntry → Bytes
entries_bytes [] = []
entries_bytes (e ∷ es) = entry_bytes e ++ entries_bytes es

unfoldable pub export : MessageBook → Bytes
export b =
    let es = persisted_entries b in
    if b.ephemeral
    then magic ++ be32 0
    else magic ++ (be32 (length es % 2 ^ 32) ++ entries_bytes es)

-- `Reader::take`: the next `n` bytes, and what is left
unfoldable pub read : ℕ → Bytes → Result MessageBookError (Bytes × Bytes)
read n r = if leb n (length r) then ok (take n r, drop n r) else err malformed

-- `Reader::u8`, `Reader::u32`, `Reader::u64`
unfoldable pub read_number : ℕ → Bytes → Result MessageBookError (ℕ × Bytes)
read_number width r = do (b, r) ← read width r; ok (from_be_bytes b, r)

unfoldable pub has_id : ℕ → List MessageEntry → Bool
has_id id [] = false
has_id id (e ∷ es) = e.id == id || has_id id es

-- `(exp != 0).then_some(exp)`
unfoldable pub deadline_of : ℕ → Option ℕ
deadline_of exp = if not (exp == 0) then some exp else none

-- one entry, as it was encoded
unfoldable pub read_entry : Bytes → Result MessageBookError (MessageEntry × Bytes)
read_entry r = do
  (id, r) ← read_number 8 r
  (flags, r) ← read_number 1 r
  refuse_if (ltb 1 flags || id == 0) malformed
  (code, r) ← read_number 1 r
  delivery ← ok_or (from_u8 code) malformed
  (sent_at, r) ← read_number 8 r
  (exp, r) ← read_number 8 r
  (len, r) ← read_number 4 r
  refuse_if (ltb max_text_bytes len) too_large
  (raw_text, r) ← read len r
  text ← ok_or (from_utf8 raw_text) malformed
  ok (
    record {
      id = id;
      mine = flags == 1;
      delivery = delivery;
      sent_at = sent_at;
      expires_at = deadline_of exp;
      text = text;
    },
    r,
  )

-- the loop over the entries, with the ones that were read and the greatest id
unfoldable pub read_entries :
    ℕ → ℕ → List MessageEntry → ℕ → Bytes → Result MessageBookError (List MessageEntry × ℕ × Bytes)
read_entries zero now entries max_id r = ok (entries, max_id, r)
read_entries (suc count) now entries max_id r = do
  (e, r) ← read_entry r
  refuse_if (has_id e.id entries) malformed
  let kept =
      if is_kept now e.expires_at
      then entries ++ record e { text = clean_text e.text } ∷ []
      else entries
  read_entries count now kept (max max_id e.id) r

abbrev pub is_empty : Bytes → Bool
is_empty [] = true
is_empty (b ∷ bs) = false

abbrev pub equal : Bytes → Bytes → Bool
equal [] [] = true
equal (x ∷ xs) (y ∷ ys) = x == y && equal xs ys
equal [] (y ∷ ys) = false
equal (x ∷ xs) [] = false

unfoldable pub parse : Bytes → ℕ → Result MessageBookError (List MessageEntry × ℕ)
parse raw now = do
  refuse_if (ltb max_encoded_bytes (length raw)) too_large
  (head, r) ← read 5 raw
  refuse_if (not (equal head magic)) malformed
  (count, r) ← read_number 4 r
  refuse_if (ltb max_messages count) too_large
  (entries, max_id, r) ← read_entries count now [] 0 r
  refuse_if (not (is_empty r)) malformed
  ok (entries, max_id)

abbrev pub adopt :
    MessageBook
    → Result MessageBookError (List MessageEntry × ℕ)
    → Result MessageBookError (Unit {0}) × MessageBook
adopt b (ok (entries, max_id)) =
    (ok tt, record b { held = none; entries = entries; next_id = max ((max_id + 1) % 2 ^ 64) 1 })
adopt b (err e) = (err e, b)
adopt b panic = (panic, b)

unfoldable pub load : Bytes → ℕ → MessageBook → Result MessageBookError (Unit {0}) × MessageBook
load raw now b = adopt b (parse raw now)
