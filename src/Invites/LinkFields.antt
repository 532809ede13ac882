-- ===== src/Invites/LinkFields.antt =====
-- invite.rs: the fields of an invite link.
use hash_chat.Prelude.{
  ℕ, ◌^◌, ◌<◌, ◌≡◌, ◌≢◌, refl, ap, true, [], ◌∷◌, ◌++◌, length, ltb, if◌then◌else◌, Result, ok, err,
  map_err, All, All-append, arith,
}
use hash_chat.Prelude.Bytes.{Bytes, IsBytes, be32, be64}
use hash_chat.Prelude.Utf8.{Text, as_bytes, encode_char}
use hash_chat.Prelude.Plain.{IsPlain}
use hash_chat.Prelude.Decimal.{
  decimal, value_of-decimal, IsDigit, decimal-IsDigit, is_blank-decimal,
}
use hash_chat.ContactLink.Hex.{hex_encode, hex_encode-IsHex, IsHex-IsPlain, decode_fixed_lem}
use hash_chat.ContactLink.{split_slash, slash}
use hash_chat.ContactLink.RoundTrip.{split_field, All-imp, hex_slash}
use hash_chat.Invites.{InviteError, bad_format, be128}
use hash_chat.Invites.Link.{prefix, fixed, all_digits, parse_expires}

pub be128-IsBytes : (n : ℕ) → IsBytes (be128 n)
unfolding be128 be64 be32
be128-IsBytes n = omega arith

digits_lem : (s : Text) → All IsDigit s → (all_digits (as_bytes s) ≡ true) × (as_bytes s ≡ s)
unfolding all_digits as_bytes encode_char
digits_lem [] h = (refl, refl)
digits_lem (ch ∷ s) h = let (all, same) = digits_lem s h.1 in ground (arith, all, same, h.0)

pub digit-IsPlain : (n : ℕ) → IsDigit n → IsPlain n
digit-IsPlain n h = omega arith

pub digit_slash : (n : ℕ) → IsDigit n → n ≢ slash
digit_slash n h = omega arith

pub expires_lem : (n : ℕ) → n < 2 ^ 64 → parse_expires (decimal n) ≡ ok n
unfolding parse_expires
expires_lem n h =
    let (all, same) = digits_lem (decimal n) (decimal-IsDigit n) in
    rw (is_blank-decimal n, all, value_of-decimal n) (word n h)
  where
    word :
        (m : ℕ)
        → m < 2 ^ 64
        → (if◌then◌else◌ {A = Result InviteError ℕ} (ltb m (2 ^ 64)) (ok m) (err bad_format)) ≡ ok m
    word m k = ground arith

pub fixed_lem : (n : ℕ) (bs : Bytes) → IsBytes bs → length bs ≡ n → fixed n (hex_encode bs) ≡ ok bs
unfolding fixed
fixed_lem n bs h size = ap (map_err (λ e. bad_format)) (decode_fixed_lem n bs h size)

pub prefix_plain : All IsPlain prefix
unfolding prefix
prefix_plain = omega arith

-- what an invite link is made of
pub record IsIssue (invite_id : ℕ) (salt : Bytes) (expires : ℕ) : Type 0 where
  pub id : invite_id < 2 ^ 128
  pub salt_size : length salt ≡ 32
  pub salt_bytes : IsBytes salt
  pub expires_word : expires < 2 ^ 64

-- a field, and the slash in front of it
pub slashed-IsPlain :
    (field rest : Text)
    → All IsPlain field
    → All IsPlain rest
    → All IsPlain (slash ∷ (field ++ rest))
slashed-IsPlain field rest f r = (omega arith, All-append IsPlain field rest f r)

pub hex-IsPlain : (bs : Bytes) → IsBytes bs → All IsPlain (hex_encode bs)
hex-IsPlain bs h = IsHex-IsPlain (hex_encode bs) (hex_encode-IsHex bs h)

pub hex_field :
    (bs : Bytes) (rest : Text)
    → IsBytes bs
    → split_slash (hex_encode bs ++ slash ∷ rest) ≡ hex_encode bs ∷ split_slash rest
hex_field bs rest h =
    split_field (hex_encode bs) rest (All-imp hex_slash (hex_encode bs) (hex_encode-IsHex bs h))
