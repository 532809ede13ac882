-- ===== src/ContactLink/Hex.antt =====
-- contact_link.rs: bytes as hexadecimal digits, and back.
use hash_chat.Prelude.{
  ℕ, ◌+◌, ◌-◌, ◌*◌, ◌/◌, ◌%◌, ◌≤◌, ◌<◌, ◌≡◌, ◌⊎◌, refl, Bool, true, not, ◌&&◌, ◌||◌, [], ◌∷◌,
  length, ltb, leb, ◌==◌, if◌then◌else◌, Result, ok, err, refuse_if, ◌>>=◌, ◌>>◌, All, arith,
}
use hash_chat.Prelude.Bytes.{Bytes, IsBytes}
use hash_chat.Prelude.Utf8.{Text, as_bytes, encode_char, trim}
use hash_chat.Prelude.Plain.{IsPlain, trim_plain}

pub data ContactLinkError : Type 0 where
  bad_format bad_hex bad_length bad_onion bad_signature bad_onion_binding : ContactLinkError
  unsigned_rejected dh_failed : ContactLinkError

-- a digit of `{:02x}`
unfoldable pub hex_digit : ℕ → ℕ
hex_digit d = if ltb d 10 then 48 + d else 87 + d

unfoldable pub hex_encode : Bytes → Text
unfolding hex_digit
hex_encode [] = []
hex_encode (b ∷ bs) = hex_digit (b / 16) ∷ hex_digit (b % 16) ∷ hex_encode bs

-- `is_ascii_hexdigit`
unfoldable pub is_ascii_hexdigit : ℕ → Bool
is_ascii_hexdigit ch = leb 48 ch && leb ch 57 || leb 65 ch && leb ch 70 || leb 97 ch && leb ch 102

unfoldable pub all_hexdigit : Bytes → Bool
unfolding is_ascii_hexdigit
all_hexdigit [] = true
all_hexdigit (b ∷ bs) = is_ascii_hexdigit b && all_hexdigit bs

-- the value of a digit
unfoldable pub digit_value : ℕ → ℕ
digit_value ch = if leb ch 57 then ch - 48 else if leb ch 70 then ch - 55 else ch - 87

-- `u8::from_str_radix(…, 16)` of each pair of digits
unfoldable pub pair_values : Bytes → Bytes
unfolding digit_value
pair_values [] = []
pair_values (a ∷ []) = []
pair_values (a ∷ b ∷ rest) = (digit_value a * 16 + digit_value b) ∷ pair_values rest

unfoldable pub hex_decode : Text → Result ContactLinkError Bytes
unfolding all_hexdigit pair_values
hex_decode s =
    let t = as_bytes (trim s) in
    if not (length t % 2 == 0) || not (all_hexdigit t) then err bad_hex else ok (pair_values t)

unfoldable pub hex_decode_fixed : ℕ → Text → Result ContactLinkError Bytes
hex_decode_fixed n s = do v ← hex_decode s; refuse_if (not (length v == n)) bad_length; ok v

-- a digit that `hex_encode` writes
abbrev pub IsHex : ℕ → Type 0
IsHex ch = ((48 ≤ ch) × (ch ≤ 57)) ⊎ ((97 ≤ ch) × (ch ≤ 102))

hex_digit-IsHex : (d : ℕ) → d < 16 → IsHex (hex_digit d)
unfolding hex_digit
hex_digit-IsHex d h = ground arith

hex_back : (d : ℕ) → d < 16 → digit_value (hex_digit d) ≡ d
unfolding hex_digit digit_value
hex_back d h = ground arith

pub hex_encode-IsHex : (bs : Bytes) → IsBytes bs → All IsHex (hex_encode bs)
unfolding hex_encode
hex_encode-IsHex [] h = tt
hex_encode-IsHex (b ∷ bs) h = (
  hex_digit-IsHex (b / 16) (omega (arith, h.0)),
  (hex_digit-IsHex (b % 16) (omega arith), hex_encode-IsHex bs h.1),
)

digits_lem : (t : Text) → All IsHex t → (all_hexdigit t ≡ true) × (as_bytes t ≡ t)
unfolding all_hexdigit is_ascii_hexdigit as_bytes encode_char
digits_lem [] h = (refl, refl)
digits_lem (ch ∷ t) h = let (all, same) = digits_lem t h.1 in ground (arith, all, same, h.0)

pub IsHex-IsPlain : (t : Text) → All IsHex t → All IsPlain t
IsHex-IsPlain [] h = tt
IsHex-IsPlain (ch ∷ t) h = (plain ch h.0, IsHex-IsPlain t h.1)
  where
    plain : (x : ℕ) → IsHex x → IsPlain x
    plain x k = omega arith

pairs_back : (bs : Bytes) → IsBytes bs → pair_values (hex_encode bs) ≡ bs
unfolding pair_values hex_encode
pairs_back [] h = refl
pairs_back (b ∷ bs) h = ground (
  arith,
  pairs_back bs h.1,
  hex_back (b / 16) (omega (arith, h.0)),
  hex_back (b % 16) (omega arith),
)

pub length-hex_encode : (bs : Bytes) → length (hex_encode bs) ≡ 2 * length bs
unfolding hex_encode
length-hex_encode [] = refl
length-hex_encode (b ∷ bs) = omega (arith, length-hex_encode bs)

pub hex_decode-hex_encode : (bs : Bytes) → IsBytes bs → hex_decode (hex_encode bs) ≡ ok bs
unfolding hex_decode
hex_decode-hex_encode bs h =
    let hex = hex_encode-IsHex bs h in
    let (all, same) = digits_lem (hex_encode bs) hex in
    rw (trim_plain (hex_encode bs) (IsHex-IsPlain (hex_encode bs) hex), same)
      (ground (arith, all, pairs_back bs h, length-hex_encode bs))

pub decode_fixed_lem :
    (n : ℕ) (bs : Bytes) → IsBytes bs → length bs ≡ n → hex_decode_fixed n (hex_encode bs) ≡ ok bs
unfolding hex_decode_fixed
decode_fixed_lem n bs h size = rw (hex_decode-hex_encode bs h, ◌>>=◌) (ground (arith, size))
