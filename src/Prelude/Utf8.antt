-- ===== src/Prelude/Utf8.antt =====
-- Rust's `str`: a list of characters, which are Unicode scalar values, and its UTF-8 bytes.
use Prim.Native.Char.{code}
use Prim.Native.String.{String}
use Prim.Native.Nat.{ℕ, zero, suc, ◌+◌, ◌-◌, ◌*◌, ◌/◌, ◌%◌, ◌≤◌, ◌<◌}
use mathlib.Core.Path.{◌≡◌, refl, ap, ◌∙◌}
use mathlib.Core.Logic.{◌⊎◌}
use mathlib.Core.Bool.{Bool, true, false, ◌&&◌, ◌||◌}
use mathlib.Core.Option.{Option, none, some}
use mathlib.Core.List.{List, [], ◌∷◌, ◌++◌}
use native.Mathlib.Omega.{arith}
use hash_chat.Prelude.Tests.{ltb, leb, ◌==◌, if◌then◌else◌}
use hash_chat.Prelude.Lists.{All}
use hash_chat.Prelude.Bytes.{Bytes}

abbrev pub Text : Type 0
Text = List ℕ

-- the characters of a literal
unfoldable pub chars : String → Text
chars String.[] = []
chars (String.◌∷◌ ch s) = code ch ∷ chars s

-- `==` of two strings
unfoldable pub same_text : Text → Text → Bool
same_text [] [] = true
same_text (x ∷ xs) (y ∷ ys) = x == y && same_text xs ys
same_text [] (y ∷ ys) = false
same_text (x ∷ xs) [] = false

-- `str::is_empty`
abbrev pub is_blank : Text → Bool
is_blank [] = true
is_blank (ch ∷ s) = false

-- `char::is_whitespace`
unfoldable pub is_whitespace : ℕ → Bool
is_whitespace ch =
    leb 9 ch && leb ch 13
    || ch == 32
    || ch == 0x85
    || ch == 0xA0
    || ch == 0x1680
    || leb 0x2000 ch && leb ch 0x200A
    || ch == 0x2028
    || ch == 0x2029
    || ch == 0x202F
    || ch == 0x205F
    || ch == 0x3000

unfoldable pub trim_start : Text → Text
trim_start [] = []
trim_start (ch ∷ s) = let rest = trim_start s in if is_whitespace ch then rest else ch ∷ s

unfoldable pub trim_end : Text → Text
trim_end [] = []
trim_end (ch ∷ s) =
    let rest = trim_end s in if is_whitespace ch && is_blank rest then [] else ch ∷ rest

-- `str::trim`
unfoldable pub trim : Text → Text
unfolding trim_start trim_end
trim s = trim_end (trim_start s)

-- `to_ascii_lowercase`
unfoldable pub to_ascii_lowercase : Text → Text
to_ascii_lowercase [] = []
to_ascii_lowercase (ch ∷ s) =
    (if leb 65 ch && leb ch 90 then ch + 32 else ch) ∷ to_ascii_lowercase s

-- a scalar value: in range, and no surrogate
abbrev pub IsChar : ℕ → Type 0
IsChar c = (c < 0x110000) × ((c < 0xD800) ⊎ (0xE000 ≤ c))

abbrev pub IsText : Text → Type 0
IsText = All IsChar

unfoldable pub is_scalar : ℕ → Bool
is_scalar c = ltb c 0x110000 && (ltb c 0xD800 || leb 0xE000 c)

unfoldable pub encode_char : ℕ → Bytes
encode_char c =
    if ltb c 0x80
    then c ∷ []
    else if ltb c 0x800
    then (0xC0 + c / 64) ∷ (0x80 + c % 64) ∷ []
    else if ltb c 0x10000
    then (0xE0 + c / 4096) ∷ (0x80 + c / 64 % 64) ∷ (0x80 + c % 64) ∷ []
    else (0xF0 + c / 262144) ∷ (0x80 + c / 4096 % 64) ∷ (0x80 + c / 64 % 64) ∷ (0x80 + c % 64) ∷ []

-- `as_bytes`
unfoldable pub as_bytes : Text → Bytes
as_bytes [] = []
as_bytes (c ∷ cs) = encode_char c ++ as_bytes cs

-- what a first byte announces: the bytes that follow, its own bits, and the least character that
-- may be written in this many bytes
unfoldable pub lead : ℕ → Option (ℕ × ℕ × ℕ)
lead b =
    if ltb b 0x80
    then some (0, b, 0)
    else if ltb b 0xC0
    then none
    else if ltb b 0xE0
    then some (1, b - 0xC0, 0x80)
    else if ltb b 0xF0
    then some (2, b - 0xE0, 0x800)
    else if ltb b 0xF8
    then some (3, b - 0xF0, 0x10000)
    else none

unfoldable pub is_continuation : ℕ → Bool
is_continuation b = leb 0x80 b && ltb b 0xC0

abbrev pub cons_char : ℕ → Option Text → Option Text
cons_char c none = none
cons_char c (some cs) = some (c ∷ cs)

-- with the bytes that are still to come for the present character, its bits so far and its least
unfoldable pub decode : ℕ → ℕ → ℕ → Bytes → Option Text
decode zero bits least [] = some []
decode (suc more) bits least [] = none
decode zero bits least (b ∷ bs) = elim (lead b) [
  | none ↦ none
  | some (zero, own, least') ↦ cons_char own (decode 0 0 0 bs)
  | some (suc more, own, least') ↦ decode (suc more) own least' bs
]
decode (suc zero) bits least (b ∷ bs) =
    let c = bits * 64 + (b - 0x80) in
    elim (is_continuation b && (leb least c && is_scalar c)) [
      | true ↦ cons_char c (decode 0 0 0 bs)
      | false ↦ none
    ]
decode (suc (suc more)) bits least (b ∷ bs) = elim (is_continuation b) [
  | true ↦ decode (suc more) (bits * 64 + (b - 0x80)) least bs
  | false ↦ none
]

-- `std::str::from_utf8`
unfoldable pub from_utf8 : Bytes → Option Text
unfolding decode
from_utf8 bs = decode 0 0 0 bs

is_scalar_lem : (c : ℕ) → IsChar c → is_scalar c ≡ true
unfolding is_scalar
is_scalar_lem c h = ground arith

is_continuation_lem : (x : ℕ) → x < 64 → is_continuation (0x80 + x) ≡ true
unfolding is_continuation
is_continuation_lem x h = ground arith

lead_two : (x : ℕ) → x < 32 → lead (0xC0 + x) ≡ some (1, x, 0x80)
unfolding lead
lead_two x h = ground arith

lead_three : (x : ℕ) → x < 16 → lead (0xE0 + x) ≡ some (2, x, 0x800)
unfolding lead
lead_three x h = ground arith

lead_four : (x : ℕ) → x < 8 → lead (0xF0 + x) ≡ some (3, x, 0x10000)
unfolding lead
lead_four x h = ground arith

decode_last :
    (bits least x c : ℕ) (rest : Bytes)
    → x < 64
    → bits * 64 + x ≡ c
    → least ≤ c
    → IsChar c
    → decode 1 bits least ((0x80 + x) ∷ rest) ≡ cons_char c (decode 0 0 0 rest)
unfolding decode
decode_last bits least x c rest h e le char =
    ground (arith, is_continuation_lem x h, is_scalar_lem c char)

decode_next :
    (more bits least x : ℕ) (rest : Bytes)
    → x < 64
    → decode (suc (suc more)) bits least ((0x80 + x) ∷ rest)
      ≡ decode (suc more) (bits * 64 + x) least rest
unfolding decode
decode_next more bits least x rest h = ground (arith, is_continuation_lem x h)

decode_one :
    (c : ℕ) (rest : Bytes) → c < 0x80 → decode 0 0 0 (c ∷ rest) ≡ cons_char c (decode 0 0 0 rest)
unfolding decode lead
decode_one c rest h = ground arith

decode-lead :
    (b more own least : ℕ) (rest : Bytes)
    → lead b ≡ some (suc more, own, least)
    → decode 0 0 0 (b ∷ rest) ≡ decode (suc more) own least rest
unfolding decode
decode-lead b more own least rest e = ground (arith, e)

decode_two :
    (c : ℕ) (rest : Bytes)
    → 0x80 ≤ c
    → c < 0x800
    → IsChar c
    → decode 0 0 0 ((0xC0 + c / 64) ∷ (0x80 + c % 64) ∷ rest) ≡ cons_char c (decode 0 0 0 rest)
decode_two c rest lo hi h =
    decode-lead (0xC0 + c / 64) 0 (c / 64) 0x80 _ (lead_two (c / 64) (omega arith))
    ∙ decode_last (c / 64) 0x80 (c % 64) c rest (omega arith) (omega arith) lo h

decode_three :
    (c : ℕ) (rest : Bytes)
    → 0x800 ≤ c
    → c < 0x10000
    → IsChar c
    → decode 0 0 0 ((0xE0 + c / 4096) ∷ (0x80 + c / 64 % 64) ∷ (0x80 + c % 64) ∷ rest)
      ≡ cons_char c (decode 0 0 0 rest)
decode_three c rest lo hi h =
    decode-lead (0xE0 + c / 4096) 1 (c / 4096) 0x800 _ (lead_three (c / 4096) (omega arith))
    ∙ decode_next 0 (c / 4096) 0x800 (c / 64 % 64) _ (omega arith)
    ∙ decode_last (c / 4096 * 64 + c / 64 % 64) 0x800 (c % 64) c rest (omega arith) (omega arith) lo
        h

decode_four :
    (c : ℕ) (rest : Bytes)
    → 0x10000 ≤ c
    → IsChar c
    → decode 0 0 0 (
        (0xF0 + c / 262144)
        ∷ (0x80 + c / 4096 % 64)
        ∷ (0x80 + c / 64 % 64)
        ∷ (0x80 + c % 64)
        ∷ rest)
      ≡ cons_char c (decode 0 0 0 rest)
decode_four c rest lo h =
    decode-lead (0xF0 + c / 262144) 2 (c / 262144) 0x10000 _ (lead_four (c / 262144) (omega arith))
    ∙ decode_next 1 (c / 262144) 0x10000 (c / 4096 % 64) _ (omega arith)
    ∙ decode_next 0 (c / 262144 * 64 + c / 4096 % 64) 0x10000 (c / 64 % 64) _ (omega arith)
    ∙ decode_last ((c / 262144 * 64 + c / 4096 % 64) * 64 + c / 64 % 64) 0x10000 (c % 64) c rest
        (omega arith) (omega arith) lo h

decode-encode_char :
    (c : ℕ) (rest : Bytes)
    → IsChar c
    → decode 0 0 0 (encode_char c ++ rest) ≡ cons_char c (decode 0 0 0 rest)
unfolding encode_char
decode-encode_char c rest h =
    ground (arith, decode_one c rest, decode_two c rest, decode_three c rest, decode_four c rest)

pub from_utf8-as_bytes : (cs : Text) → IsText cs → from_utf8 (as_bytes cs) ≡ some cs
unfolding from_utf8 as_bytes decode
from_utf8-as_bytes [] h = refl
from_utf8-as_bytes (c ∷ cs) h =
    decode-encode_char c (as_bytes cs) h.0 ∙ ap (cons_char c) (from_utf8-as_bytes cs h.1)
