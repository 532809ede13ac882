-- ===== src/Sanitize.antt =====
-- src/rust/term_sanitize.rs: the characters of untrusted text that a terminal would interpret.
pub mod Safe
use hash_chat.Prelude.{
  ℕ, Bool, true, false, ◌&&◌, ◌||◌, Option, none, some, [], ◌∷◌, map, ltb, leb, ◌==◌, if◌then◌else◌,
}
use hash_chat.Prelude.Utf8.{Text}

abbrev pub replacement : ℕ
replacement = 0xFFFD

-- `char::is_control`: the category Cc
unfoldable pub is_control : ℕ → Bool
is_control ch = ltb ch 0x20 || leb 0x7F ch && leb ch 0x9F

abbrev pub in_range : ℕ → ℕ → ℕ → Bool
in_range lo hi ch = leb lo ch && leb ch hi

-- what a character is replaced by, if it is
unfoldable pub map_char : ℕ → Option ℕ
unfolding is_control
map_char ch =
    if ch == 9 || ch == 10 || ch == 13
    then some 32
    else if is_control ch
    then some replacement
    else if ch == 0x200E || ch == 0x200F || ch == 0x061C
    then some replacement
    else if in_range 0x202A 0x202E ch || in_range 0x2066 0x2069 ch
    then some replacement
    else if ch == 0x2028 || ch == 0x2029
    then some replacement
    else if in_range 0xFFF9 0xFFFB ch
    then some replacement
    else none

abbrev pub is_none : Option ℕ → Bool
is_none none = true
is_none (some n) = false

abbrev pub unwrap_or : Option ℕ → ℕ → ℕ
unwrap_or none n = n
unwrap_or (some m) n = m

unfoldable pub is_terminal_safe : Text → Bool
unfolding map_char
is_terminal_safe [] = true
is_terminal_safe (c ∷ cs) = is_none (map_char c) && is_terminal_safe cs

-- `map_char(c).unwrap_or(c)` for every character
unfoldable pub replace_all : Text → Text
unfolding map_char
replace_all [] = []
replace_all (c ∷ cs) = unwrap_or (map_char c) c ∷ replace_all cs

unfoldable pub sanitize_for_terminal : Text → Text
sanitize_for_terminal s = if is_terminal_safe s then s else replace_all s
