-- ===== src/MessageBook/Clean.antt =====
-- message_book.rs: the text of a message, as it is kept.
use hash_chat.Prelude.{
  ℕ, ◌+◌, ◌-◌, ◌≤◌, ◌≡◌, refl, ◌∙◌, true, false, [], ◌∷◌, arith, length, length-append, ltb, leb,
  Bool-cases, leb→le, le→ltb, inl, inr,
}
use hash_chat.Prelude.Utf8.{Text, IsText, as_bytes, encode_char}
use hash_chat.Sanitize.{is_terminal_safe, sanitize_for_terminal}
use hash_chat.Sanitize.Safe.{sanitize_safe, sanitize-IsText, sanitize_same}
use hash_chat.MessageBook.{cut_text, clean_text, max_text_bytes}

-- the bytes that a text takes
abbrev pub size_of : Text → ℕ
size_of s = length (as_bytes s)

pub record IsClean (s : Text) : Type 0 where
  pub text : IsText s
  pub safe : is_terminal_safe s ≡ true
  pub capped : size_of s ≤ max_text_bytes

size_cons : (ch : ℕ) (s : Text) → size_of (ch ∷ s) ≡ length (encode_char ch) + size_of s
unfolding as_bytes
size_cons ch s = length-append (encode_char ch) (as_bytes s)

size_nil : size_of [] ≡ 0
unfolding as_bytes
size_nil = refl

cut_more :
    (n ch : ℕ) (s : Text)
    → leb (length (encode_char ch)) n ≡ true
    → cut_text n (ch ∷ s) ≡ ch ∷ cut_text (n - length (encode_char ch)) s
unfolding cut_text
cut_more n ch s e = rw e refl

cut_stop :
    (n ch : ℕ) (s : Text) → leb (length (encode_char ch)) n ≡ false → cut_text n (ch ∷ s) ≡ []
unfolding cut_text
cut_stop n ch s e = rw e refl

cut_nil : (n : ℕ) → cut_text n [] ≡ []
unfolding cut_text
cut_nil n = refl

safe_head : (ch : ℕ) (s : Text) → is_terminal_safe (ch ∷ s) ≡ true → is_terminal_safe s ≡ true
unfolding is_terminal_safe
safe_head ch s h = ground (arith, h)

safe_cons :
    (ch : ℕ) (s t : Text)
    → is_terminal_safe (ch ∷ s) ≡ true
    → is_terminal_safe t ≡ true
    → is_terminal_safe (ch ∷ t) ≡ true
unfolding is_terminal_safe
safe_cons ch s t h k = ground (arith, h, k)

safe_nil : is_terminal_safe [] ≡ true
unfolding is_terminal_safe
safe_nil = refl

-- a beginning of a text, cut to the bytes that fit
record Cut (n : ℕ) (s t : Text) : Type 0 where
  size : size_of t ≤ n
  text : IsText s → IsText t
  safe : is_terminal_safe s ≡ true → is_terminal_safe t ≡ true

cut_text-Cut : (n : ℕ) (s : Text) → Cut n s (cut_text n s)
cut_text-Cut n [] =
    rw cut_nil (record { size = omega (arith, size_nil); text = λ h. tt; safe = λ h. h })
cut_text-Cut n (ch ∷ s) = elim (Bool-cases (leb (length (encode_char ch)) n)) [
  | inl fits ↦
      let rest = cut_text (n - length (encode_char ch)) s in
      let cut = cut_text-Cut (n - length (encode_char ch)) s in
      rw (cut_more n ch s fits) (record {
        size = omega (arith, leb→le _ _ fits, size_cons ch rest, cut.size);
        text = λ h. (h.0, cut.text h.1);
        safe = λ h. safe_cons ch s rest h (cut.safe (safe_head ch s h));
      })
  | inr stops ↦
      rw (cut_stop n ch s stops)
        (record { size = omega (arith, size_nil); text = λ h. tt; safe = λ h. safe_nil })
]

clean_long :
    (raw : Text)
    → ltb max_text_bytes (size_of (sanitize_for_terminal raw)) ≡ true
    → clean_text raw ≡ cut_text max_text_bytes (sanitize_for_terminal raw)
unfolding clean_text
clean_long raw e = rw e refl

clean_short :
    (raw : Text)
    → ltb max_text_bytes (size_of (sanitize_for_terminal raw)) ≡ false
    → clean_text raw ≡ sanitize_for_terminal raw
unfolding clean_text
clean_short raw e = rw e refl

-- Whatever Unicode text comes in, what is kept of it is Unicode text, safe for the terminal and
-- within the cap.
pub clean_text-IsClean : (raw : Text) → IsText raw → IsClean (clean_text raw)
clean_text-IsClean raw h =
    elim (Bool-cases (ltb max_text_bytes (size_of (sanitize_for_terminal raw)))) [
      | inl long ↦
          let cut = cut_text-Cut max_text_bytes (sanitize_for_terminal raw) in
          rw (clean_long raw long) (record {
            text = cut.text (sanitize-IsText raw h);
            safe = cut.safe (sanitize_safe raw);
            capped = cut.size;
          })
      | inr short ↦ rw (clean_short raw short) (record {
        text = sanitize-IsText raw h;
        safe = sanitize_safe raw;
        capped = ltb_no max_text_bytes (size_of (sanitize_for_terminal raw)) short;
      })
    ]
  where
    ltb_no : (a b : ℕ) → ltb a b ≡ false → b ≤ a
    ltb_no a b e = ground arith

-- Cleaning what is clean changes nothing.
pub clean_text_same : (s : Text) → IsClean s → clean_text s ≡ s
clean_text_same s c =
    let same = sanitize_same s c.safe in
    clean_short s (rw same (le→ltb max_text_bytes (size_of s) c.capped)) ∙ same
