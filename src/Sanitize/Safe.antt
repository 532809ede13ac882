-- ===== src/Sanitize/Safe.antt =====
-- term_sanitize.rs: what sanitising leaves of a text.
use hash_chat.Prelude.{
  ℕ, suc, ◌≡◌, refl, ap, ◌∙◌, Bool, true, false, ◌||◌, ◌&&◌, All, sym, Option, none, some, [], ◌∷◌,
  arith, length, Bool-cases, ◌⊎◌, ◌≢◌, ◌<◌, inl, inr, if◌then◌else◌, ◌==◌,
}
use hash_chat.Prelude.Utf8.{Text, IsText, IsChar}
use hash_chat.Sanitize.{
  map_char, unwrap_or, is_terminal_safe, replace_all, sanitize_for_terminal, is_control,
  replacement, in_range, is_none,
}

-- a character is kept, or becomes a blank or the replacement character
abbrev Replaces : Option ℕ → Type 0
Replaces o = (o ≡ none) ⊎ ((o ≡ some 32) ⊎ (o ≡ some replacement))

branch : (b : Bool) (x y : Option ℕ) → Replaces x → Replaces y → Replaces (if b then x else y)
branch true x y p q = p
branch false x y p q = q

blanked : (b : Bool) (y : Option ℕ) → Replaces y → Replaces (if b then some 32 else y)
blanked b y = branch b (some 32) y (inr (inl refl))

replaced : (b : Bool) (y : Option ℕ) → Replaces y → Replaces (if b then some replacement else y)
replaced b y = branch b (some replacement) y (inr (inr refl))

map_char-Replaces : (c : ℕ) → Replaces (map_char c)
unfolding map_char
map_char-Replaces c = blanked (c == 9 || c == 10 || c == 13) _ (
    replaced (is_control c) _ (
      replaced (c == 0x200E || c == 0x200F || c == 0x061C) _ (
        replaced (in_range 0x202A 0x202E c || in_range 0x2066 0x2069 c) _ (
          replaced (c == 0x2028 || c == 0x2029) _
            (replaced (in_range 0xFFF9 0xFFFB c) none (inl refl))))))

blank_kept : map_char 32 ≡ none
unfolding map_char is_control
blank_kept = refl

replacement_kept : map_char replacement ≡ none
unfolding map_char is_control
replacement_kept = refl

replaced_kept :
    (c : ℕ) (o : Option ℕ) → map_char c ≡ o → Replaces o → map_char (unwrap_or o c) ≡ none
replaced_kept c o e (inl h) = rw h (e ∙ h)
replaced_kept c o e (inr (inl h)) = rw h blank_kept
replaced_kept c o e (inr (inr h)) = rw h replacement_kept

replace_all_safe : (s : Text) → is_terminal_safe (replace_all s) ≡ true
unfolding is_terminal_safe replace_all
replace_all_safe [] = refl
replace_all_safe (c ∷ s) =
    rw (replaced_kept c (map_char c) refl (map_char-Replaces c)) (replace_all_safe s)

pub sanitize_safe : (s : Text) → is_terminal_safe (sanitize_for_terminal s) ≡ true
unfolding sanitize_for_terminal
sanitize_safe s = ground (arith, replace_all_safe s)

pub sanitize_same : (s : Text) → is_terminal_safe s ≡ true → sanitize_for_terminal s ≡ s
unfolding sanitize_for_terminal
sanitize_same s h = ground (arith, h)

length-replace_all : (s : Text) → length (replace_all s) ≡ length s
unfolding replace_all
length-replace_all [] = refl
length-replace_all (c ∷ s) = ap suc (length-replace_all s)

length-sanitize : (s : Text) → length (sanitize_for_terminal s) ≡ length s
unfolding sanitize_for_terminal
length-sanitize s = ground (arith, length-replace_all s)

-- outside a range
abbrev pub Outside : ℕ → ℕ → ℕ → Type 0
Outside lo hi c = (c < lo) ⊎ (hi < c)

-- no control character, no mark, embedding, override or isolate of a direction, no
-- separator of lines or paragraphs, no annotation
abbrev pub IsHarmless : ℕ → Type 0
IsHarmless c =
    Outside 0 0x1F c
    × Outside 0x7F 0x9F c
    × (c ≢ 0x061C)
    × Outside 0x200E 0x200F c
    × Outside 0x202A 0x202E c
    × Outside 0x2066 0x2069 c
    × Outside 0x2028 0x2029 c
    × Outside 0xFFF9 0xFFFB c

-- a tab, a line feed or a carriage return
abbrev pub IsBreak : ℕ → Type 0
IsBreak c = (c ≡ 9) ⊎ ((c ≡ 10) ⊎ (c ≡ 13))

-- what is shown of a text, character by character
pub data Shows : Text → Text → Type 0 where
  nothing : Shows [] []
  kept : (c : ℕ) {s t : Text} → IsHarmless c → Shows s t → Shows (c ∷ s) (c ∷ t)
  blank : (c : ℕ) {s t : Text} → IsBreak c → Shows s t → Shows (c ∷ s) (32 ∷ t)
  masked :
      (c : ℕ) {s t : Text} → ¬ IsHarmless c → ¬ IsBreak c → Shows s t → Shows (c ∷ s) (0xFFFD ∷ t)

-- the three ways of a character
abbrev Way : ℕ → Option ℕ → Type 0
Way c o =
    ((o ≡ none) × IsHarmless c)
    ⊎ (((o ≡ some 32) × IsBreak c) ⊎ ((o ≡ some replacement) × (¬ IsHarmless c) × (¬ IsBreak c)))

-- one test of `map_char`: it refuses only what is not harmless, and what passes is left to the rest
masks :
    (c : ℕ) (test : Bool) (rest : Option ℕ)
    → ¬ IsBreak c
    → (test ≡ true → ¬ IsHarmless c)
    → (test ≡ false → Way c rest)
    → Way c (if test then some replacement else rest)
masks c true rest no_break bad more = inr (inr (refl, bad refl, no_break))
masks c false rest no_break bad more = more refl

way : (c : ℕ) → Way c (map_char c)
unfolding map_char is_control
way c = elim (Bool-cases (c == 9 || c == 10 || c == 13)) [
  | inl e ↦ rw e (inr (inl (refl, ground (arith, e))))
  | inr n ↦
      let whole : ¬ IsBreak c = λ h. ground (arith, n, h) in
      rw n (
        masks c (is_control c) _ whole (λ e h. ground (arith, e, h))
          (λ e1.
            masks c (c == 0x200E || c == 0x200F || c == 0x061C) _ whole
              (λ e h. ground (arith, e, h))
              (λ e2.
                masks c (in_range 0x202A 0x202E c || in_range 0x2066 0x2069 c) _ whole
                  (λ e h. ground (arith, e, h))
                  (λ e3.
                    masks c (c == 0x2028 || c == 0x2029) _ whole (λ e h. ground (arith, e, h))
                      (λ e4.
                        masks c (in_range 0xFFF9 0xFFFB c) none whole (λ e h. ground (arith, e, h))
                          (λ e5. inl (refl, passed e1 e2 e3 e4 e5)))))))
]
  where
    passed :
        is_control c ≡ false
        → (c == 0x200E || c == 0x200F || c == 0x061C) ≡ false
        → (in_range 0x202A 0x202E c || in_range 0x2066 0x2069 c) ≡ false
        → (c == 0x2028 || c == 0x2029) ≡ false
        → in_range 0xFFF9 0xFFFB c ≡ false
        → IsHarmless c
    passed e1 e2 e3 e4 e5 = (
      ground (arith, e1),
      ground (arith, e1),
      ground (arith, e2),
      ground (arith, e2),
      ground (arith, e3),
      ground (arith, e3),
      ground (arith, e4),
      ground (arith, e5),
    )

replace_all-Shows : (s : Text) → Shows s (replace_all s)
unfolding replace_all
replace_all-Shows [] = nothing
replace_all-Shows (c ∷ s) = elim (way c) [
  | inl (e, fine) ↦ rw e (kept c fine (replace_all-Shows s))
  | inr (inl (e, space)) ↦ rw e (blank c space (replace_all-Shows s))
  | inr (inr (e, bad, whole)) ↦ rw e (masked c bad whole (replace_all-Shows s))
]

safe-Shows : (s : Text) → is_terminal_safe s ≡ true → Shows s s
unfolding is_terminal_safe
safe-Shows [] h = nothing
safe-Shows (c ∷ s) h = elim (way c) [
  | inl (e, fine) ↦ kept c fine (safe-Shows s (ground (arith, h)))
  | inr (inl (e, space)) ↦ cc (ap (λ o. is_none o && is_terminal_safe s) (sym e) ∙ h)
  | inr (inr (e, bad, whole)) ↦ cc (ap (λ o. is_none o && is_terminal_safe s) (sym e) ∙ h)
]

sanitize-Shows : (s : Text) → Shows s (sanitize_for_terminal s)
unfolding sanitize_for_terminal
sanitize-Shows s = elim (Bool-cases (is_terminal_safe s)) [
  | inl e ↦ rw e (safe-Shows s e)
  | inr e ↦ rw e (replace_all-Shows s)
]

Shows-IsHarmless : {s t : Text} → Shows s t → All IsHarmless t
Shows-IsHarmless nothing = tt
Shows-IsHarmless (kept c fine more) = (fine, Shows-IsHarmless more)
Shows-IsHarmless (blank c space more) = (ground arith, Shows-IsHarmless more)
Shows-IsHarmless (masked c bad whole more) = (ground arith, Shows-IsHarmless more)

-- Sanitised text holds no control character, mark, embedding, override or isolate of a writing
-- direction, separator of lines or paragraphs, or annotation. Character by character, the others are
-- kept, a tab or a line break became a blank, and the rest the replacement character; the number of
-- characters is the same, and sanitising again changes nothing.
pub sanitize_lem :
    (s : Text)
    → All IsHarmless (sanitize_for_terminal s)
      × Shows s (sanitize_for_terminal s)
      × (is_terminal_safe (sanitize_for_terminal s) ≡ true)
      × (length (sanitize_for_terminal s) ≡ length s)
      × (sanitize_for_terminal (sanitize_for_terminal s) ≡ sanitize_for_terminal s)
sanitize_lem s = (
  Shows-IsHarmless (sanitize-Shows s),
  sanitize-Shows s,
  sanitize_safe s,
  length-sanitize s,
  sanitize_same (sanitize_for_terminal s) (sanitize_safe s),
)

Replaces-IsChar : (c : ℕ) (o : Option ℕ) → Replaces o → IsChar c → IsChar (unwrap_or o c)
Replaces-IsChar c o (inl h) char = rw h char
Replaces-IsChar c o (inr (inl h)) char = rw h (omega arith, inl (omega arith))
Replaces-IsChar c o (inr (inr h)) char = rw h (omega arith, inr (omega arith))

replace_all-IsText : (s : Text) → IsText s → IsText (replace_all s)
unfolding replace_all
replace_all-IsText [] h = tt
replace_all-IsText (c ∷ s) h =
    (Replaces-IsChar c (map_char c) (map_char-Replaces c) h.0, replace_all-IsText s h.1)

pub sanitize-IsText : (s : Text) → IsText s → IsText (sanitize_for_terminal s)
unfolding sanitize_for_terminal
sanitize-IsText s h = elim (Bool-cases (is_terminal_safe s)) [
  | inl e ↦ rw e h
  | inr e ↦ rw e (replace_all-IsText s h)
]
