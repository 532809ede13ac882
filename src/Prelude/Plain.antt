-- ===== src/Prelude/Plain.antt =====
-- Printable ASCII: what `trim` leaves alone, and `str::split('/')` between such texts.
use Prim.Native.Nat.{ℕ, ◌≤◌, ◌<◌}
use mathlib.Core.Path.{◌≡◌, refl, ap, ◌∙◌}
use mathlib.Core.Bool.{false}
use mathlib.Core.List.{[], ◌∷◌}
use native.Mathlib.Omega.{arith}
use hash_chat.Prelude.Lists.{All}
use hash_chat.Prelude.Utf8.{Text, as_bytes, encode_char, trim, trim_start, trim_end, is_whitespace}

abbrev pub IsPlain : ℕ → Type 0
IsPlain ch = (33 ≤ ch) × (ch < 127)

no_space : (ch : ℕ) → IsPlain ch → is_whitespace ch ≡ false
unfolding is_whitespace
no_space ch h = ground arith

pub trim_plain : (t : Text) → All IsPlain t → trim t ≡ t
unfolding trim trim_start trim_end
trim_plain t h = ap trim_end (start t h) ∙ end t h
  where
    start : (u : Text) → All IsPlain u → trim_start u ≡ u
    start [] k = refl
    start (ch ∷ u) k = rw (no_space ch k.0) refl

    end : (u : Text) → All IsPlain u → trim_end u ≡ u
    end [] k = refl
    end (ch ∷ u) k = rw (no_space ch k.0) (ap (λ r. ch ∷ r) (end u k.1))

pub as_bytes-plain : (t : Text) → All IsPlain t → as_bytes t ≡ t
unfolding as_bytes encode_char
as_bytes-plain [] h = refl
as_bytes-plain (ch ∷ t) h = ground (arith, as_bytes-plain t h.1, h.0)
