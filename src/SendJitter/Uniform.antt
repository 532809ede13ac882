-- ===== src/SendJitter/Uniform.antt =====
-- send_jitter.rs: the range and the distribution of the delay.
use hash_chat.Prelude.{
  ℕ, zero, suc, ◌+◌, ◌*◌, ◌%◌, ◌/◌, ◌≤◌, ◌<◌, ◌≡◌, refl, ◌∙◌, min, true, false, ltb, ◌==◌,
  Bool-cases, inl, inr, arith, lt→ltb, le→ltb,
}
use native.Mathlib.Nat.{
  mod-lt, mod-eq-sub-div-mul, div-mul-le_self, mul-le-mul_right, suc-mul, mul-add-mod_self_right,
  mod-eq_of_lt,
}
use hash_chat.SendJitter.{max_send_jitter_secs, u32_max, span_of, zone_of, draw, delay_from_source}

rest_le : (v max_secs : ℕ) → v % span_of max_secs ≤ max_secs * 1000
rest_le v max_secs = omega (arith, mod-lt v {m = span_of max_secs} (omega arith))

draw_le : (rounds i max_secs : ℕ) (next : ℕ → ℕ) → draw rounds i max_secs next ≤ max_secs * 1000
unfolding draw
draw_le zero i max_secs next = omega arith
draw_le (suc rounds) i max_secs next = elim (Bool-cases (next i == u32_max)) [
  | inl stop ↦ rw stop (omega arith)
  | inr go ↦ elim (Bool-cases (ltb (next i) (zone_of (span_of max_secs)))) [
    | inl taken ↦ rw (go, taken) (rest_le (next i) max_secs)
    | inr again ↦ rw (go, again) (draw_le rounds (i + 1) max_secs next)
  ]
]

delay_le :
    (max_secs : ℕ) (next : ℕ → ℕ)
    → delay_from_source max_secs next ≤ min max_secs max_send_jitter_secs * 1000
unfolding delay_from_source
delay_le max_secs next = ground (arith, draw_le 64 0 (min max_secs max_send_jitter_secs) next)

-- the zone is a whole number of spans
zone_spans : (span : ℕ) → zone_of span ≡ u32_max / span * span
zone_spans span = omega (arith, mod-eq-sub-div-mul u32_max span, div-mul-le_self u32_max span)

in_zone : (span k r : ℕ) → r < span → k < u32_max / span → k * span + r < zone_of span
in_zone span k r lt below =
    let fits : suc k * span ≤ u32_max / span * span = mul-le-mul_right span below in
    omega (arith, zone_spans span, fits, suc-mul k span)

below_max : (span : ℕ) → zone_of span ≤ u32_max
below_max span = omega arith

rest_of : (k span r : ℕ) → r < span → (k * span + r) % span ≡ r
rest_of k span r lt = mul-add-mod_self_right k span r ∙ mod-eq_of_lt lt

draw_first :
    (rounds max_secs r k : ℕ) (next : ℕ → ℕ)
    → r < span_of max_secs
    → k < u32_max / span_of max_secs
    → next 0 ≡ k * span_of max_secs + r
    → draw (suc rounds) 0 max_secs next ≡ r
unfolding draw
draw_first rounds max_secs r k next lt below first =
    let span = span_of max_secs in
    let inside = in_zone span k r lt below in
    let goes : (next 0 == u32_max) ≡ false = ground (arith, first, inside, below_max span) in
    let taken : ltb (next 0) (zone_of span) ≡ true = lt→ltb _ _ (omega (arith, first, inside)) in
    rw (goes, taken, first) (rest_of k span r lt)

delay_first :
    (m : ℕ) (next : ℕ → ℕ)
    → 0 < m
    → m ≤ max_send_jitter_secs
    → delay_from_source m next ≡ draw 64 0 m next
unfolding delay_from_source
delay_first m next pos cap =
    let same : min m max_send_jitter_secs ≡ m = omega arith in
    let some : (m == 0) ≡ false = ground arith in rw (same, some) refl

-- a draw at or above the zone is thrown away
redraw :
    (rounds max_secs : ℕ) (next : ℕ → ℕ)
    → u32_max / span_of max_secs * span_of max_secs ≤ next 0
    → next 0 < u32_max
    → draw (suc rounds) 0 max_secs next ≡ draw rounds 1 max_secs next
unfolding draw
redraw rounds max_secs next high short =
    let zone = zone_spans (span_of max_secs) in
    let goes : (next 0 == u32_max) ≡ false = ground (arith, short) in
    let thrown : ltb (next 0) (zone_of (span_of max_secs)) ≡ false =
      le→ltb _ _ (omega (arith, zone, high)) in
    rw (goes, thrown) refl

-- a draw depends on the source only from its number on
shift :
    (rounds i max_secs : ℕ) (next : ℕ → ℕ)
    → draw rounds (i + 1) max_secs next ≡ draw rounds i max_secs (λ j. next (j + 1))
unfolding draw
shift zero i max_secs next = refl
shift (suc rounds) i max_secs next = rw (shift rounds (i + 1) max_secs next) refl

-- The delay never exceeds the setting, capped at 120 seconds. Within that cap each number of
-- milliseconds up to the setting is the delay for equally many first draws: one in each span of
-- whole spans below the largest draw. Any other first draw but the largest is thrown away: the delay
-- is what the next 63 draws give.
pub delay_lem :
    (max_secs r k : ℕ) (next late : ℕ → ℕ)
    → 0 < max_secs
    → max_secs ≤ max_send_jitter_secs
    → r ≤ max_secs * 1000
    → k < u32_max / (max_secs * 1000 + 1)
    → next 0 ≡ k * (max_secs * 1000 + 1) + r
    → u32_max / (max_secs * 1000 + 1) * (max_secs * 1000 + 1) ≤ late 0
    → late 0 < u32_max
    → (other : ℕ) (source : ℕ → ℕ)
    → (delay_from_source max_secs next ≡ r)
      × (delay_from_source max_secs late ≡ draw 63 0 max_secs (λ i. late (i + 1)))
      × (delay_from_source other source ≤ min other max_send_jitter_secs * 1000)
delay_lem max_secs r k next late pos cap le below first high short other source = (
  delay_first max_secs next pos cap ∙ draw_first 63 max_secs r k next (omega arith) below first,
  delay_first max_secs late pos cap ∙ redraw 63 max_secs late high short ∙ shift 63 0 max_secs late,
  delay_le other source,
)
