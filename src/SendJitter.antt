-- ===== src/SendJitter.antt =====
-- src/rust/send_jitter.rs: the random delay before a frame is handed over, in milliseconds.
pub mod Uniform
use hash_chat.Prelude.{
  ℕ, zero, suc, ◌+◌, ◌-◌, ◌*◌, ◌%◌, ◌^◌, min, Bool, true, false, ltb, ◌==◌, if◌then◌else◌,
}

abbrev pub max_send_jitter_secs : ℕ
max_send_jitter_secs = 120

abbrev pub u32_max : ℕ
u32_max = 2 ^ 32 - 1

-- the values below the zone are taken, by their rest modulo the span
abbrev pub span_of : ℕ → ℕ
span_of max_secs = max_secs * 1000 + 1

abbrev pub zone_of : ℕ → ℕ
zone_of span = u32_max - u32_max % span

-- `for _ in 0..64`, with the rounds that are left; the source's draws are numbered from `i`
unfoldable pub draw : ℕ → ℕ → ℕ → (ℕ → ℕ) → ℕ
draw zero i max_secs next = max_secs * 1000
draw (suc rounds) i max_secs next =
    let rest = draw rounds (i + 1) max_secs next in
    if next i == u32_max
    then max_secs * 1000
    else if ltb (next i) (zone_of (span_of max_secs))
    then next i % span_of max_secs
    else rest

unfoldable pub delay_from_source : ℕ → (ℕ → ℕ) → ℕ
unfolding draw
delay_from_source max_secs next =
    let capped = min max_secs max_send_jitter_secs in
    if capped == 0 then 0 else draw 64 0 capped next
