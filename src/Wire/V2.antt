-- ===== src/Wire/V2.antt =====
-- wire.rs, version 2: `frame_v2` and `unframe_v2` against each other.
use hash_chat.Prelude.{
  ℕ, ◌+◌, ◌%◌, ◌^◌, ◌≤◌, ◌<◌, ◌≡◌, ◌≢◌, refl, ap, sym, ◌∙◌, [], ◌∷◌, ◌++◌, arith, String, length,
  drop, length-take, length-drop, ok, panic,
}
use hash_chat.Prelude.Bytes.{
  slice-IsBytes, slice_end-ne-panic, slice-rejoin, slice_end-eq-ok, from_be_bytes-lt, Bytes,
  IsBytes, be32, length-be32, slice, index, At, At-next, slice-At, slice-At_end, slice-eq-ok,
  slice-ne-panic, from_be_bytes, from_be_bytes-be32, be32-from_be_bytes,
}
use hash_chat.Wire.{truncate_hint, frame_v2, unframe_v2, wire_version_v2}

pub truncate_hint-le : (hint : Bytes) → length (truncate_hint hint) ≤ 32
unfolding truncate_hint
truncate_hint-le hint = ground (arith, length-take 32 hint)

pub truncate_hint_short : (hint : Bytes) → length hint ≤ 32 → truncate_hint hint ≡ hint
unfolding truncate_hint
truncate_hint_short hint h = ground arith

module _ (hint : Bytes) (step : ℕ) (sender_dh ciphertext : Bytes) (key_size : length sender_dh ≡ 32)
    (small : length ciphertext < 2 ^ 32) (word : step < 2 ^ 32) where
  abbrev short : Bytes
  short = truncate_hint hint

  abbrev hl : ℕ
  hl = length short

  abbrev size : ℕ
  size = length ciphertext % 2 ^ 32

  abbrev frame : Bytes
  frame =
      wire_version_v2
      ∷ hl % 256
      ∷ (short ++ (be32 step ++ (sender_dh ++ (be32 size ++ ciphertext))))

  At-hint : At frame 2 (short ++ (be32 step ++ (sender_dh ++ (be32 size ++ ciphertext))))
  At-hint = record { within = omega arith; suffix = refl }

  At-step : At frame (2 + hl) (be32 step ++ (sender_dh ++ (be32 size ++ ciphertext)))
  At-step = At-next frame hl short _ At-hint refl

  At-dh : At frame (2 + hl + 4) (sender_dh ++ (be32 size ++ ciphertext))
  At-dh = At-next frame 4 (be32 step) _ At-step (length-be32 step)

  At-len : At frame (2 + hl + 4 + 32) (be32 size ++ ciphertext)
  At-len = At-next frame 32 sender_dh _ At-dh key_size

  At-ct : At frame (2 + hl + 4 + 32 + 4) ciphertext
  At-ct = At-next frame 4 (be32 size) _ At-len (length-be32 size)

  index_version : index {E = String} frame 0 ≡ ok 2
  unfolding index
  index_version = refl

  index-hl : index {E = String} frame 1 ≡ ok hl
  unfolding index
  index-hl = ap ok (omega (arith, truncate_hint-le hint))

  length-frame : length frame ≡ 2 + hl + 4 + 32 + 4 + length ciphertext
  length-frame =
      omega (arith, ap length At-ct.suffix, length-drop (2 + hl + 4 + 32 + 4) frame, At-ct.within)

  -- A version 2 frame with a 32-byte key, a ciphertext of less than 2 ^ 32 bytes and a 32-bit step
  -- is read back, its hint cut to 32 bytes.
  pub unframe-frame_v2 :
      unframe_v2 (frame_v2 hint step sender_dh ciphertext)
      ≡ ok (truncate_hint hint, step, sender_dh, ciphertext)
  unfolding unframe_v2 frame_v2
  unframe-frame_v2 = ground (
    arith,
    truncate_hint-le hint,
    length-frame,
    index_version,
    index-hl,
    slice-At frame hl short _ At-hint refl {E = String},
    slice-At frame 4 (be32 step) _ At-step (length-be32 step) {E = String},
    slice-At frame 32 sender_dh _ At-dh key_size {E = String},
    slice-At frame 4 (be32 size) _ At-len (length-be32 size) {E = String},
    slice-At_end {E = String} frame _ ciphertext At-ct,
    from_be_bytes-be32 step word,
    from_be_bytes-be32 size (omega arith),
  )

-- the reads of an accepted frame
record Reads (bs : Bytes) (hl : ℕ) (hint : Bytes) (step : ℕ) (dh ct : Bytes) : Type 0 where
  version : index {E = String} bs 0 ≡ ok 2
  hint_length : index {E = String} bs 1 ≡ ok hl
  step_bytes : Bytes
  length_bytes : Bytes
  short : hl ≤ 32
  hint_read : slice {E = String} bs 2 (2 + hl) ≡ ok hint
  step_read : slice {E = String} bs (2 + hl) (2 + hl + 4) ≡ ok step_bytes
  dh_read : slice {E = String} bs (2 + hl + 4) (2 + hl + 4 + 32) ≡ ok dh
  length_read : slice {E = String} bs (2 + hl + 4 + 32) (2 + hl + 4 + 32 + 4) ≡ ok length_bytes
  ct_read : slice {E = String} bs (2 + hl + 4 + 32 + 4) (length bs) ≡ ok ct
  step_value : from_be_bytes step_bytes ≡ step
  whole : length bs ≡ 2 + hl + 4 + 32 + 4 + from_be_bytes length_bytes

unframe_v2-Reads :
    (v hl : ℕ) (rest : Bytes) {hint : Bytes} {step : ℕ} {dh ct : Bytes}
    → unframe_v2 (v ∷ hl ∷ rest) ≡ ok (hint, step, dh, ct)
    → Reads (v ∷ hl ∷ rest) hl hint step dh ct
unfolding unframe_v2 index
unframe_v2-Reads v hl rest h = ground arith

Reads-frame :
    (v hl : ℕ) (rest : Bytes) {hint : Bytes} {step : ℕ} {dh ct : Bytes}
    → IsBytes (v ∷ hl ∷ rest)
    → Reads (v ∷ hl ∷ rest) hl hint step dh ct
    → frame_v2 hint step dh ct ≡ v ∷ hl ∷ rest
unfolding frame_v2 index
Reads-frame v hl rest {hint} {step} {dh} {ct} b r =
    let bs : Bytes = v ∷ hl ∷ rest in
    let hint_size = (slice-eq-ok bs 2 hl r.hint_read).2 in
    let step_size = (slice-eq-ok bs (2 + hl) 4 r.step_read).2 in
    let len_size = (slice-eq-ok bs (2 + hl + 4 + 32) 4 r.length_read).2 in
    let len_bytes = slice-IsBytes bs (2 + hl + 4 + 32) 4 b r.length_read in
    let ct_drop = slice_end-eq-ok bs (2 + hl + 4 + 32 + 4) r.ct_read in
    let ct_size : length ct ≡ from_be_bytes r.length_bytes =
      omega (arith, ap length ct_drop, length-drop (2 + hl + 4 + 32 + 4) bs, r.whole) in
    let step_word : be32 step ≡ r.step_bytes =
      ap be32 (sym r.step_value)
      ∙ be32-from_be_bytes r.step_bytes step_size (slice-IsBytes bs (2 + hl) 4 b r.step_read) in
    let len_word : be32 (length ct % 2 ^ 32) ≡ r.length_bytes =
      ap be32 (omega (arith, ct_size, from_be_bytes-lt r.length_bytes len_size len_bytes))
      ∙ be32-from_be_bytes r.length_bytes len_size len_bytes in
    let tail : drop 2 bs ≡ hint ++ (r.step_bytes ++ (dh ++ (r.length_bytes ++ ct))) =
      slice-rejoin bs 2 hl r.hint_read
      ∙ ap (λ t. hint ++ t)
          (slice-rejoin bs (2 + hl) 4 r.step_read
            ∙ ap (λ t. r.step_bytes ++ t)
                (slice-rejoin bs (2 + hl + 4) 32 r.dh_read
                  ∙ ap (λ t. dh ++ t)
                      (slice-rejoin bs (2 + hl + 4 + 32) 4 r.length_read
                        ∙ ap (λ t. r.length_bytes ++ t) ct_drop))) in
    rw
      (
        truncate_hint_short hint (omega (arith, r.short, hint_size)),
        step_word,
        len_word,
        hint_size,
        ← tail,
      )
      (heads r.version)
  where
    heads : index {E = String} (v ∷ hl ∷ rest) 0 ≡ ok 2 → 2 ∷ hl % 256 ∷ rest ≡ v ∷ hl ∷ rest
    heads e = ground (arith, r.short)

short_frame_v2 :
    (bs : Bytes) {r : Bytes × ℕ × Bytes × Bytes} → length bs < 42 → unframe_v2 bs ≢ ok r
unfolding unframe_v2
short_frame_v2 bs lt = ground arith

-- A version 2 frame of bytes that is accepted is, byte for byte, the one that its fields encode.
pub frame-unframe_v2 :
    (bs : Bytes) {hint : Bytes} {step : ℕ} {dh ct : Bytes}
    → IsBytes bs
    → unframe_v2 bs ≡ ok (hint, step, dh, ct)
    → frame_v2 hint step dh ct ≡ bs
frame-unframe_v2 [] b h = absurd (short_frame_v2 [] (omega arith) h)
frame-unframe_v2 (v ∷ []) b h = absurd (short_frame_v2 (v ∷ []) (omega arith) h)
frame-unframe_v2 (v ∷ hl ∷ rest) b h = Reads-frame v hl rest b (unframe_v2-Reads v hl rest h)

long_frame_v2-ne-panic : (v hl : ℕ) (rest : Bytes) → unframe_v2 (v ∷ hl ∷ rest) ≢ panic
unfolding unframe_v2 index
long_frame_v2-ne-panic v hl rest =
    let bs : Bytes = v ∷ hl ∷ rest in
    ground (
      arith,
      slice-ne-panic {E = String} bs 2 hl,
      slice-ne-panic {E = String} bs (2 + hl) 4,
      slice-ne-panic {E = String} bs (2 + hl + 4) 32,
      slice-ne-panic {E = String} bs (2 + hl + 4 + 32) 4,
      slice_end-ne-panic {E = String} bs (2 + hl + 4 + 32 + 4),
    )

-- No input makes the version 2 parser panic: each slice and index is guarded by a length test.
pub unframe_v2-ne-panic : (bs : Bytes) → unframe_v2 bs ≢ panic
unfolding unframe_v2
unframe_v2-ne-panic [] = ground arith
unframe_v2-ne-panic (v ∷ []) = ground arith
unframe_v2-ne-panic (v ∷ hl ∷ rest) = long_frame_v2-ne-panic v hl rest
