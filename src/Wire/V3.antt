-- ===== src/Wire/V3.antt =====
-- wire.rs, version 3: `frame_v3` and `unframe_v3` against each other.
use hash_chat.Prelude.{
  ℕ, ◌+◌, ◌%◌, ◌^◌, ◌≤◌, ◌<◌, ◌≡◌, ◌≢◌, refl, ap, sym, ◌∙◌, [], ◌∷◌, ◌++◌, arith, String, length,
  drop, length-drop, ok, panic,
}
use hash_chat.Prelude.Bytes.{
  slice-IsBytes, slice_end-ne-panic, slice-rejoin, slice_end-eq-ok, from_be_bytes-lt, Bytes,
  IsBytes, be32, length-be32, slice, index, At, At-next, slice-At, slice-At_end, slice-eq-ok,
  slice-ne-panic, from_be_bytes, from_be_bytes-be32, be32-from_be_bytes,
}
use hash_chat.Wire.V2.{truncate_hint-le, truncate_hint_short}
use hash_chat.Wire.{FrameV3, truncate_hint, frame_v3, unframe_v3, wire_version_v3}

module _ (hint : Bytes) (step epoch : ℕ) (sender_dh ciphertext : Bytes)
    (key_size : length sender_dh ≡ 32) (small : length ciphertext < 2 ^ 32) (word : step < 2 ^ 32)
    (order : epoch ≤ step) where
  abbrev short : Bytes
  short = truncate_hint hint

  abbrev hl : ℕ
  hl = length short

  abbrev size : ℕ
  size = length ciphertext % 2 ^ 32

  abbrev frame : Bytes
  frame =
      wire_version_v3
      ∷ hl % 256
      ∷ (short ++ (be32 step ++ (be32 epoch ++ (sender_dh ++ (be32 size ++ ciphertext)))))

  At-hint :
      At frame 2 (short ++ (be32 step ++ (be32 epoch ++ (sender_dh ++ (be32 size ++ ciphertext)))))
  At-hint = record { within = omega arith; suffix = refl }

  At-step :
      At frame (2 + hl) (be32 step ++ (be32 epoch ++ (sender_dh ++ (be32 size ++ ciphertext))))
  At-step = At-next frame hl short _ At-hint refl

  At-epoch : At frame (2 + hl + 4) (be32 epoch ++ (sender_dh ++ (be32 size ++ ciphertext)))
  At-epoch = At-next frame 4 (be32 step) _ At-step (length-be32 step)

  At-dh : At frame (2 + hl + 4 + 4) (sender_dh ++ (be32 size ++ ciphertext))
  At-dh = At-next frame 4 (be32 epoch) _ At-epoch (length-be32 epoch)

  At-len : At frame (2 + hl + 4 + 4 + 32) (be32 size ++ ciphertext)
  At-len = At-next frame 32 sender_dh _ At-dh key_size

  At-ct : At frame (2 + hl + 4 + 4 + 32 + 4) ciphertext
  At-ct = At-next frame 4 (be32 size) _ At-len (length-be32 size)

  index_version : index {E = String} frame 0 ≡ ok 3
  unfolding index
  index_version = refl

  index-hl : index {E = String} frame 1 ≡ ok hl
  unfolding index
  index-hl = ap ok (omega (arith, truncate_hint-le hint))

  length-frame : length frame ≡ 2 + hl + 4 + 4 + 32 + 4 + length ciphertext
  length-frame =
      omega
        (arith, ap length At-ct.suffix, length-drop (2 + hl + 4 + 4 + 32 + 4) frame, At-ct.within)

  -- A version 3 frame with a 32-byte key, a ciphertext of less than 2 ^ 32 bytes, a 32-bit step
  -- and an epoch that does not start after the step is read back, its hint cut to 32 bytes.
  pub unframe-frame_v3 :
      unframe_v3 (frame_v3 hint step epoch sender_dh ciphertext)
      ≡ ok (record {
        hint = truncate_hint hint;
        step = step;
        epoch_start = epoch;
        sender_dh = sender_dh;
        ciphertext = ciphertext;
      })
  unfolding unframe_v3 frame_v3
  unframe-frame_v3 = ground (
    arith,
    truncate_hint-le hint,
    length-frame,
    index_version,
    index-hl,
    slice-At frame hl short _ At-hint refl {E = String},
    slice-At frame 4 (be32 step) _ At-step (length-be32 step) {E = String},
    slice-At frame 4 (be32 epoch) _ At-epoch (length-be32 epoch) {E = String},
    slice-At frame 32 sender_dh _ At-dh key_size {E = String},
    slice-At frame 4 (be32 size) _ At-len (length-be32 size) {E = String},
    slice-At_end {E = String} frame _ ciphertext At-ct,
    from_be_bytes-be32 step word,
    from_be_bytes-be32 epoch (omega arith),
    from_be_bytes-be32 size (omega arith),
  )

-- the reads of an accepted frame
record Reads (bs : Bytes) (hl : ℕ) (f : FrameV3) : Type 0 where
  version : index {E = String} bs 0 ≡ ok 3
  step_bytes : Bytes
  epoch_bytes : Bytes
  length_bytes : Bytes
  short : hl ≤ 32
  hint_read : slice {E = String} bs 2 (2 + hl) ≡ ok f.hint
  step_read : slice {E = String} bs (2 + hl) (2 + hl + 4) ≡ ok step_bytes
  epoch_read : slice {E = String} bs (2 + hl + 4) (2 + hl + 4 + 4) ≡ ok epoch_bytes
  dh_read : slice {E = String} bs (2 + hl + 4 + 4) (2 + hl + 4 + 4 + 32) ≡ ok f.sender_dh
  length_read :
      slice {E = String} bs (2 + hl + 4 + 4 + 32) (2 + hl + 4 + 4 + 32 + 4) ≡ ok length_bytes
  ct_read : slice {E = String} bs (2 + hl + 4 + 4 + 32 + 4) (length bs) ≡ ok f.ciphertext
  step_value : from_be_bytes step_bytes ≡ f.step
  epoch_value : from_be_bytes epoch_bytes ≡ f.epoch_start
  ordered : f.epoch_start ≤ f.step
  whole : length bs ≡ 2 + hl + 4 + 4 + 32 + 4 + from_be_bytes length_bytes

unframe_v3-Reads :
    (v hl : ℕ) (rest : Bytes) {f : FrameV3}
    → unframe_v3 (v ∷ hl ∷ rest) ≡ ok f
    → Reads (v ∷ hl ∷ rest) hl f
unfolding unframe_v3 index
unframe_v3-Reads v hl rest h = ground arith

-- the frame that the fields encode
abbrev pub encode : FrameV3 → Bytes
encode f = frame_v3 f.hint f.step f.epoch_start f.sender_dh f.ciphertext

module _ (v hl : ℕ) (rest : Bytes) (f : FrameV3) (b : IsBytes (v ∷ hl ∷ rest))
    (r : Reads (v ∷ hl ∷ rest) hl f) where
  abbrev bs : Bytes
  bs = v ∷ hl ∷ rest

  hint_size : length f.hint ≡ hl
  hint_size = (slice-eq-ok bs 2 hl r.hint_read).2

  step_word : be32 f.step ≡ r.step_bytes
  step_word =
      ap be32 (sym r.step_value)
      ∙ be32-from_be_bytes r.step_bytes (slice-eq-ok bs (2 + hl) 4 r.step_read).2
          (slice-IsBytes bs (2 + hl) 4 b r.step_read)

  epoch_word : be32 f.epoch_start ≡ r.epoch_bytes
  epoch_word =
      ap be32 (sym r.epoch_value)
      ∙ be32-from_be_bytes r.epoch_bytes (slice-eq-ok bs (2 + hl + 4) 4 r.epoch_read).2
          (slice-IsBytes bs (2 + hl + 4) 4 b r.epoch_read)

  ct_drop : drop (2 + hl + 4 + 4 + 32 + 4) bs ≡ f.ciphertext
  ct_drop = slice_end-eq-ok bs (2 + hl + 4 + 4 + 32 + 4) r.ct_read

  len_word : be32 (length f.ciphertext % 2 ^ 32) ≡ r.length_bytes
  len_word =
      let len_size = (slice-eq-ok bs (2 + hl + 4 + 4 + 32) 4 r.length_read).2 in
      let len_bytes = slice-IsBytes bs (2 + hl + 4 + 4 + 32) 4 b r.length_read in
      ap be32 (
        omega (
          arith,
          ap length ct_drop,
          length-drop (2 + hl + 4 + 4 + 32 + 4) bs,
          r.whole,
          from_be_bytes-lt r.length_bytes len_size len_bytes,
        ))
      ∙ be32-from_be_bytes r.length_bytes len_size len_bytes

  tail :
      drop 2 bs
      ≡ f.hint
        ++ (r.step_bytes ++ (r.epoch_bytes ++ (f.sender_dh ++ (r.length_bytes ++ f.ciphertext))))
  tail =
      slice-rejoin bs 2 hl r.hint_read
      ∙ ap (λ t. f.hint ++ t)
          (slice-rejoin bs (2 + hl) 4 r.step_read
            ∙ ap (λ t. r.step_bytes ++ t)
                (slice-rejoin bs (2 + hl + 4) 4 r.epoch_read
                  ∙ ap (λ t. r.epoch_bytes ++ t)
                      (slice-rejoin bs (2 + hl + 4 + 4) 32 r.dh_read
                        ∙ ap (λ t. f.sender_dh ++ t)
                            (slice-rejoin bs (2 + hl + 4 + 4 + 32) 4 r.length_read
                              ∙ ap (λ t. r.length_bytes ++ t) ct_drop))))

  heads : 3 ∷ hl % 256 ∷ rest ≡ v ∷ hl ∷ rest
  unfolding index
  heads = ground (arith, r.version, r.short)

  Reads-frame : encode f ≡ v ∷ hl ∷ rest
  unfolding frame_v3
  Reads-frame =
      rw
        (
          truncate_hint_short f.hint (omega (arith, r.short, hint_size)),
          step_word,
          epoch_word,
          len_word,
          hint_size,
          ← tail,
        )
        heads

short_frame_v3 : (bs : Bytes) {f : FrameV3} → length bs < 46 → unframe_v3 bs ≢ ok f
unfolding unframe_v3
short_frame_v3 bs lt = ground arith

-- A version 3 frame of bytes that is accepted is, byte for byte, the one that its fields encode,
-- and its epoch does not start after its step.
pub frame-unframe_v3 :
    (bs : Bytes) {f : FrameV3}
    → IsBytes bs
    → unframe_v3 bs ≡ ok f
    → (encode f ≡ bs) × (f.epoch_start ≤ f.step)
frame-unframe_v3 [] b h = absurd (short_frame_v3 [] (omega arith) h)
frame-unframe_v3 (v ∷ []) b h = absurd (short_frame_v3 (v ∷ []) (omega arith) h)
frame-unframe_v3 (v ∷ hl ∷ rest) {f} b h =
    let r = unframe_v3-Reads v hl rest h in (Reads-frame v hl rest f b r, r.ordered)

long_frame_v3-ne-panic : (v hl : ℕ) (rest : Bytes) → unframe_v3 (v ∷ hl ∷ rest) ≢ panic
unfolding unframe_v3 index
long_frame_v3-ne-panic v hl rest =
    let bs : Bytes = v ∷ hl ∷ rest in
    ground (
      arith,
      slice-ne-panic {E = String} bs 2 hl,
      slice-ne-panic {E = String} bs (2 + hl) 4,
      slice-ne-panic {E = String} bs (2 + hl + 4) 4,
      slice-ne-panic {E = String} bs (2 + hl + 4 + 4) 32,
      slice-ne-panic {E = String} bs (2 + hl + 4 + 4 + 32) 4,
      slice_end-ne-panic {E = String} bs (2 + hl + 4 + 4 + 32 + 4),
    )

-- No input makes the version 3 parser panic: each slice and index is guarded by a length test.
pub unframe_v3-ne-panic : (bs : Bytes) → unframe_v3 bs ≢ panic
unfolding unframe_v3
unframe_v3-ne-panic [] = ground arith
unframe_v3-ne-panic (v ∷ []) = ground arith
unframe_v3-ne-panic (v ∷ hl ∷ rest) = long_frame_v3-ne-panic v hl rest
