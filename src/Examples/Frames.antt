-- ===== src/Examples/Frames.antt =====
-- The wire frames at a hint of two bytes and a ciphertext of three.
use hash_chat.Prelude.{◌≡◌, refl, [], ◌∷◌, ◌++◌, arith, replicate, ok}
use hash_chat.Prelude.Bytes.{Bytes, IsBytes, index, slice, from_be_bytes}
use hash_chat.Wire.{unframe_v2, frame_v3, unframe_v3, FrameV3, truncate_hint}
use hash_chat.Wire.V3.{unframe-frame_v3}

abbrev hint : Bytes
hint = 7 ∷ 8 ∷ []

abbrev dh : Bytes
dh = 9 ∷ replicate 31 0

abbrev ciphertext : Bytes
ciphertext = 1 ∷ 2 ∷ 3 ∷ []

abbrev bytes_v2 : Bytes
bytes_v2 = 2 ∷ 2 ∷ 7 ∷ 8 ∷ 0 ∷ 0 ∷ 1 ∷ 2 ∷ (dh ++ (0 ∷ 0 ∷ 0 ∷ 3 ∷ ciphertext))

abbrev bytes_v3 : Bytes
bytes_v3 = 3 ∷ 2 ∷ 7 ∷ 8 ∷ 0 ∷ 0 ∷ 1 ∷ 2 ∷ 0 ∷ 0 ∷ 1 ∷ 0 ∷ (dh ++ (0 ∷ 0 ∷ 0 ∷ 3 ∷ ciphertext))

abbrev fields : FrameV3
fields = record {
  hint = hint;
  step = 258;
  epoch_start = 256;
  sender_dh = dh;
  ciphertext = ciphertext;
}

reads_v2 : unframe_v2 bytes_v2 ≡ ok (hint, 258, dh, ciphertext)
unfolding unframe_v2 index slice from_be_bytes
reads_v2 = refl

reads_v3 : unframe_v3 bytes_v3 ≡ ok fields
unfolding unframe_v3 index slice from_be_bytes
reads_v3 = refl

bytes_v2-IsBytes : IsBytes bytes_v2
bytes_v2-IsBytes = omega arith

unframe-frame_v3_example :
    unframe_v3 (frame_v3 hint 258 256 dh ciphertext)
    ≡ ok (record {
      hint = truncate_hint hint;
      step = 258;
      epoch_start = 256;
      sender_dh = dh;
      ciphertext = ciphertext;
    })
unframe-frame_v3_example =
    unframe-frame_v3 hint 258 256 dh ciphertext refl (omega arith) (omega arith) (omega arith)
