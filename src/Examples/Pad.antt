-- ===== src/Examples/Pad.antt =====
-- Padding, and the size of a frame, at a message of four bytes.
use hash_chat.Prelude.{
  ℕ, zero, suc, ◌≤◌, ◌<◌, ◌+◌, ◌≡◌, ◌≢◌, refl, true, [], ◌∷◌, ◌++◌, arith, length, replicate,
  length-replicate, ok, panic, All, All-append,
}
use hash_chat.Prelude.Bytes.{Bytes, IsBytes}
use hash_chat.Padding.{size_classes, contains, pad, unpad, class_for, copy_at, any_nonzero}
use hash_chat.Wire.{check_plaintext_send_size, frame_v3, max_framed_v3_bytes}
use hash_chat.Wire.Size.{max_hs_inbound_frame, sent_frame_fits}
use hash_chat.Padding.Layout.{pad_least}
use hash_chat.Padding.RoundTrip.{unpad-pad}

abbrev message : Bytes
message = 104 ∷ 97 ∷ 115 ∷ 104 ∷ []

abbrev padded : Bytes
padded = 0 ∷ 4 ∷ (message ++ replicate 506 0)

pads : pad message ≡ ok padded
unfolding pad class_for copy_at hash_chat.Prelude.Bytes.be16
pads = refl

unpads : unpad padded ≡ ok message
unfolding unpad contains any_nonzero class_for hash_chat.Prelude.Bytes.index
    hash_chat.Prelude.Bytes.slice hash_chat.Prelude.Bytes.from_be_bytes
unpads = refl

in_classes : contains size_classes 1024 ≡ true
unfolding contains
in_classes = refl

unpad-pad_example : unpad padded ≡ ok message
unpad-pad_example = unpad-pad message pads

pad_least_example :
    (out : Bytes) × (pad message ≡ ok out)
    × (contains size_classes (length out) ≡ true)
    × (length message + 2 ≤ length out)
    × (length out ≤ 1024)
pad_least_example = pad_least message 1024 (omega arith) in_classes (omega arith)

gate : check_plaintext_send_size message ≡ ok tt
unfolding check_plaintext_send_size
gate = refl

sent_frame_fits_example :
    let frame = frame_v3 (7 ∷ []) 5 5 (replicate 32 9) (replicate 540 1) in
    (length frame ≤ max_framed_v3_bytes) × (length frame ≤ max_hs_inbound_frame)
sent_frame_fits_example =
    sent_frame_fits message padded (replicate 540 1) (7 ∷ []) 5 5 (replicate 32 9) gate pads refl
      refl
