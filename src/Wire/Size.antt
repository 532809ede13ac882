-- ===== src/Wire/Size.antt =====
-- wire.rs: the size of an outgoing frame.
use hash_chat.Prelude.{ℕ, ◌+◌, ◌*◌, ◌≤◌, ◌≡◌, ◌%◌, ◌^◌, ok, length, length-append, arith, ◌++◌}
use hash_chat.Prelude.Bytes.{Bytes, be32, length-be32}
use hash_chat.Padding.{pad}
use hash_chat.Padding.Layout.{pad-eq-ok_small}
use hash_chat.Wire.{
  check_plaintext_send_size, frame_v3, truncate_hint, max_framed_v3_bytes, aead_ciphertext_overhead,
}
use hash_chat.Wire.V2.{truncate_hint-le}

-- hidden_service.rs
abbrev pub max_hs_inbound_frame : ℕ
max_hs_inbound_frame = 16 * 1024

length-frame_v3 :
    (hint : Bytes) (step epoch : ℕ) (dh ct : Bytes)
    → length dh ≡ 32
    → length (frame_v3 hint step epoch dh ct) ≡ length (truncate_hint hint) + 46 + length ct
unfolding frame_v3
length-frame_v3 hint step epoch dh ct k =
    let n = be32 (length ct % 2 ^ 32) in
    omega (
      arith,
      length-append (truncate_hint hint) (be32 step ++ (be32 epoch ++ (dh ++ (n ++ ct)))),
      length-append (be32 step) (be32 epoch ++ (dh ++ (n ++ ct))),
      length-append (be32 epoch) (dh ++ (n ++ ct)),
      length-append dh (n ++ ct),
      length-append n ct,
      length-be32 step,
      length-be32 epoch,
      length-be32 (length ct % 2 ^ 32),
    )

passes_gate : (plain : Bytes) → check_plaintext_send_size plain ≡ ok tt → length plain ≤ 8192
unfolding check_plaintext_send_size
passes_gate plain h = ground arith

-- A text that passes the size gate, padded, sealed with the overhead of AES-GCM and framed with a
-- 32-byte key, makes a frame of at most `max_framed_v3_bytes`, which is within the transport's
-- limit.
pub sent_frame_fits :
    (plain padded sealed hint : Bytes) (step epoch : ℕ) (dh : Bytes)
    → check_plaintext_send_size plain ≡ ok tt
    → pad plain ≡ ok padded
    → length sealed ≡ length padded + aead_ciphertext_overhead
    → length dh ≡ 32
    → (length (frame_v3 hint step epoch dh sealed) ≤ max_framed_v3_bytes)
      × (length (frame_v3 hint step epoch dh sealed) ≤ max_hs_inbound_frame)
sent_frame_fits plain padded sealed hint step epoch dh gate run size k =
    let small = pad-eq-ok_small plain (omega (arith, passes_gate plain gate)) run in
    omega (arith, length-frame_v3 hint step epoch dh sealed k, truncate_hint-le hint, small, size)
