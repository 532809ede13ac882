-- ===== src/Wire.antt =====
-- src/rust/wire.rs: wire frames of versions 2 and 3, and the size gate on outgoing plaintext.
pub mod V2
pub mod V3
pub mod Size
use hash_chat.Prelude.{
  ℕ, ◌+◌, ◌*◌, ◌%◌, ◌^◌, String, Bool, true, false, not, Option, none, some, List, [], ◌∷◌, ◌++◌,
  ltb, leb, ◌==◌, if◌then◌else◌, length, take, Result, ok, err, panic, refuse_if, ◌>>=◌, ◌>>◌,
}
use hash_chat.Prelude.Bytes.{Bytes, be32, from_be_bytes, slice, index}

abbrev pub wire_version_v2 : ℕ
wire_version_v2 = 2

abbrev pub wire_version_v3 : ℕ
wire_version_v3 = 3

-- nonce and tag around an AES-256-GCM ciphertext
abbrev pub aead_ciphertext_overhead : ℕ
aead_ciphertext_overhead = 12 + 16

abbrev pub wire_v2_header_max : ℕ
wire_v2_header_max = 1 + 1 + 32 + 4 + 32 + 4

abbrev pub max_plaintext_send_bytes : ℕ
max_plaintext_send_bytes = 8 * 1024

abbrev pub max_framed_send_bytes : ℕ
max_framed_send_bytes = max_plaintext_send_bytes + aead_ciphertext_overhead + wire_v2_header_max

abbrev pub max_framed_v3_bytes : ℕ
max_framed_v3_bytes = 1 + 1 + 32 + 4 + 4 + 32 + 4 + 8448 + aead_ciphertext_overhead

unfoldable pub check_plaintext_send_size : Bytes → Result String (Unit {0})
check_plaintext_send_size plain =
    if ltb max_plaintext_send_bytes (length plain)
    then err "plaintext exceeds max send size"
    else ok tt

-- `if hint.len() > 32 { &hint[..32] } else { hint }`
unfoldable pub truncate_hint : Bytes → Bytes
truncate_hint hint = if ltb 32 (length hint) then take 32 hint else hint

unfoldable pub frame_v2 : Bytes → ℕ → Bytes → Bytes → Bytes
frame_v2 hint step sender_dh ciphertext =
    let short = truncate_hint hint in
    wire_version_v2
    ∷ length short % 256
    ∷ (short ++ (be32 step ++ (sender_dh ++ (be32 (length ciphertext % 2 ^ 32) ++ ciphertext))))

unfoldable pub unframe_v2 : Bytes → Result String (Bytes × ℕ × Bytes × Bytes)
unframe_v2 bs = do
  refuse_if (ltb (length bs) (2 + 4 + 32 + 4)) "frame too short"
  version ← index bs 0
  refuse_if (not (version == wire_version_v2)) "unsupported wire version"
  hl ← index bs 1
  refuse_if (ltb 32 hl) "hint too long"
  refuse_if (ltb (length bs) (2 + hl + 4 + 32 + 4)) "frame truncated"
  hint ← slice bs 2 (2 + hl)
  step ← slice bs (2 + hl) (2 + hl + 4)
  dh ← slice bs (2 + hl + 4) (2 + hl + 4 + 32)
  cl ← slice bs (2 + hl + 4 + 32) (2 + hl + 4 + 32 + 4)
  refuse_if (not (length bs == 2 + hl + 4 + 32 + 4 + from_be_bytes cl)) "ciphertext length mismatch"
  ct ← slice bs (2 + hl + 4 + 32 + 4) (length bs)
  ok (hint, from_be_bytes step, dh, ct)

pub record FrameV3 : Type 0 where
  pub hint : Bytes
  pub step : ℕ
  pub epoch_start : ℕ
  pub sender_dh : Bytes
  pub ciphertext : Bytes

unfoldable pub frame_v3 : Bytes → ℕ → ℕ → Bytes → Bytes → Bytes
frame_v3 hint step epoch_start sender_dh ciphertext =
    let short = truncate_hint hint in
    wire_version_v3
    ∷ length short % 256
    ∷ (short
        ++ (be32 step
            ++ (be32 epoch_start
                ++ (sender_dh ++ (be32 (length ciphertext % 2 ^ 32) ++ ciphertext)))))

unfoldable pub unframe_v3 : Bytes → Result String FrameV3
unframe_v3 bs = do
  refuse_if (ltb (length bs) (2 + 8 + 32 + 4)) "frame too short"
  version ← index bs 0
  refuse_if (not (version == wire_version_v3)) "unsupported wire version"
  hl ← index bs 1
  refuse_if (ltb 32 hl) "hint too long"
  refuse_if (ltb (length bs) (2 + hl + 8 + 32 + 4)) "frame truncated"
  hint ← slice bs 2 (2 + hl)
  step ← slice bs (2 + hl) (2 + hl + 4)
  epoch ← slice bs (2 + hl + 4) (2 + hl + 4 + 4)
  refuse_if (ltb (from_be_bytes step) (from_be_bytes epoch)) "epoch after step"
  dh ← slice bs (2 + hl + 4 + 4) (2 + hl + 4 + 4 + 32)
  cl ← slice bs (2 + hl + 4 + 4 + 32) (2 + hl + 4 + 4 + 32 + 4)
  refuse_if (not (length bs == 2 + hl + 4 + 4 + 32 + 4 + from_be_bytes cl))
      "ciphertext length mismatch"
  ct ← slice bs (2 + hl + 4 + 4 + 32 + 4) (length bs)
  ok (record {
    hint = hint;
    step = from_be_bytes step;
    epoch_start = from_be_bytes epoch;
    sender_dh = dh;
    ciphertext = ct;
  })

-- the sealed-sender frame: the hint is empty
unfoldable pub frame_v3_sealed : ℕ → ℕ → Bytes → Bytes → Bytes
unfolding frame_v3
frame_v3_sealed step epoch_start sender_dh ciphertext =
    frame_v3 [] step epoch_start sender_dh ciphertext

unfoldable pub is_sealed_hint : Bytes → Bool
is_sealed_hint [] = true
is_sealed_hint (b ∷ bs) = false
