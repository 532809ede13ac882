-- ===== src/Ratchet/Frame.antt =====
-- ratchet.rs: the additional data that a frame's header gives, and sealing and opening with a
-- message key.
use hash_chat.Prelude.{
  ℕ, ◌+◌, String, Option, ◌∷◌, ◌++◌, ltb, length, take, drop, Result, ok, ok_or, refuse_if, ◌>>=◌,
  ◌>>◌,
}
use hash_chat.Prelude.Bytes.{Bytes, be32}
use hash_chat.Wire.{wire_version_v3, truncate_hint}
use hash_chat.Ratchet.Crypto.{Crypto}
use hash_chat.Ratchet.State.{ratchet_nonce_len}

unfoldable pub build_wire_aad : ℕ → Bytes → ℕ → Bytes → Bytes
build_wire_aad version hint step sender_dh =
    version ∷ (truncate_hint hint ++ (be32 step ++ sender_dh))

unfoldable pub build_wire_aad_v3 : Bytes → ℕ → ℕ → Bytes → Bytes
build_wire_aad_v3 hint step epoch_start sender_dh =
    wire_version_v3 ∷ (truncate_hint hint ++ (be32 step ++ (be32 epoch_start ++ sender_dh)))

module _ (c : Crypto) where
  -- at the nonce that the generator draws; `none` for a generator that failed
  unfoldable pub encrypt_with_key : Option Bytes → Bytes → Bytes → Bytes → Result String Bytes
  encrypt_with_key drawn key plain aad = do
    nonce ← ok_or drawn "getrandom"
    sealed ← ok_or (c.seal key nonce aad plain) "seal"
    ok (nonce ++ sealed)

  unfoldable pub decrypt_with_key : Bytes → Bytes → Bytes → Result String Bytes
  decrypt_with_key key ct aad = do
    refuse_if (ltb (length ct) (ratchet_nonce_len + 16)) "short"
    ok_or (c.open_sealed key (take ratchet_nonce_len ct) aad (drop ratchet_nonce_len ct)) "open"
