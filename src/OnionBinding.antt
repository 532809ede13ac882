-- ===== src/OnionBinding.antt =====
-- src/rust/onion_binding.rs: the key in an onion address, and the signature that binds an identity to it.
use hash_chat.Prelude.{
  ℕ, ◌+◌, ◌-◌, ◌*◌, ◌/◌, ◌%◌, ◌^◌, Bool, true, false, not, ◌&&◌, Option, none, some, [], ◌∷◌, ◌++◌,
  length, take, drop, leb, ◌==◌, if◌then◌else◌,
}
use hash_chat.Prelude.Bytes.{Bytes}
use hash_chat.Prelude.Utf8.{
  Text, as_bytes, from_utf8, chars, same_text, trim, to_ascii_lowercase, is_blank,
}
use hash_chat.Ratchet.Crypto.{ascii}
use hash_chat.Identity.{Signing}

-- The crates sha3 and ed25519-dalek's `hazmat`: an expanded key is 64 bytes.
pub record Hazmat : Type 0 where
  pub sha3_256 : Bytes → Bytes
  -- `VerifyingKey::from(&esk).to_bytes()`
  pub expanded_key : Bytes → Bytes
  -- `raw_sign::<Sha512>(&esk, message, &vk).to_bytes()`
  pub raw_sign : Bytes → Bytes → Bytes
  -- `vk.verify_strict(message, &signature).is_ok()`
  pub verifies_strict : Bytes → Bytes → Bytes → Bool

abbrev pub keep_char : ℕ → Option Text → Option Text
keep_char ch none = none
keep_char ch (some s) = some (ch ∷ s)

-- `str::strip_suffix`
unfoldable pub strip_suffix : Text → Text → Option Text
strip_suffix suffix [] = if is_blank suffix then some [] else none
strip_suffix suffix (ch ∷ s) =
    let rest = strip_suffix suffix s in
    if same_text (ch ∷ s) suffix then some [] else keep_char ch rest

abbrev pub unwrap_or {ℓ} : {A : Type ℓ} → A → Option A → A
unwrap_or d none = d
unwrap_or d (some a) = a

unfoldable pub base32_value : ℕ → Option ℕ
base32_value c =
    if leb 97 c && leb c 122
    then some (c - 97)
    else if leb 50 c && leb c 55
    then some (c - 50 + 26)
    else none

-- the bits that are not yet written are `acc`, and there are `bits` of them
base32_go : ℕ → ℕ → Bytes → Option Bytes
unfolding base32_value
base32_go acc bits [] = some []
base32_go acc bits (c ∷ cs) = elim (base32_value c) [
  | none ↦ none
  | some v ↦
      let more = acc * 32 + v in
      let have = bits + 5 in
      elim (leb 8 have) [
        | true ↦
            keep_char (more / 2 ^ (have - 8) % 256)
              (base32_go (more % 2 ^ (have - 8)) (have - 8) cs)
        | false ↦ base32_go more have cs
      ]
]

unfoldable pub base32_decode : Text → Option Bytes
unfolding base32_go
base32_decode s = base32_go 0 0 (as_bytes s)

unfoldable pub base64_value : ℕ → Option ℕ
base64_value c =
    if leb 65 c && leb c 90
    then some (c - 65)
    else if leb 97 c && leb c 122
    then some (c - 97 + 26)
    else if leb 48 c && leb c 57
    then some (c - 48 + 52)
    else if c == 43
    then some 62
    else if c == 47
    then some 63
    else none

base64_go : ℕ → ℕ → Bytes → Option Bytes
unfolding base64_value
base64_go acc bits [] = some []
base64_go acc bits (c ∷ cs) = elim (base64_value c) [
  | none ↦ none
  | some v ↦
      let more = acc * 64 + v in
      let have = bits + 6 in
      elim (leb 8 have) [
        | true ↦
            keep_char (more / 2 ^ (have - 8) % 256)
              (base64_go (more % 2 ^ (have - 8)) (have - 8) cs)
        | false ↦ base64_go more have cs
      ]
]

-- `trim_end_matches('=')`
unfoldable pub trim_equals : Text → Text
trim_equals [] = []
trim_equals (ch ∷ s) =
    let rest = trim_equals s in if ch == 61 && is_blank rest then [] else ch ∷ rest

unfoldable pub base64_decode : Text → Option Bytes
unfolding base64_go trim_equals
base64_decode s = base64_go 0 0 (as_bytes (trim_equals s))

module _ (h : Hazmat) where
  unfoldable pub v3_checksum : Bytes → Bytes
  unfolding ascii
  v3_checksum pubkey = take 2 (h.sha3_256 (ascii ".onion checksum" ++ (pubkey ++ 3 ∷ [])))

  -- the key of 35 bytes that end with the checksum and the version
  unfoldable key_of : Bytes → Option Bytes
  unfolding v3_checksum
  key_of raw =
      let key = take 32 raw in
      if not (length raw == 35)
      then none
      else if not (same_text (drop 34 raw) (3 ∷ []))
      then none
      else if not (same_text (take 2 (drop 32 raw)) (v3_checksum key))
      then none
      else some key

  unfoldable checked : Option Bytes → Option Bytes
  unfolding key_of
  checked none = none
  checked (some raw) = key_of raw

  unfoldable pub onion_public_key : Text → Option Bytes
  unfolding checked strip_suffix chars
  onion_public_key onion =
      let lower = to_ascii_lowercase (trim onion) in
      let host = unwrap_or lower (strip_suffix (chars ".onion") lower) in
      if not (length (as_bytes host) == 56) then none else checked (base32_decode host)

unfoldable pub binding_message : Bytes → Bytes → Bytes → Bytes
unfolding ascii
binding_message onion_key ed25519 x25519 =
    ascii "HashChat-onion-binding-v1" ++ (onion_key ++ (ed25519 ++ x25519))

-- `str::strip_prefix`
unfoldable pub strip_prefix : Text → Text → Option Text
strip_prefix [] s = some s
strip_prefix (p ∷ ps) [] = none
strip_prefix (p ∷ ps) (x ∷ xs) = let rest = strip_prefix ps xs in if p == x then rest else none

module _ (h : Hazmat) (g : Signing) where
  -- the expanded key in `ED25519-V3:<base64>`
  unfoldable pub expanded_of : Bytes → Option Bytes
  unfolding strip_prefix chars
  expanded_of spec = elim (from_utf8 spec) [
    | none ↦ none
    | some s ↦ elim (strip_prefix (chars "ED25519-V3:") (trim s)) [
      | none ↦ none
      | some b64 ↦ elim (base64_decode b64) [
        | none ↦ none
        | some raw ↦ if length raw == 64 then some raw else none
      ]
    ]
  ]

  -- the signature, and the public key it is by
  unfoldable pub sign_binding : Bytes → Bytes → Bytes → Option (Bytes × Bytes)
  unfolding expanded_of binding_message
  sign_binding onion_key_spec ed25519 x25519 = elim (expanded_of onion_key_spec) [
    | none ↦ none
    | some esk ↦
        let pk = h.expanded_key esk in some (h.raw_sign esk (binding_message pk ed25519 x25519), pk)
  ]

  unfoldable pub verify_binding : Text → Bytes → Bytes → Bytes → Bool
  unfolding onion_public_key binding_message
  verify_binding onion ed25519 x25519 sig = elim (onion_public_key h onion) [
    | none ↦ false
    | some pk ↦
        if g.is_key pk then h.verifies_strict pk (binding_message pk ed25519 x25519) sig else false
  ]
