-- ===== src/Ratchet/Crypto.antt =====
-- The cryptographic crates that ratchet.rs calls (hkdf, x25519-dalek, ring): their operations as a
-- record, and the documented behaviour that the code relies on as another. Keys are byte strings.
use Prim.Native.Char.{code}
use Prim.Native.String.{String}
use hash_chat.Prelude.{◌+◌, ◌≡◌, Bool, true, Option, some, [], ◌∷◌, length}
use hash_chat.Prelude.Bytes.{Bytes}

pub record Crypto : Type 0 where
  -- `Hkdf::<Sha256>::new(salt, ikm).expand(info, 32 bytes)`
  pub expand : Option Bytes → Bytes → Bytes → Bytes
  -- `PublicKey::from(&secret)`
  pub public_of : Bytes → Bytes
  -- `secret.diffie_hellman(&public)`
  pub diffie_hellman : Bytes → Bytes → Bytes
  -- `shared.was_contributory()`
  pub was_contributory : Bytes → Bool
  -- `==` of two public keys
  pub same_key : Bytes → Bytes → Bool
  -- AES-256-GCM at a key, a nonce, the additional data and the text; the tag is appended
  pub seal : Bytes → Bytes → Bytes → Bytes → Option Bytes
  pub open_sealed : Bytes → Bytes → Bytes → Bytes → Option Bytes

pub record IsLawful (c : Crypto) : Type 0 where
  pub length-expand :
      (salt : Option Bytes) (ikm info : Bytes) → length (c.expand salt ikm info) ≡ 32
  pub length-public_of : (secret : Bytes) → length (c.public_of secret) ≡ 32
  pub agreement :
      (a b : Bytes) → c.diffie_hellman a (c.public_of b) ≡ c.diffie_hellman b (c.public_of a)
  pub same_key_refl : (k : Bytes) → c.same_key k k ≡ true
  pub open-seal :
      (key nonce aad plain : Bytes) {sealed : Bytes}
      → c.seal key nonce aad plain ≡ some sealed
      → c.open_sealed key nonce aad sealed ≡ some plain
  pub length-seal :
      (key nonce aad plain : Bytes) {sealed : Bytes}
      → c.seal key nonce aad plain ≡ some sealed
      → length sealed ≡ length plain + 16

-- the bytes of an ASCII literal, `b"…"`
unfoldable pub ascii : String → Bytes
ascii String.[] = []
ascii (String.◌∷◌ ch s) = code ch ∷ ascii s
