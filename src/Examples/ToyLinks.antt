-- ===== src/Examples/ToyLinks.antt =====
-- Concrete functions in place of the crates behind the links, which keep their documented laws.
use hash_chat.Prelude.{ℕ, ◌+◌, ◌*◌, ◌%◌, refl, true, [], ◌∷◌, ◌++◌, replicate, arith}
use hash_chat.Prelude.Bytes.{Bytes}
use hash_chat.Prelude.Utf8.{Text, chars, to_ascii_lowercase}
use hash_chat.Identity.{Signing, IsSigning, LongTermIdentity}
use hash_chat.OnionBinding.{Hazmat}
use hash_chat.ContactLink.{Texts}
use hash_chat.Invites.Contact.{IsLinking}
use hash_chat.Examples.Toy.{
  toy, toy-IsLawful, total, block, same_bytes, same_bytes_refl, total-block,
}

abbrev signature : ℕ → Bytes
signature n = block n ++ replicate 32 0

abbrev pub toy_signing : Signing
toy_signing = record {
  verifying_key = λ seed. block (total seed);
  sign = λ seed message. signature (total seed % 256 + total message);
  is_key = λ key. true;
  verifies = λ key message sig. same_bytes sig (signature (total key + total message));
}

toy_signing-IsSigning : IsSigning toy_signing
toy_signing-IsSigning = record {
  length-verifying_key = λ seed. refl;
  verifying_key-IsBytes = λ seed. omega arith;
  length-sign = λ seed message. refl;
  sign-IsBytes = λ seed message. omega arith;
  is_key-verifying_key = λ seed. refl;
  verifies-sign = λ seed message.
      rw (total-block (total seed))
        (same_bytes_refl (signature (total seed % 256 + total message)));
}

-- a checksum of zeros
abbrev pub toy_hazmat : Hazmat
toy_hazmat = record {
  sha3_256 = λ text. replicate 32 0;
  expanded_key = λ key. block (total key);
  raw_sign = λ key message. signature (total key + total message);
  verifies_strict = λ key message sig. true;
}

abbrev pub toy_texts : Texts
toy_texts = record { sha256 = λ text. block (total text); to_lowercase = to_ascii_lowercase }

abbrev pub toy_hmac : Bytes → Bytes → Bytes
toy_hmac key text = block (total key + 3 * total text)

pub toy-IsLinking : IsLinking toy toy_signing toy_hazmat toy_texts toy_hmac
toy-IsLinking = record {
  crypto = toy-IsLawful;
  signing = toy_signing-IsSigning;
  hazmat = record {
    size = λ esk message. refl;
    bytes = λ esk message. omega arith;
    is_key = λ esk. refl;
    verifies = λ esk message. refl;
  };
  texts = record { lowercase_ascii = λ s h. refl };
  mac = record { size = λ key text. refl; bytes = λ key text. omega arith };
  keys = λ secret. omega arith;
}

abbrev pub alice : LongTermIdentity
alice = record { seed = []; ed25519_signing = 1 ∷ []; x25519_secret = 2 ∷ [] }

abbrev pub bob : LongTermIdentity
bob = record { seed = []; ed25519_signing = 3 ∷ []; x25519_secret = 4 ∷ [] }

-- the address of a key of zeros, under the checksum above
abbrev pub address : Text
unfolding chars
address = chars "aaaaaaaaaaaaaaaaaaaaaaaaaaaaaaaaaaaaaaaaaaaaaaaaaaaaaaad"

-- an expanded key of zeros, whose public key is the address's
abbrev pub onion_key : Bytes
unfolding chars
onion_key =
    chars
      "ED25519-V3:AAAAAAAAAAAAAAAAAAAAAAAAAAAAAAAAAAAAAAAAAAAAAAAAAAAAAAAAAAAAAAAAAAAAAAAAAAAAAAAAAAAAAA=="
