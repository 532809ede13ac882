-- ===== src/Examples/Toy.antt =====
-- Concrete functions in place of the cryptographic crates, which keep their documented laws. They
-- mix byte sums, so that two keys, two nonces or two headers rarely agree.
use hash_chat.Prelude.{
  ℕ, ◌+◌, ◌*◌, ◌%◌, ◌≡◌, refl, ap, subst, Bool, true, false, ◌&&◌, Option, none, some, [], ◌∷◌,
  ◌++◌, arith, length, replicate, ◌==◌, if◌then◌else◌,
}
use hash_chat.Prelude.Bytes.{Bytes}
use hash_chat.Ratchet.Crypto.{Crypto, IsLawful}

abbrev pub total : Bytes → ℕ
total [] = 0
total (b ∷ bs) = b + total bs

abbrev total_of : Option Bytes → ℕ
total_of none = 0
total_of (some bs) = total bs

abbrev pub block : ℕ → Bytes
block n = (n % 256) ∷ replicate 31 0

abbrev pub same_bytes : Bytes → Bytes → Bool
same_bytes [] [] = true
same_bytes (x ∷ xs) (y ∷ ys) = x == y && same_bytes xs ys
same_bytes [] (y ∷ ys) = false
same_bytes (x ∷ xs) [] = false

abbrev pub tag : Bytes → Bytes → Bytes → Bytes
tag key nonce aad = ((total key + 3 * total nonce + 5 * total aad) % 256) ∷ replicate 15 0

-- what follows the prefix
abbrev strip_prefix : Bytes → Bytes → Option Bytes
strip_prefix [] xs = some xs
strip_prefix (p ∷ ps) [] = none
strip_prefix (p ∷ ps) (x ∷ xs) = if p == x then strip_prefix ps xs else none

-- the tag stands in front here
abbrev pub toy : Crypto
toy = record {
  expand = λ salt ikm info. block (total_of salt + 3 * total ikm + total info);
  public_of = λ secret. block (total secret);
  diffie_hellman = λ a p. block ((total a % 256) + total p);
  was_contributory = λ shared. true;
  same_key = same_bytes;
  seal = λ key nonce aad plain. some (tag key nonce aad ++ plain);
  open_sealed = λ key nonce aad sealed. strip_prefix (tag key nonce aad) sealed;
}

strip_prefix-append : (ps xs : Bytes) → strip_prefix ps (ps ++ xs) ≡ some xs
strip_prefix-append [] xs = refl
strip_prefix-append (p ∷ ps) xs = ground (arith, strip_prefix-append ps xs)

pub same_bytes_refl : (xs : Bytes) → same_bytes xs xs ≡ true
same_bytes_refl [] = refl
same_bytes_refl (x ∷ xs) = ground (arith, same_bytes_refl xs)

pub total-block : (n : ℕ) → total (block n) ≡ n % 256
total-block n = omega arith

some-inj : {a b : Bytes} → some a ≡ some b → a ≡ b
some-inj h = cc

agreed :
    (a b : Bytes)
    → total a % 256 + total (block (total b)) ≡ total b % 256 + total (block (total a))
agreed a b = omega (arith, total-block (total a), total-block (total b))

pub toy-IsLawful : IsLawful toy
toy-IsLawful = record {
  length-expand = λ salt ikm info. refl;
  length-public_of = λ secret. refl;
  agreement = λ a b. ap block (agreed a b);
  same_key_refl = same_bytes_refl;
  open-seal = λ key nonce aad plain {sealed} h.
      subst (λ o. strip_prefix (tag key nonce aad) o ≡ some plain) (some-inj h)
        (strip_prefix-append (tag key nonce aad) plain);
  length-seal = λ key nonce aad plain {sealed} h. omega (arith, ap length (some-inj h));
}
