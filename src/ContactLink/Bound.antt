-- ===== src/ContactLink/Bound.antt =====
-- onion_binding.rs: the field of a link that binds it to its onion, and its check.
use hash_chat.Prelude.{
  ◌≡◌, refl, ap, sym, subst, ◌∙◌, Bool, true, false, not, Option, none, some, List, [], ◌∷◌, ◌++◌,
  length, append-nil, Result, ok, ok_or, refuse_if, ◌>>=◌, ◌>>◌, >>=-eq-ok, refuse_if-eq-ok,
  ok_or-eq-ok, All, arith,
}
use hash_chat.Prelude.Bytes.{Bytes, IsBytes}
use hash_chat.Prelude.Utf8.{Text, same_text}
use hash_chat.Prelude.Words.{same_text-eq}
use hash_chat.Prelude.Plain.{IsPlain}
use hash_chat.Identity.{Signing}
use hash_chat.OnionBinding.{
  Hazmat, expanded_of, sign_binding, verify_binding, binding_message, onion_public_key,
}
use hash_chat.ContactLink.Hex.{hex_encode, hex_encode-IsHex, IsHex-IsPlain}
use hash_chat.ContactLink.{split_slash, slash}
use hash_chat.ContactLink.RoundTrip.{split_last, split_field, All-imp, hex_slash}

-- `raw_sign` gives 64 bytes that the public key of the expanded key verifies
pub record IsHazmat (g : Signing) (h : Hazmat) : Type 0 where
  pub size : (esk message : Bytes) → length (h.raw_sign esk message) ≡ 64
  pub bytes : (esk message : Bytes) → IsBytes (h.raw_sign esk message)
  pub is_key : (esk : Bytes) → g.is_key (h.expanded_key esk) ≡ true
  pub verifies :
      (esk message : Bytes)
      → h.verifies_strict (h.expanded_key esk) message (h.raw_sign esk message) ≡ true

-- the binding signature of a link, if it has one: its text and its field
abbrev pub tail_of : Option Bytes → Text
tail_of none = []
tail_of (some hs_sig) = slash ∷ hex_encode hs_sig

abbrev pub parts_of : Option Bytes → List Text
parts_of none = []
parts_of (some hs_sig) = hex_encode hs_sig ∷ []

abbrev pub is_bound : Option Bytes → Bool
is_bound none = false
is_bound (some b) = true

-- 64 bytes that pass the check against the onion
pub record IsBinding (h : Hazmat) (g : Signing) (full : Text) (ed x hs_sig : Bytes) : Type 0 where
  pub size : length hs_sig ≡ 64
  pub bytes : IsBytes hs_sig
  pub checks : verify_binding h g full ed x hs_sig ≡ true

abbrev pub IsTail : Hazmat → Signing → Text → Bytes → Bytes → Option Bytes → Type 0
IsTail h g full ed x none = Unit
IsTail h g full ed x (some hs_sig) = IsBinding h g full ed x hs_sig

module _ (g : Signing) (h : Hazmat) (l : IsHazmat g h) where
  -- a signature whose key is the onion's passes the check
  pub binding_lem :
      (key ed x : Bytes) (full : Text) {hs_sig pk own : Bytes}
      → sign_binding h g key ed x ≡ some (hs_sig, pk)
      → onion_public_key h full ≡ some own
      → not (same_text own pk) ≡ false
      → IsBinding h g full ed x hs_sig
  unfolding sign_binding verify_binding
  binding_lem key ed x full {hs_sig} {pk} {own} made found own_key =
      by_key (expanded_of h g key) made
    where
      passes : (b : Bool) → not b ≡ false → b ≡ true
      passes true e = refl
      passes false e = cc

      halves :
          {a b : Bytes × Bytes}
          → Path (Option (Bytes × Bytes)) (some a) (some b)
          → (a.0 ≡ b.0) × (a.1 ≡ b.1)
      halves {a} {b} q = let same : a ≡ b = cc in (ap (λ p. p.0) same, ap (λ p. p.1) same)

      by_key :
          (o : Option Bytes)
          → Path
              (Option (Bytes × Bytes))
              (elim o [
                | none ↦ none
                | some esk ↦
                    let pk = h.expanded_key esk in
                    some (h.raw_sign esk (binding_message pk ed x), pk)
              ])
              (some (hs_sig, pk))
          → IsBinding h g full ed x hs_sig
      by_key none e = cc
      by_key (some esk) e =
          let (sig, own_pk) = halves e in
          let same : own ≡ h.expanded_key esk =
            same_text-eq own pk (passes (same_text own pk) own_key) ∙ sym own_pk in
          record {
            size = ap length (sym sig) ∙ l.size esk _;
            bytes = subst IsBytes sig (l.bytes esk _);
            checks = rw (verify_binding, found, same, l.is_key esk, ← sig) (l.verifies esk _);
          }

pub tail-IsPlain :
    (h : Hazmat) (g : Signing) (full : Text) (ed x : Bytes) (o : Option Bytes)
    → IsTail h g full ed x o
    → All IsPlain (tail_of o)
tail-IsPlain h g full ed x none v = tt
tail-IsPlain h g full ed x (some hs_sig) v =
    (omega arith, IsHex-IsPlain (hex_encode hs_sig) (hex_encode-IsHex hs_sig v.bytes))

pub split-tail :
    (h : Hazmat) (g : Signing) (full : Text) (ed x sig : Bytes) (o : Option Bytes)
    → IsBytes sig
    → IsTail h g full ed x o
    → split_slash (hex_encode sig ++ tail_of o) ≡ hex_encode sig ∷ parts_of o
split-tail h g full ed x sig none b v =
    ap split_slash (append-nil (hex_encode sig))
    ∙ split_last (hex_encode sig) (All-imp hex_slash (hex_encode sig) (hex_encode-IsHex sig b))
split-tail h g full ed x sig (some hs_sig) b v =
    split_field (hex_encode sig) (hex_encode hs_sig)
      (All-imp hex_slash (hex_encode sig) (hex_encode-IsHex sig b))
    ∙ ap (λ parts. hex_encode sig ∷ parts)
        (split_last (hex_encode hs_sig)
          (All-imp hex_slash (hex_encode hs_sig) (hex_encode-IsHex hs_sig v.bytes)))

-- the steps of a format that binds a link, from its outcome
pub bound_steps :
    {E : Type 0} (g : Signing) (h : Hazmat)
    → IsHazmat g h
    → (bad : E) (key ed x : Bytes) (full : Text) (rest : Bytes → Result E Text) {end : Text}
    → (ok_or (sign_binding h g key ed x) bad >>= (λ p.
        ok_or (onion_public_key h full) bad
        >>= (λ own. refuse_if (not (same_text own p.1)) bad >> rest p.0)))
      ≡ ok end
    → (hs_sig : Bytes) × (rest hs_sig ≡ ok end) × IsBinding h g full ed x hs_sig
bound_steps g h l bad key ed x full rest run =
    let (signed, made, run) = >>=-eq-ok (ok_or (sign_binding h g key ed x) bad) _ run in
    let (own, found, run) = >>=-eq-ok (ok_or (onion_public_key h full) bad) _ run in
    let (done, same, run) = >>=-eq-ok (refuse_if (not (same_text own signed.1)) bad) _ run in
    (
      signed.0,
      run,
      binding_lem g h l key ed x full (ok_or-eq-ok _ bad made) (ok_or-eq-ok _ bad found)
          (refuse_if-eq-ok _ bad same),
    )
