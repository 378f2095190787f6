-- ===== src/Tests/Envelopes.antt =====
-- The theorems about envelopes at the envelopes of `Toy`.
use esec_vault.Base.{
  ℕ, zero, suc, length-append, ◌≡◌, ◌≤◌, ◌↔◌, refl, ok, true, Text, [], ◌∷◌, ◌++◌, codes, map, take,
  length, arith, text_eq_refl,
}
use esec_vault.Envelope.{Envelope, require, verified_by, hash, add_signature, new_raw, kind_pattern}
use esec_vault.Envelope.Message.{message_injective}
use esec_vault.Envelope.Authentic.{IsAuthentic, require-IsAuthentic}
use esec_vault.Envelope.Signing.{IsSound, add_signature-keeps, new_raw-require}
use esec_vault.Chain.Valid.{kind_link}
use esec_vault.Tests.Toy.{toy_crypto, bytes, key₁, key₂, envelope₁, signed}

kind_ok : kind_pattern kind_link ≡ true
unfolding kind_pattern
kind_ok = refl

message_injective_example : (kind_link ≡ kind_link) × (codes "{}" ≡ codes "{}")
message_injective_example =
    message_injective kind_link kind_link (codes "{}") (codes "{}") kind_ok kind_ok refl

require-IsAuthentic_example :
    (require toy_crypto envelope₁ kind_link (toy_crypto.public key₁ ∷ []) ≡ ok tt)
    ↔ IsAuthentic toy_crypto envelope₁ kind_link (toy_crypto.public key₁ ∷ [])
require-IsAuthentic_example =
    require-IsAuthentic toy_crypto envelope₁ kind_link (toy_crypto.public key₁ ∷ [])

add_signature-keeps_example :
    (hash toy_crypto (add_signature toy_crypto key₂ envelope₁) ≡ hash toy_crypto envelope₁)
    × (verified_by toy_crypto envelope₁ (toy_crypto.public key₁) ≡ true
        → verified_by toy_crypto (add_signature toy_crypto key₂ envelope₁) (toy_crypto.public key₁)
          ≡ true)
add_signature-keeps_example = add_signature-keeps toy_crypto key₂ envelope₁ (toy_crypto.public key₁)

take_long : (n : ℕ) (zs : Text) → n ≤ length zs → length (take n zs) ≡ n
take_long zero zs le = refl
take_long (suc n) [] le = absurd (omega arith)
take_long (suc n) (z ∷ zs) le = omega (arith, take_long n zs (omega arith))

toy-IsSound : IsSound toy_crypto
toy-IsSound = record {
  verify_sign = λ key msg. text_eq_refl (take 32 (key ++ bytes 32 0));
  public_size =
      λ key. take_long 32 (key ++ bytes 32 0) (omega (arith, length-append key (bytes 32 0)));
}

abbrev made : Envelope
made = signed kind_link 0 (key₁ ∷ key₂ ∷ [])

made_ok : new_raw toy_crypto kind_link (0 ∷ []) (key₁ ∷ key₂ ∷ []) ≡ ok made
unfolding new_raw
made_ok = refl

new_raw-require_example :
    require toy_crypto made kind_link (map toy_crypto.public (key₁ ∷ key₂ ∷ [])) ≡ ok tt
new_raw-require_example =
    new_raw-require toy_crypto toy-IsSound kind_link (0 ∷ []) (key₁ ∷ key₂ ∷ []) made made_ok
      (omega arith) (omega arith) (omega arith)
