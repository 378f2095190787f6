-- ===== src/Envelope/Digest.antt =====
-- What an envelope's hash determines.
use esec_vault.Base.{
  ℕ, ◌/◌, ◌%◌, ◌≡◌, ◌≢◌, ◌⊎◌, inl, inr, refl, [], ◌∷◌, Text, text_eq, text_eq_iff, arith,
  Bool-cases,
}
use esec_vault.Envelope.{Crypto, Envelope, hex_digit, hex_encode, message, hash}

-- two texts that SHA-256 does not tell apart
pub record Collision (c : Crypto) : Type 0 where
  pub left : Text
  pub right : Text
  pub differ : left ≢ right
  pub same : c.sha256 left ≡ c.sha256 right

hex_digit_injective : (a b : ℕ) → hex_digit a ≡ hex_digit b → a ≡ b
hex_digit_injective a b h = ground arith

hex_encode_injective : (a b : Text) → hex_encode a ≡ hex_encode b → a ≡ b
unfolding hex_encode
hex_encode_injective [] [] h = refl
hex_encode_injective [] (b ∷ bs) h = absurd (cc)
hex_encode_injective (a ∷ r) [] h = absurd (cc)
hex_encode_injective (a ∷ r) (b ∷ bs) h = ground (
  arith,
  hex_digit_injective (a / 16) (b / 16),
  hex_digit_injective (a % 16) (b % 16),
  hex_encode_injective r bs,
)

-- Two envelopes with one hash have the same message, or show a collision of SHA-256.
pub hash-message :
    (c : Crypto) (e f : Envelope)
    → hash c e ≡ hash c f
    → Collision c ⊎ (message e.kind e.body ≡ message f.kind f.body)
unfolding hash
hash-message c e f h = elim (Bool-cases (text_eq (message e.kind e.body) (message f.kind f.body))) [
  | inl same ↦ inr ((text_eq_iff _ _).0 same)
  | inr other ↦ inl (record {
    left = message e.kind e.body;
    right = message f.kind f.body;
    differ =
        λ eq. ground (arith, (text_eq_iff (message e.kind e.body) (message f.kind f.body)).1 eq);
    same = hex_encode_injective _ _ h;
  })
]
