-- ===== src/Kms.antt =====
-- internal/kms/kms.go: the keys of external key services that wrap a group's key.
use esec_vault.Base.{
  ℕ, Bool, false, ◌&&◌, ◌||◌, not, Option, none, some, [], ◌++◌, Text, codes, any, ltb, ◌==◌,
  is_alnum, text_eq, matches, new, Result, ok, err, ◌>>=◌, ◌>>◌, fail_if, require_that,
}
use esec_vault.Envelope.{hex_encode}

pub record Key : Type 0 where
  pub provider : Text
  pub name : Text
  pub audience : Text
  pub public_key : Text
  pub principal : Text

-- The registered providers, each by its `Validate`, and the size of the RSA key that the base64 DER
-- of a public key holds (encoding/base64 and crypto/x509).
pub record Services : Type 0 where
  pub provider : Text → Option (Key → Result (Unit {0}))
  pub rsa_bits : Text → Option ℕ

abbrev pub min_key_bits : ℕ
min_key_bits = 2048

-- `^[A-Za-z0-9:/._@+-]{1,512}$`
unfoldable pub name_pattern : Text → Bool
name_pattern = matches [] (λ c. is_alnum c || any (λ m. m == c) (codes ":/._@+-")) 1 512

abbrev pub large_rsa : Option ℕ → Bool
large_rsa none = false
large_rsa (some bits) = not (ltb bits min_key_bits)

abbrev pub provider_or : Option (Key → Result (Unit {0})) → Result (Key → Result (Unit {0}))
provider_or none = err (new "unknown KMS provider %q (this esec-vault knows %v)")
provider_or (some check) = ok check

module _ (services : Services) where
  unfoldable pub validate : Key → Result (Unit {0})
  unfolding name_pattern
  validate k = do
    check ← provider_or (services.provider k.provider)
    fail_if
        (not (name_pattern k.name)
          || not (name_pattern k.audience)
          || (not (text_eq k.principal []) && not (name_pattern k.principal)))
        (new "invalid KMS key, audience or principal name")
    require_that (large_rsa (services.rsa_bits k.public_key))
        (new "the KMS key must be RSA of at least %d bits")
    check k

-- `Fingerprint`, with SHA-256
unfoldable pub fingerprint : (Text → Text) → Key → Text
fingerprint sha256 k =
    codes "kms:"
    ++ hex_encode (sha256 (k.provider ++ codes "\n" ++ k.name ++ codes "\n" ++ k.public_key))
