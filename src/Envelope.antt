-- ===== src/Envelope.antt =====
-- internal/envelope/envelope.go: signed envelopes.
-- Ed25519 and SHA-256 are the parameter `Crypto`; a JSON decoder is a parameter `Decoder`.
pub mod Message
pub mod Signing
pub mod Authentic
pub mod Digest
use esec_vault.Base.{
  ℕ, ◌+◌, ◌*◌, ◌/◌, ◌%◌, Bool, true, false, ◌&&◌, ◌||◌, not, Option, none, some, List, [], ◌∷◌,
  ◌++◌, map, Text, codes, text_eq, length, drop, any, all, leb, ltb, ◌==◌, in_range, is_lower,
  is_lower_alnum, starts_class, if◌then◌else◌, ℤ, pos, int_eq, Error, new, wrap, bad_signature,
  Result, ok, err, ◌>>=◌, ◌>>◌, fail_if, require_that, wrapped, is_some,
}

-- crypto/ed25519 and crypto/sha256
pub record Crypto : Type 0 where
  pub public : Text → Text
  pub sign : Text → Text → Text
  pub verify : Text → Text → Text → Bool
  pub sha256 : Text → Text

abbrev pub version : ℤ
version = pos 1

abbrev pub max_body : ℕ
max_body = 65536

abbrev pub public_key_size : ℕ
public_key_size = 32

pub record Signature : Type 0 where
  pub key : Text
  pub sig : Text

pub record Assertion : Type 0 where
  pub credential_id : Text
  pub authenticator_data : Text
  pub client_data_json : Text
  pub signature : Text

pub record Envelope : Type 0 where
  pub v : ℤ
  pub kind : Text
  pub body : Text
  pub sigs : List Signature
  pub passkey : Option Assertion

abbrev pub kind_char : ℕ → Bool
kind_char c = is_lower_alnum c || c == b'-'

-- `^[a-z][a-z0-9-]{0,31}$`
unfoldable pub kind_pattern : Text → Bool
unfolding starts_class
kind_pattern = starts_class is_lower kind_char 31

unfoldable pub message : Text → Text → Text
message kind body = codes "esec-vault/" ++ (kind ++ (codes "/v1\n" ++ body))

abbrev pub hex_digit : ℕ → ℕ
hex_digit d = if ltb d 10 then 48 + d else 87 + d

-- `hex.EncodeToString`
unfoldable pub hex_encode : Text → Text
hex_encode [] = []
hex_encode (b ∷ bs) = hex_digit (b / 16) ∷ (hex_digit (b % 16) ∷ hex_encode bs)

-- `NewRaw` before it signs
unfoldable pub unsigned : Text → Text → Result Envelope
unfolding kind_pattern
unsigned kind body = do
  require_that (kind_pattern kind) (new "invalid envelope kind %q")
  fail_if (ltb max_body (length body)) (new "envelope body too large")
  ok (record { v = version; kind = kind; body = body; sigs = []; passkey = none })

-- the pointer test that `Check` begins with
abbrev pub non_nil : Option Envelope → Result Envelope
non_nil none = err (new "missing envelope")
non_nil (some e) = ok e

abbrev pub bad_size : ℕ → ℕ → Text → Bool
bad_size lo hi s = ltb (length s) lo || ltb hi (length s)

abbrev pub bad_assertion : Option Assertion → Bool
bad_assertion none = false
bad_assertion (some a) =
    bad_size 1 1023 a.credential_id
    || bad_size 37 1024 a.authenticator_data
    || bad_size 1 4096 a.client_data_json
    || bad_size 1 256 a.signature

unfoldable pub check : Envelope → Result (Unit {0})
unfolding kind_pattern
check e = do
  require_that (int_eq e.v version) (new "unsupported envelope version %d")
  require_that (kind_pattern e.kind) (new "invalid envelope kind")
  fail_if (bad_size 1 max_body e.body) (new "invalid envelope body size")
  fail_if (ltb 8 (length e.sigs)) (new "too many envelope signatures")
  fail_if (bad_assertion e.passkey) (new "invalid passkey assertion")

-- A value and `InputOffset`, of a `json.Decoder` that rejects unknown fields.
abbrev pub Decoder : Type 0 → Type 0
Decoder A = Text → Option (A × ℕ)

abbrev pub ascii_space : ℕ → Bool
ascii_space c = in_range 9 13 c || c == 32

abbrev pub space₂ : ℕ → ℕ → Bool
space₂ a b = a == 0xc2 && (b == 0x85 || b == 0xa0)

abbrev pub space₃ : ℕ → ℕ → ℕ → Bool
space₃ a b c =
    a == 0xe1 && b == 0x9a && c == 0x80
    || a == 0xe2 && b == 0x80 && (in_range 0x80 0x8a c || c == 0xa8 || c == 0xa9 || c == 0xaf)
    || a == 0xe2 && b == 0x81 && c == 0x9f
    || a == 0xe3 && b == 0x80 && c == 0x80

-- `len(bytes.TrimSpace(data)) == 0`: every rune is a Unicode space.
unfoldable pub only_space : Text → Bool
only_space [] = true
only_space (a ∷ []) = ascii_space a
only_space (a ∷ (b ∷ [])) = elim (ascii_space a) [ true ↦ only_space (b ∷ []) | false ↦ space₂ a b ]
only_space (a ∷ (b ∷ (c ∷ r))) = elim (ascii_space a) [
  | true ↦ only_space (b ∷ (c ∷ r))
  | false ↦ elim (space₂ a b) [
    | true ↦ only_space (c ∷ r)
    | false ↦ elim (space₃ a b c) [ true ↦ only_space r | false ↦ false ]
  ]
]

abbrev pub no_trailing : {A : Type 0} → Text → Option (A × ℕ) → Result A
no_trailing text none = err (new "json")
no_trailing text (some (a, offset)) =
    if only_space (drop offset text) then ok a else err (new "trailing data")

unfoldable pub decode_strict : {A : Type 0} → Decoder A → Text → Result A
decode_strict decoder text = no_trailing text (decoder text)

unfoldable pub decode : {A : Type 0} → Decoder A → Envelope → Result A
unfolding decode_strict
decode decoder e = wrapped "invalid %s body: %w" (decode_strict decoder e.body)

module _ (c : Crypto) where
  unfoldable pub add_signature : Text → Envelope → Envelope
  add_signature key e = record e {
    sigs =
        e.sigs
        ++ record { key = hex_encode (c.public key); sig = c.sign key (message e.kind e.body) }
          ∷ [];
  }

  unfoldable pub add_signatures : List Text → Envelope → Envelope
  unfolding add_signature
  add_signatures [] e = e
  add_signatures (k ∷ ks) e = add_signatures ks (add_signature k e)

  unfoldable pub new_raw : Text → Text → List Text → Result Envelope
  unfolding unsigned add_signatures
  new_raw kind body keys = do e ← unsigned kind body; ok (add_signatures keys e)

  -- what a passkey signs for an envelope
  unfoldable pub challenge : Envelope → Text
  challenge e = c.sha256 (message e.kind e.body)

  unfoldable pub hash : Envelope → Text
  hash e = hex_encode (c.sha256 (message e.kind e.body))

  unfoldable pub signed_by : Text → Text → Signature → Bool
  signed_by pub_key msg s = text_eq s.key (hex_encode pub_key) && c.verify pub_key msg s.sig

  unfoldable pub verified_by : Envelope → Text → Bool
  unfolding signed_by
  verified_by e pub_key =
      length pub_key == public_key_size && any (signed_by pub_key (message e.kind e.body)) e.sigs

  unfoldable pub require_keys : Envelope → List Text → Result (Unit {0})
  unfolding verified_by
  require_keys e [] = ok tt
  require_keys e (k ∷ ks) =
      require_that (verified_by e k) (wrap "%w: %s" bad_signature) >> require_keys e ks

  unfoldable pub require : Envelope → Text → List Text → Result (Unit {0})
  unfolding check require_keys
  require e kind keys = do
    check e
    require_that (text_eq e.kind kind) (new "expected %s envelope, got %s")
    fail_if (length keys == 0) (wrap "%w: no signer required" bad_signature)
    require_keys e keys
