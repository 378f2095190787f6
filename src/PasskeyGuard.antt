-- ===== src/PasskeyGuard.antt =====
-- internal/passkeyguard/credential.go: reading the credential in an age passkey recipient.
use esec_vault.Base.{
  ℕ, Bool, ◌||◌, not, Option, none, some, Text, codes, length, all, ltb, ◌==◌, is_lower_alnum,
  has_prefix, has_suffix, contains, text_eq, if◌then◌else◌, ℤ, pos, int_eq, new, Result, ok, err,
  ◌>>=◌, ◌>>◌, fail_if, require_that,
}

pub record Credential : Type 0 where
  pub version : ℤ
  pub rp_id : Text
  pub id : Text
  pub salt : Text
  pub recipient : Text
  pub wrapped : Text

-- filippo.io/age, and the JSON decoder of a credential: the value, and whether nothing follows it.
pub record Age : Type 0 where
  pub parse_recipient : Text → Option (Text × Text)
  pub parse_x25519 : Text → Bool
  pub decode_credential : Text → Option (Credential × Bool)

abbrev pub is_host_char : ℕ → Bool
is_host_char c = is_lower_alnum c || c == b'.' || c == b'-'

abbrev pub bad_host : Text → Bool
bad_host host =
    ltb (length host) 1
    || ltb 253 (length host)
    || not (all is_host_char host)
    || contains (codes "..") host
    || has_prefix (codes ".") host
    || has_suffix (codes ".") host

module _ (age : Age) where
  unfoldable pub validate : Credential → Result (Unit {0})
  unfolding contains has_prefix has_suffix
  validate c = do
    fail_if (not (int_eq c.version (pos 1)) || bad_host c.rp_id)
        (new "invalid passkey relying party or format version")
    fail_if
        (ltb (length c.id) 1
          || ltb 1024 (length c.id)
          || not (length c.salt == 32)
          || ltb (length c.wrapped) 40
          || ltb 512 (length c.wrapped))
        (new "invalid passkey credential, salt or encrypted identity")
    require_that (age.parse_x25519 c.recipient) (new "malformed recipient")

  abbrev pub decoded : Option (Credential × Bool) → Result Credential
  decoded none = err (new "json")
  decoded (some (c, at_end)) = if at_end then ok c else err (new "trailing passkey credential data")

  unfoldable pub decode : Text → Result Credential
  unfolding validate
  decode payload = do
    fail_if (ltb 2400 (length payload)) (new "passkey credential is too large")
    c ← decoded (age.decode_credential payload)
    validate c
    ok c

  abbrev pub passkey_payload : Option (Text × Text) → Result Text
  passkey_payload none = err (new "not a passkey recipient")
  passkey_payload (some (name, payload)) =
      if text_eq name (codes "passkey") then ok payload else err (new "not a passkey recipient")

  unfoldable pub parse_recipient : Text → Result Credential
  unfolding decode
  parse_recipient s = do payload ← passkey_payload (age.parse_recipient s); decode payload
