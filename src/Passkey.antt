-- ===== src/Passkey.antt =====
-- internal/passkey: what a passkey's assertion must be to count as a delegate's signature.
use esec_vault.Base.{
  ℕ, ◌+◌, ◌-◌, ◌*◌, ◌/◌, ◌%◌, Bool, true, false, ◌||◌, not, Option, none, some, List, [], ◌∷◌, ◌++◌,
  Text, codes, length, take, get_elem?, ltb, ◌==◌, is_upper, is_lower, is_digit, text_eq,
  if◌then◌else◌, new, wrap, Error, Result, ok, err, ◌>>=◌, ◌>>◌, fail_if, require_that, push,
}
use esec_vault.Envelope.{Assertion}
use esec_vault.Chain.Types.{Delegate}
use esec_vault.Chain.External.{External, PublicKey, ecdsa, ed25519, other_key}
use esec_vault.Chain.Delegates.{passkey_public_key, DelegateKind, delegate_kind, passkey}

pub record ClientData : Type 0 where
  pub typ : Text
  pub challenge : Text
  pub origin : Text
  pub cross_origin : Bool

-- `json.Unmarshal` of the client data and `ecdsa.VerifyASN1`
pub record Browser : Type 0 where
  pub client_data : Text → Option ClientData
  pub verify_asn1 : Text → Text → Text → Bool

-- a digit of base64's alphabet for URLs
abbrev pub sextet : ℕ → Option ℕ
sextet c =
    if is_upper c
    then some (c - b'A')
    else if is_lower c
    then some (c - b'a' + 26)
    else if is_digit c
    then some (c - b'0' + 52)
    else if c == b'-'
    then some 62
    else if c == b'_'
    then some 63
    else none

-- `base64` skips the ends of lines
unfoldable pub sextets : Text → Option (List ℕ)
sextets [] = some []
sextets (c ∷ s) =
    let rest = sextets s in
    if c == 10 || c == 13 then rest else elim (sextet c) [ none ↦ none | some v ↦ push v rest ]

-- the three octets of four digits
abbrev pub octet₁ : ℕ → ℕ → ℕ
octet₁ a b = a * 4 + b / 16

abbrev pub octet₂ : ℕ → ℕ → ℕ
octet₂ b c = b % 16 * 16 + c / 4

abbrev pub octet₃ : ℕ → ℕ → ℕ
octet₃ c d = c % 4 * 64 + d

unfoldable pub octets : List ℕ → Option Text
octets [] = some []
octets (a ∷ []) = none
octets (a ∷ (b ∷ [])) = some (octet₁ a b ∷ [])
octets (a ∷ (b ∷ (c ∷ []))) = some (octet₁ a b ∷ (octet₂ b c ∷ []))
octets (a ∷ (b ∷ (c ∷ (d ∷ more)))) =
    push (octet₁ a b) (push (octet₂ b c) (push (octet₃ c d) (octets more)))

-- `base64.RawURLEncoding.DecodeString`
unfoldable pub decode_base64 : Text → Option Text
decode_base64 s = elim (sextets s) [ none ↦ none | some vs ↦ octets vs ]

-- `ErrInvalid`
abbrev pub invalid : Error
invalid = new "the passkey signature does not verify"

abbrev pub is_passkey : DelegateKind → Bool
is_passkey passkey = true
is_passkey _ = false

abbrev pub assertion_or : Option Assertion → Delegate → Result Assertion
assertion_or none d = err (wrap "%w: not a passkey signature" invalid)
assertion_or (some a) d =
    if is_passkey (delegate_kind d.kind)
    then ok a
    else err (wrap "%w: not a passkey signature" invalid)

abbrev pub client_data_or : Option ClientData → Result ClientData
client_data_or none = err (wrap "%w: invalid client data" invalid)
client_data_or (some cd) = ok cd

abbrev pub same_challenge : Option Text → Text → Bool
same_challenge none challenge = false
same_challenge (some got) challenge = text_eq got challenge

-- bit 0 of the flags, which follow the digest of the relying party
abbrev pub user_present : Option ℕ → Bool
user_present none = false
user_present (some flags) = flags % 2 == 1

-- bit 2 of the flags
abbrev pub verified_bit : Option ℕ → Bool
verified_bit none = false
verified_bit (some flags) = flags / 4 % 2 == 1

unfoldable pub user_verified : Assertion → Bool
user_verified a = verified_bit (get_elem? a.authenticator_data 32)

module _ (x : External) (web : Browser) where
  abbrev pub key_verifies : PublicKey → Text → Text → Bool
  key_verifies (ecdsa p256 key) signed sig = web.verify_asn1 key (x.crypto.sha256 signed) sig
  key_verifies (ed25519 key) signed sig = x.crypto.verify key signed sig
  key_verifies other_key signed sig = false

  unfoldable pub verify : Option Assertion → Delegate → Text → Result (Unit {0})
  verify ptr d challenge = do
    a ← assertion_or ptr d
    require_that (text_eq a.credential_id d.credential_id)
        (wrap "%w: made by another passkey" invalid)
    cd ← client_data_or (web.client_data a.client_data_json)
    fail_if
        (not (text_eq cd.typ (codes "webauthn.get"))
          || cd.cross_origin
          || not (text_eq cd.origin d.origin))
        (wrap "%w: not a signature made on %s" invalid)
    require_that (same_challenge (decode_base64 cd.challenge) challenge)
        (wrap "%w: it signs something else" invalid)
    let ad = a.authenticator_data
    fail_if (ltb (length ad) 37) (wrap "%w: invalid authenticator data" invalid)
    require_that (text_eq (take 32 ad) (x.crypto.sha256 d.rp_id))
        (wrap "%w: made for another site" invalid)
    require_that (user_present (get_elem? ad 32)) (wrap "%w: nobody touched the passkey" invalid)
    key ← passkey_public_key x d.alg d.public_key
    require_that (key_verifies key (ad ++ x.crypto.sha256 a.client_data_json) a.signature) invalid
