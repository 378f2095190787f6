-- ===== src/Envelope/Authentic.antt =====
-- What Require of internal/envelope/envelope.go lets pass, in terms of the envelope's bytes.
use esec_vault.Base.{
  ℤ, negsuc, int_eq, ℕ, ◌≤◌, ◌≡◌, ◌⊎◌, ◌↔◌, inl, inr, refl, ap, true, false, Bool-cases, Option,
  some, none, List, [], ◌∷◌, ◌++◌, Text, codes, length, all, any, text_eq_iff, ok, arith, pos,
  starts_class,
}
use esec_vault.Envelope.{
  Crypto, Envelope, Signature, Assertion, check, message, hex_encode, kind_char, kind_pattern,
  signed_by, verified_by, require, bad_assertion,
}
use esec_vault.Envelope.Signing.{IsAccepted, require_iff}

-- all, and one, of a list
abbrev pub All {ℓ κ} : {A : Type ℓ} → (A → Type κ) → List A → Type κ
All P [] = Unit
All P (x ∷ xs) = P x × All P xs

abbrev pub Any {ℓ} : {A : Type ℓ} → (A → Type 0) → List A → Type 0
Any P [] = ⊥
Any P (x ∷ xs) = P x ⊎ Any P xs

-- a letter from a to z
abbrev pub IsLetter : ℕ → Type 0
IsLetter c = (97 ≤ c) × (c ≤ 122)

abbrev pub IsKindChar : ℕ → Type 0
IsKindChar c = IsLetter c ⊎ (((48 ≤ c) × (c ≤ 57)) ⊎ (c ≡ 45))

-- A kind: a letter, and up to 31 letters, digits and dashes.
pub data IsKind : Text → Type 0 where
  letters : (c : ℕ) (s : Text) → IsLetter c → All IsKindChar s → length s ≤ 31 → IsKind (c ∷ s)

-- the bytes that are signed: the kind keeps a signature from counting for another kind
abbrev pub signed_bytes : Envelope → Text
signed_bytes e = codes "esec-vault/" ++ (e.kind ++ (codes "/v1\n" ++ e.body))

-- what the optional assertion of a passkey must look like
abbrev pub IsSized : Assertion → Type 0
IsSized a =
    ((1 ≤ length a.credential_id) × (length a.credential_id ≤ 1023))
    × ((37 ≤ length a.authenticator_data) × (length a.authenticator_data ≤ 1024))
    × ((1 ≤ length a.client_data_json) × (length a.client_data_json ≤ 4096))
    × ((1 ≤ length a.signature) × (length a.signature ≤ 256))

abbrev pub HasSized : Option Assertion → Type 0
HasSized none = Unit
HasSized (some a) = IsSized a

module _ (c : Crypto) where
  -- a signature under the key, over those bytes
  abbrev pub IsSignature : Envelope → Text → Signature → Type 0
  IsSignature e key s = (s.key ≡ hex_encode key) × (c.verify key (signed_bytes e) s.sig ≡ true)

  abbrev pub IsSigner : Envelope → Text → Type 0
  IsSigner e key = (length key ≡ 32) × Any (IsSignature e key) e.sigs

  -- An envelope of a kind that each of the keys signed.
  pub record IsAuthentic (e : Envelope) (kind : Text) (keys : List Text) : Type 0 where
    pub version : e.v ≡ pos 1
    pub of_kind : e.kind ≡ kind
    pub kind_form : IsKind e.kind
    pub body : (1 ≤ length e.body) × (length e.body ≤ 65536)
    pub few : length e.sigs ≤ 8
    pub passkey : HasSized e.passkey
    pub some_key : 1 ≤ length keys
    pub signers : All (IsSigner e) keys

kind_char-IsKindChar : (c : ℕ) → (kind_char c ≡ true) ↔ IsKindChar c
kind_char-IsKindChar c = (λ h. ground (arith, h), λ h. ground (arith, h))

all-kind_char : (s : Text) → (all kind_char s ≡ true) ↔ All IsKindChar s
all-kind_char [] = (λ h. tt, λ h. refl)
all-kind_char (x ∷ s) = (
  λ h. ((kind_char-IsKindChar x).0 (ground (arith, h)), (all-kind_char s).0 (ground (arith, h))),
  λ h. ground (arith, (kind_char-IsKindChar x).1 h.0, (all-kind_char s).1 h.1),
)

kind_pattern-IsKind : (s : Text) → kind_pattern s ≡ true → IsKind s
unfolding kind_pattern starts_class
kind_pattern-IsKind [] h = absurd (cc)
kind_pattern-IsKind (c ∷ s) h =
    letters c s (ground (arith, h)) ((all-kind_char s).0 (ground (arith, h))) (ground (arith, h))

IsKind-kind_pattern : (s : Text) → IsKind s → kind_pattern s ≡ true
unfolding kind_pattern starts_class
IsKind-kind_pattern _ (letters c s first rest few) =
    ground (arith, first, (all-kind_char s).1 rest, few)

HasSized-bad_assertion : (a : Option Assertion) → (bad_assertion a ≡ false) ↔ HasSized a
HasSized-bad_assertion none = (λ h. tt, λ h. refl)
HasSized-bad_assertion (some a) = (λ h. ground (arith, h), λ h. ground (arith, h))

module _ (c : Crypto) (e : Envelope) (key : Text) where
  signed_by-IsSignature :
      (s : Signature) → (signed_by c key (message e.kind e.body) s ≡ true) ↔ IsSignature c e key s
  unfolding signed_by message
  signed_by-IsSignature s = (
    λ h. (ground (arith, h, text_eq_iff s.key (hex_encode key)), ground (arith, h)),
    λ h. ground (arith, h.0, h.1, text_eq_iff s.key (hex_encode key)),
  )

  any-signed_by :
      (sigs : List Signature)
      → (any (signed_by c key (message e.kind e.body)) sigs ≡ true) ↔ Any (IsSignature c e key) sigs
  any-signed_by [] = (λ h. absurd (cc), λ h. absurd h)
  any-signed_by (s ∷ sigs) = (
    λ h. elim (Bool-cases (signed_by c key (message e.kind e.body) s)) [
      | inl here ↦ inl ((signed_by-IsSignature s).0 here)
      | inr other ↦ inr ((any-signed_by sigs).0 (ground (arith, h, other)))
    ],
    λ h. elim h [
      | inl here ↦ ground (arith, (signed_by-IsSignature s).1 here)
      | inr later ↦ ground (arith, (any-signed_by sigs).1 later)
    ],
  )

  verified_by-IsSigner : (verified_by c e key ≡ true) ↔ IsSigner c e key
  unfolding verified_by
  verified_by-IsSigner = (
    λ h. (ground (arith, h), (any-signed_by e.sigs).0 (ground (arith, h))),
    λ h. ground (arith, h.0, (any-signed_by e.sigs).1 h.1),
  )

int_eq-pos : (v : ℤ) → int_eq v (pos 1) ≡ true → v ≡ pos 1
int_eq-pos (pos n) h = ap pos (ground (arith, h))
int_eq-pos (negsuc n) h = absurd (cc)

module _ (c : Crypto) (e : Envelope) where
  all-IsSigner : (keys : List Text) → (all (verified_by c e) keys ≡ true) ↔ All (IsSigner c e) keys
  all-IsSigner [] = (λ h. tt, λ h. refl)
  all-IsSigner (k ∷ ks) = (
    λ h. (
      (verified_by-IsSigner c e k).0 (ground (arith, h)),
      (all-IsSigner ks).0 (ground (arith, h)),
    ),
    λ h. ground (arith, (verified_by-IsSigner c e k).1 h.0, (all-IsSigner ks).1 h.1),
  )

  IsAccepted-IsAuthentic :
      (kind : Text) (keys : List Text) → IsAccepted c e kind keys → IsAuthentic c e kind keys
  unfolding check
  IsAccepted-IsAuthentic kind keys is =
      let ok_now = is.checked in
      record {
        version = int_eq-pos e.v (ground (arith, ok_now));
        of_kind = is.of_kind;
        kind_form = kind_pattern-IsKind e.kind (ground (arith, ok_now));
        body = (ground (arith, ok_now), ground (arith, ok_now));
        few = ground (arith, ok_now);
        passkey = (HasSized-bad_assertion e.passkey).0 (ground (arith, ok_now));
        some_key = omega (arith, is.some_key);
        signers = (all-IsSigner keys).0 is.all_signed;
      }

  IsAuthentic-IsAccepted :
      (kind : Text) (keys : List Text) → IsAuthentic c e kind keys → IsAccepted c e kind keys
  unfolding check
  IsAuthentic-IsAccepted kind keys is = record {
    checked = ground (
      arith,
      ap (λ (v : ℤ). int_eq v (pos 1)) is.version,
      IsKind-kind_pattern e.kind is.kind_form,
      is.body,
      is.few,
      (HasSized-bad_assertion e.passkey).1 is.passkey,
    );
    of_kind = is.of_kind;
    some_key = omega (arith, is.some_key);
    all_signed = (all-IsSigner keys).1 is.signers;
  }

  -- Require succeeds exactly when the envelope has version 1, the kind asked for, which is a letter
  -- and up to 31 letters, digits and dashes, a body of 1 to 65536 bytes, at most 8 signatures and no
  -- assertion outside its bounds, at least one key is asked for, and for each of them, which has 32
  -- bytes, one of the signatures names it and verifies over the kind and the body.
  pub require-IsAuthentic :
      (kind : Text) (keys : List Text) → (require c e kind keys ≡ ok tt) ↔ IsAuthentic c e kind keys
  require-IsAuthentic kind keys = (
    λ h. IsAccepted-IsAuthentic kind keys ((require_iff c e kind keys).0 h),
    λ h. (require_iff c e kind keys).1 (IsAuthentic-IsAccepted kind keys h),
  )
