-- ===== src/Chain/Valid.antt =====
-- internal/chain: the checks of identifiers, names, keys and device descriptions.
use esec_vault.Base.{
  ℕ, suc, ◌+◌, ◌-◌, ◌*◌, Bool, false, ◌&&◌, ◌||◌, not, Option, none, some, List, [], ◌∷◌, Text,
  codes, length, all, take, ltb, ◌==◌, in_range, is_digit, is_alnum, is_lower_alnum, text_eq,
  cut_prefix, matches, starts_class, if◌then◌else◌, new, Result, ok, err, ◌>>=◌, ◌>>◌, fail_if,
  require_that, wrapped,
}
use esec_vault.Envelope.{Crypto, Envelope, Decoder, check, decode, require}
use esec_vault.Chain.Types.{is_zero, Device, DeviceProof}

abbrev pub nonzero_digit : ℕ → Bool
nonzero_digit = in_range b'1' b'9'

-- `^gh:[1-9][0-9]{0,19}$`
unfoldable pub user_pattern : Text → Bool
unfolding cut_prefix starts_class
user_pattern u = elim (cut_prefix (codes "gh:") u) [
  | none ↦ false
  | some n ↦ starts_class nonzero_digit is_digit 19 n
]

-- `^d_[a-z0-9]{8,40}$`, and so for slots
unfoldable pub device_id_pattern : Text → Bool
unfolding matches cut_prefix
device_id_pattern = matches (codes "d_") is_lower_alnum 8 40

unfoldable pub slot_id_pattern : Text → Bool
unfolding matches cut_prefix
slot_id_pattern = matches (codes "s_") is_lower_alnum 8 40

-- the text before the first `c`, and what follows that
unfoldable pub split_at : ℕ → Text → Option (Text × Text)
split_at c [] = none
split_at c (x ∷ xs) =
    let rest = split_at c xs in
    if x == c then some ([], xs) else elim rest [ none ↦ none | some (a, b) ↦ some (x ∷ a, b) ]

-- `^[a-z0-9]{1,16}/[a-z0-9]{1,16}$`
unfoldable pub platform_pattern : Text → Bool
unfolding split_at matches cut_prefix
platform_pattern p = elim (split_at b'/' p) [
  | none ↦ false
  | some (os, arch) ↦ matches [] is_lower_alnum 1 16 os && matches [] is_lower_alnum 1 16 arch
]

-- ` ._()'-`
abbrev pub is_name_mark : ℕ → Bool
is_name_mark c = c == 32 || c == b'.' || c == b'_' || c == b'(' || c == b')' || c == 39 || c == b'-'

abbrev pub is_name_char : ℕ → Bool
is_name_char c = is_alnum c || is_name_mark c

-- `^[A-Za-z0-9][A-Za-z0-9 ._()'-]{0,63}$`
unfoldable pub name_pattern : Text → Bool
unfolding starts_class
name_pattern = starts_class is_alnum is_name_char 63

abbrev pub is_base64 : ℕ → Bool
is_base64 c = is_alnum c || c == b'+' || c == b'/'

-- `^SHA256:[A-Za-z0-9+/]{43}$`
unfoldable pub ssh_fp_pattern : Text → Bool
unfolding matches cut_prefix
ssh_fp_pattern = matches (codes "SHA256:") is_base64 43 43

unfoldable pub valid_user : Text → Result (Unit {0})
unfolding user_pattern
valid_user u = require_that (user_pattern u) (new "invalid user id %q")

unfoldable pub valid_device_id : Text → Result (Unit {0})
unfolding device_id_pattern
valid_device_id id = require_that (device_id_pattern id) (new "invalid device id")

unfoldable pub valid_slot_id : Text → Result (Unit {0})
unfolding slot_id_pattern
valid_slot_id id = require_that (slot_id_pattern id) (new "invalid slot id")

unfoldable pub valid_device_name : Text → Result (Unit {0})
unfolding name_pattern
valid_device_name name =
    require_that (name_pattern name)
      (new "device name must be 1-64 letters, digits, spaces or ._()'- characters")

unfoldable pub valid_platform : Text → Result (Unit {0})
unfolding platform_pattern
valid_platform p = require_that (platform_pattern p) (new "invalid platform")

unfoldable pub valid_ssh_fingerprint : Text → Result (Unit {0})
unfolding ssh_fp_pattern
valid_ssh_fingerprint fp = require_that (ssh_fp_pattern fp) (new "invalid SSH key fingerprint")

abbrev pub hex_value : ℕ → Option ℕ
hex_value c =
    if is_digit c
    then some (c - b'0')
    else if in_range b'a' b'f' c
    then some (c - 87)
    else if in_range b'A' b'F' c
    then some (c - 55)
    else none

abbrev pub hex_pair : Option ℕ → Option ℕ → Option Text → Option Text
hex_pair (some hi) (some lo) (some rest) = some ((hi * 16 + lo) ∷ rest)
hex_pair _ _ _ = none

-- `hex.DecodeString`
unfoldable pub hex_decode : Text → Option Text
hex_decode [] = some []
hex_decode (a ∷ []) = none
hex_decode (a ∷ (b ∷ r)) = hex_pair (hex_value a) (hex_value b) (hex_decode r)

abbrev pub key_of : Option Text → Result Text
key_of none = err (new "invalid key encoding")
key_of (some raw) =
    if not (length raw == 32)
    then err (new "invalid key encoding")
    else if all (λ b. b == 0) raw
    then err (new "invalid all-zero key")
    else ok raw

unfoldable pub parse_key32 : Text → Result Text
unfolding hex_decode
parse_key32 s = key_of (hex_decode s)

unfoldable pub parse_sign_key : Text → Result Text
unfolding parse_key32
parse_sign_key s = parse_key32 s

unfoldable pub validate_device : Device → Result (Unit {0})
unfolding valid_device_id valid_device_name valid_platform parse_key32 parse_sign_key
validate_device d = do
  valid_device_id d.id
  valid_device_name d.name
  valid_platform d.platform
  enc ← wrapped "device encryption key: %w" (parse_key32 d.enc_pub)
  sign ← wrapped "device signing key: %w" (parse_sign_key d.sign_pub)
  fail_if (is_zero d.created) (new "device creation time missing")

unfoldable pub same_device : Device → Device → Bool
same_device a b =
    text_eq a.id b.id
    && text_eq a.name b.name
    && text_eq a.platform b.platform
    && text_eq a.enc_pub b.enc_pub
    && text_eq a.sign_pub b.sign_pub
    && a.created == b.created

-- the envelope kinds of the chain
abbrev pub kind_link : Text
kind_link = codes "chain-link"

abbrev pub kind_device_proof : Text
kind_device_proof = codes "device-proof"

module _ (c : Crypto) (proof_decoder : Decoder DeviceProof) where
  unfoldable pub verify_proof : Envelope → Result DeviceProof
  unfolding check decode valid_user validate_device parse_sign_key require
  verify_proof proof = do
    check proof
    p ← decode proof_decoder proof
    valid_user p.user
    validate_device p.device
    key ← parse_sign_key p.device.sign_pub
    require c proof kind_device_proof (key ∷ [])
    ok p

-- `SanitizeName` reads the runes of a string; each is given here as its code point.
unfoldable pub sanitize_from : ℕ → List ℕ → Text
sanitize_from room [] = []
sanitize_from room (r ∷ rs) = elim room [
  | ℕ.zero ↦ []
  | suc n ↦ (if is_name_char r then r else b'-') ∷ sanitize_from n rs
]

-- `strings.TrimLeft(s, " ._()'-")`
unfoldable pub trim_left : Text → Text
trim_left [] = []
trim_left (c ∷ s) = if is_name_mark c then trim_left s else c ∷ s

abbrev pub or_device : Text → Text
or_device [] = codes "device"
or_device (c ∷ s) = c ∷ s

unfoldable pub sanitize_name : List ℕ → Text
unfolding sanitize_from trim_left
sanitize_name runes =
    let out = trim_left (sanitize_from 64 runes) in
    or_device (if ltb 64 (length out) then take 64 out else out)
