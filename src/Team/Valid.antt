-- ===== src/Team/Valid.antt =====
-- internal/team: the checks of projects, logins, environments, machines and reasons.
use esec_vault.Base.{
  ℕ, Bool, false, ◌&&◌, ◌||◌, not, Option, none, some, List, [], ◌∷◌, Text, codes, length, all, any,
  ltb, leb, ◌==◌, in_range, is_digit, is_alnum, is_upper, is_lower_alnum, text_eq, matches,
  starts_class, has_suffix, contains, new, Result, ◌>>=◌, ◌>>◌, fail_if, require_that, wrapped,
  or_fail, is_ok, runes,
}
use esec_vault.Chain.Types.{is_zero}
use esec_vault.Chain.Valid.{valid_user, valid_device_name, parse_key32, parse_sign_key}
use esec_vault.Team.Types.{Person, Env, Machine}
use esec_vault.Team.External.{External}

-- `^[A-Za-z0-9](?:[A-Za-z0-9-]{0,38})$`
unfoldable pub login_pattern : Text → Bool
login_pattern = starts_class is_alnum (λ c. is_alnum c || c == b'-') 38

-- `^[a-z0-9]+(\.[a-z0-9]+)*$`, and the same after a dot
unfoldable pub env_labels : Bool → Text → Bool
env_labels in_label [] = in_label
env_labels in_label (c ∷ s) =
    let rest = env_labels (is_lower_alnum c) s in
    (is_lower_alnum c || in_label && (c == b'.')) && rest

unfoldable pub env_pattern : Text → Bool
unfolding env_labels
env_pattern = env_labels false

unfoldable pub machine_pattern : Text → Bool
machine_pattern = matches (codes "m_") is_lower_alnum 8 40

unfoldable pub root_pattern : Text → Bool
root_pattern = matches [] (λ c. is_digit c || in_range b'a' b'f' c) 64 64

-- the ASCII marks of `reasonPattern`
abbrev pub is_reason_mark : ℕ → Bool
is_reason_mark c = any (λ m. m == c) (codes " .,:;()'/_+-")

unfoldable pub valid_login : Text → Result (Unit {0})
valid_login login =
    fail_if
      (not (login_pattern login) || contains (codes "--") login || has_suffix (codes "-") login)
      (new "invalid GitHub login %q")

unfoldable pub valid_env : Text → Result (Unit {0})
valid_env name =
    fail_if (ltb 64 (length name) || not (env_pattern name))
      (new "invalid environment %q: use dot-separated lowercase letters and digits")

unfoldable pub valid_machine_id : Text → Result (Unit {0})
valid_machine_id id = require_that (machine_pattern id) (new "invalid machine id")

unfoldable pub valid_person : Person → Result (Unit {0})
valid_person p = do
  valid_user p.user
  valid_login p.login
  require_that (root_pattern p.root) (new "invalid account root")

-- whether `strings.ToLower` leaves the digits of a parsed key as they are
abbrev pub is_lower_case : Text → Bool
is_lower_case = all (λ c. not (is_upper c))

unfoldable pub valid_env_key : Env → Result (Unit {0})
valid_env_key e = do
  valid_env e.name
  require_that (is_ok (parse_key32 e.public_key) && is_lower_case e.public_key)
      (new "invalid public key for environment %s")

unfoldable pub validate_machine : Machine → Result (Unit {0})
validate_machine m = do
  valid_machine_id m.id
  or_fail (valid_device_name m.name)
      (new "machine name must be 1-64 letters, digits, spaces or ._()'- characters")
  _ ← wrapped "machine encryption key: %w" (parse_key32 m.enc_pub)
  _ ← wrapped "machine signing key: %w" (parse_sign_key m.sign_pub)
  fail_if (is_zero m.created) (new "machine creation time missing")

module _ (x : External) where
  unfoldable pub valid_project : Text → Result (Unit {0})
  valid_project id =
      fail_if (text_eq id (codes "default") || not (x.org_repo id))
        (new "invalid project id %q: use org/repo")

  unfoldable pub valid_group : Text → Result (Unit {0})
  valid_group id =
      or_fail (valid_project id) (new "invalid group %q: use org/name, such as acme/production")

  abbrev pub reason_runes : Option (List ℕ) → Bool
  reason_runes none = false
  reason_runes (some cs) =
      all (λ c. is_reason_mark c || x.letter_or_number c) cs && leb (length cs) 200

  -- `^[\pL\pN .,:;()'/_+-]{0,200}$`, which no text that is not UTF-8 matches
  unfoldable pub reason_pattern : Text → Bool
  reason_pattern r = reason_runes (runes r)

  unfoldable pub valid_reason : Text → Result (Unit {0})
  valid_reason r =
      require_that (reason_pattern r)
        (new "a reason is at most 200 letters, digits, spaces and simple punctuation")
