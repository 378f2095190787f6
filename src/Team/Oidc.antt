-- ===== src/Team/Oidc.antt =====
-- internal/team/machine.go: the policies that bind a machine to a workload.
use esec_vault.Base.{
  ℕ, ◌-◌, Bool, true, false, ◌&&◌, ◌||◌, Option, none, some, List, [], Text, codes, length, all,
  any, ltb, ◌==◌, is_alnum, is_lower_alnum, text_eq, matches, starts_class, get_last?, take,
  if◌then◌else◌, new, Result, ok, err, ◌>>◌, fail_if, require_that, ℤ, pos, negsuc,
}
use esec_vault.Chain.Valid.{split_at}
use esec_vault.Team.Types.{OidcPolicy}

-- `[A-Za-z0-9._/-]`
abbrev pub is_ref_char : ℕ → Bool
is_ref_char c = is_alnum c || any (λ m. m == c) (codes "._/-")

abbrev pub is_star : Option ℕ → Bool
is_star none = false
is_star (some c) = c == b'*'

-- a text without the star that may end it
unfoldable pub without_star : Text → Text
without_star s = if is_star (get_last? s) then take (length s - 1) s else s

-- `^refs/[A-Za-z0-9._/-]{1,200}\*?$`
unfoldable pub ref_pattern : Text → Bool
ref_pattern s = matches (codes "refs/") is_ref_char 1 200 (without_star s)

-- `^[a-z0-9][a-z0-9-]{0,62}$`
unfoldable pub fly_name_pattern : Text → Bool
fly_name_pattern = starts_class is_lower_alnum (λ c. is_lower_alnum c || c == b'-') 62

-- `^[A-Za-z0-9 _.-]{1,255}$`
unfoldable pub gh_env_pattern : Text → Bool
gh_env_pattern = matches [] (λ c. is_alnum c || any (λ m. m == c) (codes " _.-")) 1 255

abbrev pub owner_and_name : Option (Text × Text) → Bool
owner_and_name none = false
owner_and_name (some (owner, name)) =
    matches [] (λ c. is_alnum c || c == b'-') 1 39 owner
    && matches [] (λ c. is_alnum c || any (λ m. m == c) (codes "._-")) 1 100 name

-- `^[A-Za-z0-9-]{1,39}/[A-Za-z0-9._-]{1,100}$`, in which neither part has a slash
unfoldable pub repo_name_pattern : Text → Bool
repo_name_pattern s = owner_and_name (split_at b'/' s)

abbrev pub is_negative : ℤ → Bool
is_negative (pos n) = false
is_negative (negsuc n) = true

abbrev pub is_zero_id : ℤ → Bool
is_zero_id (pos n) = n == 0
is_zero_id (negsuc n) = false

abbrev pub none_of {ℓ} : {A : Type ℓ} → List A → Bool
none_of xs = length xs == 0

unfoldable pub validate_fly : OidcPolicy → Result (Unit {0})
validate_fly p = do
  require_that
      (none_of p.repository
        && is_zero_id p.repository_id
        && none_of p.refs
        && none_of p.environments)
      (new "a Fly.io policy names no GitHub repository, refs or environments")
  require_that (fly_name_pattern p.fly_org)
      (new "invalid Fly.io organisation %q: use its slug (fly orgs list)")
  fail_if (ltb 20 (length p.fly_apps)) (new "too many Fly.io apps")
  require_that (all fly_name_pattern p.fly_apps) (new "invalid Fly.io app name %q")

unfoldable pub validate_github : OidcPolicy → Result (Unit {0})
validate_github p = do
  require_that (none_of p.fly_org && none_of p.fly_apps)
      (new "a GitHub policy names no Fly.io organisation or apps")
  require_that (repo_name_pattern p.repository) (new "invalid repository %q: use owner/name")
  fail_if (is_negative p.repository_id) (new "invalid repository id")
  fail_if (ltb 20 (length p.refs) || ltb 20 (length p.environments))
      (new "too many refs or environments")
  require_that (all ref_pattern p.refs)
      (new "invalid ref %q: use refs/heads/NAME or refs/tags/NAME, optionally ending in *")
  require_that (all gh_env_pattern p.environments) (new "invalid environment %q")

-- `Validate`
unfoldable pub validate_policy : OidcPolicy → Result (Unit {0})
validate_policy p =
    if text_eq p.provider (codes "fly")
    then validate_fly p
    else if text_eq p.provider (codes "github")
    then validate_github p
    else err (new "unknown OIDC provider %q")

-- the check of a policy that may be missing
abbrev pub validate_any : Option OidcPolicy → Result (Unit {0})
validate_any none = ok tt
validate_any (some p) = validate_policy p
