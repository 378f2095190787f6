-- ===== src/Group/Valid.antt =====
-- internal/team/group.go: the checks of credentials and their keys.
use esec_vault.Base.{
  Bool, true, false, ◌&&◌, ◌||◌, Option, none, some, List, [], ◌∷◌, Text, codes, is_lower_alnum,
  text_eq, matches, new, Result, ok, err, ◌>>=◌, ◌>>◌, require_that, wrapped, int_eq,
}
use esec_vault.Chain.Types.{is_zero}
use esec_vault.Chain.Valid.{parse_key32, parse_sign_key}
use esec_vault.Kms as Kms
use esec_vault.Team.Types.{OidcPolicy}
use esec_vault.Group.Types.{Credential, Kind, machine, token, workload}
use esec_vault.Group.External.{External}

-- `^[mtw]_[a-z0-9]{8,40}$`
unfoldable pub cred_pattern : Text → Bool
cred_pattern id =
    matches (codes "m_") is_lower_alnum 8 40 id
    || matches (codes "t_") is_lower_alnum 8 40 id
    || matches (codes "w_") is_lower_alnum 8 40 id

-- `ValidCredID`
unfoldable pub valid_cred_id : Text → Result (Unit {0})
valid_cred_id id = require_that (cred_pattern id) (new "invalid machine or token id")

-- `^j_[a-z0-9]{16,40}$`
unfoldable pub join_pattern : Text → Bool
join_pattern = matches (codes "j_") is_lower_alnum 16 40

abbrev pub id_prefix : Kind → Text
id_prefix machine = codes "m_"
id_prefix token = codes "t_"
id_prefix workload = codes "w_"

-- `slices.Equal`
abbrev pub texts_eq : List Text → List Text → Bool
texts_eq [] [] = true
texts_eq (a ∷ xs) (b ∷ ys) = text_eq a b && texts_eq xs ys
texts_eq _ _ = false

-- `sameOIDC`
unfoldable pub same_oidc : Option OidcPolicy → Option OidcPolicy → Bool
same_oidc none none = true
same_oidc none (some b) = false
same_oidc (some a) none = false
same_oidc (some a) (some b) =
    text_eq a.provider b.provider
    && text_eq a.repository b.repository
    && int_eq a.repository_id b.repository_id
    && texts_eq a.refs b.refs
    && texts_eq a.environments b.environments
    && text_eq a.fly_org b.fly_org
    && texts_eq a.fly_apps b.fly_apps

abbrev pub kms_or : Option Kms.Key → Result Kms.Key
kms_or none = err (new "a workload names its KMS key")
kms_or (some k) = ok k

abbrev pub is_some_policy : Option OidcPolicy → Bool
is_some_policy none = false
is_some_policy (some p) = true

abbrev pub is_none_kms : Option Kms.Key → Bool
is_none_kms none = true
is_none_kms (some k) = false

module _ (x : External) where
  -- the name of a workload's key
  abbrev pub kms_name : Kms.Key → Text
  kms_name k = Kms.fingerprint (x.team.keys.crypto.sha256) k

  unfoldable pub check_workload : Credential → Result (Unit {0})
  check_workload c = do
    k ← kms_or c.kms
    Kms.validate x.services k
    require_that (text_eq c.enc_pub (kms_name k) && text_eq c.sign_pub [])
        (new "a workload's key is its KMS key's fingerprint, and it signs nothing")
    require_that (is_some_policy c.oidc)
        (new "a workload needs an OIDC policy: it has no secret of its own")
    require_that (is_zero c.expires) (new "only tokens expire")

  -- a machine's or token's own keys
  unfoldable pub check_own_keys : Credential → Result (Unit {0})
  check_own_keys c = do
    require_that (is_none_kms c.kms) (new "only a workload has a KMS key")
    _ ← wrapped "encryption key: %w" (parse_key32 c.enc_pub)
    _ ← wrapped "signing key: %w" (parse_sign_key c.sign_pub)
    ok tt

  unfoldable pub check_cred_keys : Credential → Kind → Result (Unit {0})
  check_cred_keys c machine = check_own_keys c
  check_cred_keys c token = check_own_keys c
  check_cred_keys c workload = check_workload c
