-- ===== src/Team/Access.antt =====
-- internal/team/team.go: which environments a body may list, and who is noted as having held the
-- current key of an environment when they lost access to it.
use esec_vault.Base.{
  Bool, true, false, Option, none, some, List, [], ◌∷◌, ◌++◌, Text, codes, Dict, lookup, insert,
  update_all, length, ◌==◌, text_eq, text_lt, is_sorted, if◌then◌else◌, is_some, new, Result, ok,
  ◌>>◌, fail_if, require_that,
}
use esec_vault.Envelope.{decode_strict, Decoder}
use esec_vault.Base.{wrapped, String}
use esec_vault.Team.Types.{Link}
use esec_vault.Team.State.{State, EnvState}

-- `decodeBody`
unfoldable pub decode_body : {A : Type 0} → Decoder A → Link → Result A
decode_body d l = wrapped "invalid %s body: %w" (decode_strict d l.body)

abbrev pub repeats : Option Text → Text → Bool
repeats none n = false
repeats (some before) n = text_eq before n

-- the loop of `checkAccess`, which knows the name before each
unfoldable pub known_envs : State → Option Text → List Text → Result (Unit {0})
known_envs s before [] = ok tt
known_envs s before (n ∷ ns) = do
  require_that (is_some (lookup n s.envs)) (new "unknown environment %q")
  fail_if (repeats before n) (new "environment %s listed twice")
  known_envs s (some n) ns

unfoldable pub check_access : State → Bool → List Text → Result (List Text)
check_access s true envs = do
  require_that (length envs == 0) (new "admins read every environment; list none")
  ok []
check_access s false envs = do
  require_that (is_sorted text_lt envs) (new "environments must be sorted")
  known_envs s none envs
  ok envs

-- the environment with one more exposure
unfoldable pub exposed_to : Text → Text → Link → Text → EnvState → EnvState
exposed_to holder name l reason e = record e {
  exposed =
      e.exposed
      ++ record { holder = holder; name = name; seq = l.seq; time = l.ctime; reason = reason } ∷ [];
}

-- the loop over all environments that exposes those which a test names
unfoldable pub expose_where :
    (Text → Bool) → Text → Text → Link → (Text → Text) → Dict EnvState → Dict EnvState
expose_where lost holder name l reason envs =
    update_all (λ n e. if lost n then exposed_to holder name l (reason n) e else e) envs

abbrev pub expose_entry :
    Text → Option EnvState → Text → Text → Link → Text → Dict EnvState → Dict EnvState
expose_entry env none holder name l reason envs = envs
expose_entry env (some e) holder name l reason envs =
    insert env (exposed_to holder name l reason e) envs

unfoldable pub expose : Text → Text → Text → Link → Text → Dict EnvState → Dict EnvState
expose env holder name l reason envs = expose_entry env (lookup env envs) holder name l reason envs

-- the loop over listed environments
unfoldable pub expose_each :
    List Text → Text → Text → Link → (Text → Text) → Dict EnvState → Dict EnvState
expose_each [] holder name l reason envs = envs
expose_each (n ∷ ns) holder name l reason envs =
    expose_each ns holder name l reason (expose n holder name l (reason n) envs)

-- the reasons that the links give
abbrev pub access_removed : String → Text → Text
access_removed before n = codes before ++ (n ++ codes " removed")
