-- ===== src/Group/InProject.antt =====
-- internal/team/group.go: GroupExposures, who may still hold the environment keys of a project that
-- gives them to the group.
use esec_vault.Base.{
  Bool, ◌&&◌, not, Option, none, some, List, [], ◌∷◌, ◌++◌, Text, codes, Dict, lookup, insert, ltb,
  text_eq, if◌then◌else◌, values_where, map,
}
use esec_vault.Chain.Types.{Time, zero_time}
use esec_vault.Team.State as Project
use esec_vault.Team.State.{Exposure, EnvState, ProjectGroupState}
use esec_vault.Group.State.{State, PersonState, CredState, root, kind_text}

-- `exposed`
unfoldable pub exposed : Time → Time → Time → Bool
exposed since granted t = not (ltb t since) && not (ltb t granted)

abbrev pub cred_exposure : State → CredState → Exposure
cred_exposure s c = record {
  holder = c.cred.id;
  name = s.group ++ codes " " ++ c.cred.name;
  seq = c.removed_seq;
  time = c.removed_time;
  reason = kind_text c.kind ++ codes " removed from the group";
}

abbrev pub person_exposure : State → Text → PersonState → Exposure
person_exposure s role p = record {
  holder = p.person.user;
  name = s.group ++ codes " " ++ role ++ codes " " ++ p.person.login;
  seq = p.removed_seq;
  time = p.removed_time;
  reason = role ++ codes " removed from the group";
}

abbrev pub cred_left : Time → Time → CredState → Bool
cred_left since granted c = not c.active && not c.destroyed && exposed since granted c.removed_time

abbrev pub person_left : Time → Time → PersonState → Bool
person_left since granted p = not p.active && exposed since granted p.removed_time

-- the round of the loop over environments, at the environment's key
unfoldable pub exposures_since : State → Time → Time → List Exposure
exposures_since s since granted =
    map (cred_exposure s) (values_where (cred_left since granted) s.creds)
    ++ map (person_exposure s (codes "admin")) (values_where (person_left since granted) s.admins)
    ++ map (person_exposure s (codes "member")) (values_where (person_left since granted) s.members)

abbrev pub time_or_zero : Option Time → Time
time_or_zero none = zero_time
time_or_zero (some t) = t

abbrev pub exposures_of : State → Option EnvState → Time → List Exposure
exposures_of s none granted = []
exposures_of s (some e) granted = exposures_since s e.since granted

unfoldable pub env_exposures : Project.State → State → ProjectGroupState → Text → List Exposure
env_exposures ps s g env =
    exposures_of s (lookup env ps.envs) (time_or_zero (lookup env g.env_since))

-- what a map of lists has for a key
abbrev pub at_key : Option (List Exposure) → List Exposure
at_key none = []
at_key (some es) = es

-- `out[env] = append(out[env], ...)` for each of the exposures
unfoldable pub append_to : Text → List Exposure → Dict (List Exposure) → Dict (List Exposure)
append_to env [] out = out
append_to env (e ∷ es) out = insert env (at_key (lookup env out) ++ e ∷ es) out

unfoldable pub by_env :
    Project.State
    → State
    → ProjectGroupState
    → List Text
    → Dict (List Exposure)
    → Dict (List Exposure)
by_env ps s g [] out = out
by_env ps s g (env ∷ envs) out = by_env ps s g envs (append_to env (env_exposures ps s g env) out)

abbrev pub exposures_for : Project.State → State → Option ProjectGroupState → Dict (List Exposure)
exposures_for ps s none = []
exposures_for ps s (some g) =
    if g.active && text_eq g.root (root s) then by_env ps s g g.envs [] else []

-- `GroupExposures`
unfoldable pub group_exposures : Project.State → State → Dict (List Exposure)
group_exposures ps s = exposures_for ps s (lookup s.group ps.groups)
