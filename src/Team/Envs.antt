-- ===== src/Team/Envs.antt =====
-- internal/team: the link types that set and rename environments (team.go, envrename.go).
use esec_vault.Base.{
  Bool, true, false, ◌&&◌, ◌||◌, not, Option, none, some, List, [], ◌∷◌, ◌++◌, Text, lookup, insert,
  delete, update_all, any_value, text_eq, text_lt, sort, if◌then◌else◌, is_some, map, new, Result,
  ok, err, ◌>>=◌, ◌>>◌, fail_if,
}
use esec_vault.Chain.State.{or_empty}
use esec_vault.Team.Types.{Env, Link, EnvRenameBody}
use esec_vault.Team.State.{State, EnvState, listed}
use esec_vault.Team.Valid.{valid_env, valid_env_key, valid_reason}
use esec_vault.Team.Access.{decode_body}
use esec_vault.Team.External.{External}

abbrev pub retired_name : State → Text → Bool
retired_name s name = not (text_eq (or_empty (lookup name s.env_renames)) [])

-- whether an environment has or had the key
abbrev pub used_key : Text → EnvState → Bool
used_key key e = text_eq e.env.public_key key || listed key e.retired

abbrev pub retired_keys : Option EnvState → List Text
retired_keys none = []
retired_keys (some old) = old.retired ++ old.env.public_key ∷ []

unfoldable pub set_env : State → Env → Link → Bool → Result State
set_env s e l allow_replace = do
  fail_if (retired_name s e.name) (new "environment name %s is retired")
  valid_env_key e
  fail_if (is_some (lookup e.name s.envs) && not allow_replace) (new "environment %s listed twice")
  fail_if (any_value (used_key e.public_key) s.envs) (new "the key of %s was already used")
  ok (record s {
    envs =
        insert e.name
          (record {
            env = e;
            seq = l.seq;
            since = l.ctime;
            retired = retired_keys (lookup e.name s.envs);
            exposed = [];
          })
          s.envs;
  })

-- the loop of `applyInit`
unfoldable pub set_envs : State → List Env → Link → Result State
set_envs s [] l = ok s
set_envs s (e ∷ es) l = set_env s e l false >>= λ t. set_envs t es l

-- `slices.Compact`
unfoldable pub compact : List Text → List Text
compact [] = []
compact (n ∷ ns) = elim (compact ns) [
  | [] ↦ n ∷ []
  | m ∷ ms ↦ if text_eq n m then m ∷ ms else n ∷ (m ∷ ms)
]

-- `SortEnvs`
unfoldable pub sort_envs : List Text → List Text
sort_envs names = compact (sort text_lt names)

unfoldable pub rename_env_list : EnvRenameBody → List Text → List Text
rename_env_list b names = sort_envs (map (λ n. if text_eq n b.old then b.renamed else n) names)

abbrev pub env_or : Option EnvState → Result EnvState
env_or none = err (new "unknown environment %s")
env_or (some e) = ok e

module _ (x : External) where
  unfoldable pub rename_env : State → Link → Result State
  rename_env s l = do
    b ← decode_body x.env_rename l
    valid_env b.renamed
    e ← env_or (lookup b.old s.envs)
    fail_if (is_some (lookup b.renamed s.envs) || retired_name s b.renamed)
        (new "environment %s exists or is retired")
    ok (record s {
      envs =
          insert b.renamed (record e { env = record e.env { name = b.renamed } })
            (delete b.old s.envs);
      members = update_all (λ _ m. record m { envs = rename_env_list b m.envs }) s.members;
      machines = update_all (λ _ m. record m { envs = rename_env_list b m.envs }) s.machines;
      groups = update_all (λ _ g. record g { envs = rename_env_list b g.envs }) s.groups;
      env_renames = insert b.old b.renamed (
          update_all (λ _ current. if text_eq current b.old then b.renamed else current)
            s.env_renames);
    })

  -- the `env_set` link
  unfoldable pub apply_env_set : State → Link → Result State
  apply_env_set s l = do
    b ← decode_body x.env_set l
    valid_reason x b.reason
    set_env s b.env l true
