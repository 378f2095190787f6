-- ===== src/Team/Groups.antt =====
-- internal/team/team.go: the link type that says what a machine group may read.
use esec_vault.Base.{
  true, false, not, Option, none, some, List, [], ◌∷◌, Text, Dict, lookup, insert, length, ◌==◌,
  text_eq, if◌then◌else◌, new, Result, ok, ◌>>=◌, ◌>>◌, fail_if, require_that,
}
use esec_vault.Chain.Types.{Time}
use esec_vault.Team.Types.{Link, GroupSetBody}
use esec_vault.Team.State.{State, ProjectGroupState, group, group_holder, listed, keep_if}
use esec_vault.Team.Valid.{valid_group, root_pattern}
use esec_vault.Team.Access.{decode_body, check_access, expose_each, access_removed}
use esec_vault.Team.External.{External}

-- since when the group has read an environment that it goes on reading, or reads from now on
abbrev pub since_of : ProjectGroupState → Time → Text → Option Time → Time
since_of old now n none = now
since_of old now n (some t) = if listed n old.envs then t else now

unfoldable pub env_since : ProjectGroupState → Time → List Text → Dict Time
env_since old now [] = []
env_since old now (n ∷ ns) =
    insert n (since_of old now n (lookup n old.env_since)) (env_since old now ns)

-- a group that reads nothing yet, under the group's name
abbrev pub fresh_group : GroupSetBody → List Text → Link → ProjectGroupState
fresh_group b envs l = record {
  group = b.group;
  root = b.root;
  envs = envs;
  active = true;
  added_by = l.signer;
  added_seq = l.seq;
  since = l.ctime;
  removed_seq = 0;
  env_since = [];
}

unfoldable pub add_group : State → Link → GroupSetBody → List Text → Result State
add_group s l b envs = do
  fail_if (length envs == 0) (new "the group %s reads nothing yet")
  let g = fresh_group b envs l
  ok (record s {
    groups = insert b.group (record g { env_since = env_since g l.ctime envs }) s.groups;
  })

-- the group with the environments of the link, or taken away
abbrev pub regrant : ProjectGroupState → Link → List Text → ProjectGroupState
regrant old l [] = record old { active = false; removed_seq = l.seq }
regrant old l (n ∷ ns) = record old { envs = n ∷ ns; env_since = env_since old l.ctime (n ∷ ns) }

unfoldable pub change_group :
    State → Link → GroupSetBody → List Text → ProjectGroupState → Result State
change_group s l b envs old = do
  require_that (text_eq old.root b.root)
      (new "the group %s was recreated; take its access away first")
  ok (record s {
    groups = insert b.group (regrant old l envs) s.groups;
    envs =
        expose_each (keep_if (λ n. not (listed n envs)) old.envs) (group_holder b.group) b.group l
          (access_removed "group access to ") s.envs;
  })

abbrev pub set_group :
    State → Link → GroupSetBody → List Text → Option ProjectGroupState → Result State
set_group s l b envs none = add_group s l b envs
set_group s l b envs (some old) = change_group s l b envs old

module _ (x : External) where
  unfoldable pub apply_group_set : State → Link → Result State
  apply_group_set s l = do
    b ← decode_body x.group_set l
    valid_group x b.group
    require_that (root_pattern b.root) (new "invalid group root")
    envs ← check_access s false b.envs
    set_group s l b envs (group s b.group)
