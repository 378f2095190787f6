-- ===== src/Team/State.antt =====
-- internal/team/team.go: the state that verifying a project chain computes, and what is looked up
-- in it.
use esec_vault.Base.{
  ℕ, zero, suc, Bool, false, ◌&&◌, ◌||◌, not, Option, none, some, List, [], ◌∷◌, ◌++◌, Text, codes,
  Dict, lookup, any, get_elem?, get_last?, length, ltb, ◌==◌, text_eq, text_lt, cut_prefix,
  if◌then◌else◌, wrap, rollback, Result, ok, ◌>>◌, fail_if, require_that, values_where,
  count_values, sort, map,
}
use esec_vault.Chain.State.{same_hash, or_empty}
use esec_vault.Chain.Types.{Time}
use esec_vault.Team.Types.{Person, Env, Machine, OidcPolicy, ProjectRef, Link}

pub record ProjectGroupState : Type 0 where
  pub group : Text
  pub root : Text
  pub envs : List Text
  pub active : Bool
  pub added_by : Text
  pub added_seq : ℕ
  pub since : Time
  pub removed_seq : ℕ
  pub env_since : Dict Time

pub record MemberState : Type 0 where
  pub person : Person
  pub admin : Bool
  pub envs : List Text
  pub active : Bool
  pub verified : Text
  pub added_by : Text
  pub added_seq : ℕ
  pub removed_seq : ℕ

pub record MachineState : Type 0 where
  pub machine : Machine
  pub envs : List Text
  pub oidc : Option OidcPolicy
  pub active : Bool
  pub added_by : Text
  pub added_seq : ℕ
  pub removed_seq : ℕ

pub record Exposure : Type 0 where
  pub holder : Text
  pub name : Text
  pub seq : ℕ
  pub time : Time
  pub reason : Text

pub record EnvState : Type 0 where
  pub env : Env
  pub seq : ℕ
  pub since : Time
  pub retired : List Text
  pub exposed : List Exposure

pub record State : Type 0 where
  pub project : Text
  pub seq : ℕ
  pub hashes : List Text
  pub last_time : Time
  pub members : Dict MemberState
  pub envs : Dict EnvState
  pub env_renames : Dict Text
  pub machines : Dict MachineState
  pub groups : Dict ProjectGroupState
  pub archived : Bool
  pub successor : Option ProjectRef
  pub predecessor : Option ProjectRef
  pub links : List Link
  pub signer_seqs : Dict ℕ

-- `New`
abbrev pub start : Text → State
start project = record {
  project = project;
  seq = 0;
  hashes = [];
  last_time = 31795200000000000;
  members = [];
  envs = [];
  env_renames = [];
  machines = [];
  groups = [];
  archived = false;
  successor = none;
  predecessor = none;
  links = [];
  signer_seqs = [];
}

-- `slices.Contains`
unfoldable pub listed : Text → List Text → Bool
listed n ns = any (λ m. text_eq m n) ns

-- `Has` of a group, a member and a machine
unfoldable pub group_has : ProjectGroupState → Text → Bool
group_has g env = g.active && listed env g.envs

unfoldable pub member_has : MemberState → Text → Bool
member_has m env = m.active && (m.admin || listed env m.envs)

unfoldable pub machine_has : MachineState → Text → Bool
machine_has m env = m.active && listed env m.envs

unfoldable pub head : State → Text
head s = or_empty (get_last? s.hashes)

unfoldable pub root : State → Text
root s = or_empty (get_elem? s.hashes 0)

unfoldable pub check_pin : State → ℕ → Text → Result (Unit {0})
check_pin s zero hash = ok tt
check_pin s (suc n) hash = do
  fail_if (ltb s.seq (suc n))
      (wrap "%w: the server's chain for %s has %d links, this device has seen %d" rollback)
  require_that (same_hash (get_elem? s.hashes n) hash)
      (wrap "%w: link %d of %s differs from the one this device verified" rollback)

abbrev pub if_active {ℓ} : {V : Type ℓ} → (V → Bool) → Option V → Option V
if_active active none = none
if_active active (some v) = if active v then some v else none

unfoldable pub member : State → Text → Option MemberState
member s user = if_active (λ m. m.active) (lookup user s.members)

abbrev pub is_admin : Option MemberState → Bool
is_admin none = false
is_admin (some m) = m.admin

unfoldable pub admin : State → Text → Bool
admin s user = is_admin (member s user)

unfoldable pub machine : State → Text → Option MachineState
machine s id = if_active (λ m. m.active) (lookup id s.machines)

unfoldable pub group : State → Text → Option ProjectGroupState
group s id = if_active (λ g. g.active) (lookup id s.groups)

unfoldable pub active_machines : State → List MachineState
active_machines s =
    sort (λ a b. text_lt a.machine.name b.machine.name) (values_where (λ m. m.active) s.machines)

unfoldable pub active_groups : State → List ProjectGroupState
active_groups s = sort (λ a b. text_lt a.group b.group) (values_where (λ g. g.active) s.groups)

unfoldable pub env_names : State → List Text
env_names s = sort text_lt (map (λ e. e.0) s.envs)

-- how many active admins there are
unfoldable pub admins : State → ℕ
admins s = count_values (λ m. m.active && m.admin) s.members

abbrev pub group_holder : Text → Text
group_holder group = codes "g:" ++ group

abbrev pub group_access : Option ProjectGroupState → Text → Bool
group_access none env = false
group_access (some g) env = group_has g env

abbrev pub machine_access : Option MachineState → Text → Bool
machine_access none env = false
machine_access (some m) env = machine_has m env

abbrev pub member_access : Option MemberState → Option MachineState → Text → Bool
member_access none machine env = machine_access machine env
member_access (some m) machine env = member_has m env

abbrev pub holder_access : State → Option Text → Text → Text → Bool
holder_access s (some id) holder env = group_access (lookup id s.groups) env
holder_access s none holder env =
    member_access (lookup holder s.members) (lookup holder s.machines) env

unfoldable pub has_access : State → Text → Text → Bool
has_access s holder env = holder_access s (cut_prefix (codes "g:") holder) holder env

abbrev pub keep_if : (Text → Bool) → List Text → List Text
keep_if p [] = []
keep_if p (n ∷ ns) = if p n then n ∷ keep_if p ns else keep_if p ns

unfoldable pub access : State → Text → List Text
access s holder = keep_if (has_access s holder) (env_names s)

abbrev pub is_exposed : Option EnvState → Bool
is_exposed none = false
is_exposed (some e) = not (length e.exposed == 0)

-- the names of the environments that `Rotations` returns
unfoldable pub rotations : State → List Text
rotations s = keep_if (λ n. is_exposed (lookup n s.envs)) (env_names s)

-- `CurrentEnv`
unfoldable pub current_env : State → Text → Text
current_env s name =
    let n = or_empty (lookup name s.env_renames) in if text_eq n [] then name else n
