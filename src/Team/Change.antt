-- ===== src/Team/Change.antt =====
-- What an accepted link changes in a project, one constructor for each link type: the abstract view
-- of `apply`, in which the checks of texts, keys and reasons are gone.
pub mod Refines
pub mod Frame
use esec_vault.Base.{
  ◌≡◌, Bool, true, false, ◌&&◌, ◌||◌, not, Option, none, some, List, [], ◌∷◌, Text, codes, lookup,
  if◌then◌else◌, insert, delete, update_all, ◌==◌, text_eq, is_some, ok, any_value, length,
}
use esec_vault.Team.Types.{
  Link, LinkType, init, member_add, member_update, member_remove, env_set, env_rename, machine_add,
  machine_remove, group_set, archive, unarchive, ProjectRef, InitBody, MemberAddBody,
  MemberUpdateBody, MemberRemoveBody, Env, EnvRenameBody, MachineAddBody, MachineRemoveBody,
  GroupSetBody,
}
use esec_vault.Team.State.{
  State, MemberState, MachineState, ProjectGroupState, EnvState, member, admin, admins, machine,
  group, group_holder, listed, keep_if, member_has,
}
use esec_vault.Team.External.{External}
use esec_vault.Team.Access.{decode_body, check_access, expose_where, expose_each, access_removed}
use esec_vault.Team.Envs.{set_env, set_envs, rename_env_list, retired_name}
use esec_vault.Team.Members.{is_active, new_member, ref_or}
use esec_vault.Team.Machines.{shares_key}
use esec_vault.Team.Groups.{add_group, regrant}

-- the member with the access that a link gives them
abbrev pub with_access : MemberState → Bool → List Text → MemberState
with_access m admin envs = record m { admin = admin; envs = envs }

abbrev pub why_removed : Text → Text → Text
why_removed user signer = if text_eq user signer then codes "left the project" else codes "removed"

module _ (x : External) where
  pub data Change (s : State) (l : Link) : LinkType → State → Type 0 where
    created :
        (b : InitBody) (v : State)
        → l.seq ≡ 1
        → set_envs s b.envs l ≡ ok v
        → Change s l init (record v {
          predecessor = ref_or b.predecessor v.predecessor;
          members = insert b.creator.user (new_member b.creator true [] [] l) v.members;
        })
    member_added :
        (b : MemberAddBody) (envs : List Text)
        → decode_body x.member_add l ≡ ok b
        → is_active (lookup b.member.user s.members) ≡ false
        → check_access s b.admin b.envs ≡ ok envs
        → Change s l member_add (record s {
          members = insert b.member.user (new_member b.member b.admin envs b.verified l) s.members;
        })
    member_updated :
        (b : MemberUpdateBody) (m : MemberState) (envs : List Text)
        → decode_body x.member_update l ≡ ok b
        → member s b.user ≡ some m
        → check_access s b.admin b.envs ≡ ok envs
        → (m.admin && not b.admin && (admins s == 1)) ≡ false
        → Change s l member_update (record s {
          members = insert b.user (with_access m b.admin envs) s.members;
          envs =
              expose_where
                (λ n. member_has m n && not (member_has (with_access m b.admin envs) n))
                m.person.user
                m.person.login
                l
                (access_removed "access to ")
                s.envs;
        })
    member_removed :
        (b : MemberRemoveBody) (m : MemberState)
        → decode_body x.member_remove l ≡ ok b
        → (text_eq b.user l.signer || admin s l.signer) ≡ true
        → member s b.user ≡ some m
        → (m.admin && (admins s == 1)) ≡ false
        → Change s l member_remove (record s {
          members = insert b.user (record m { active = false; removed_seq = l.seq }) s.members;
          envs =
              expose_where
                (member_has m)
                m.person.user
                m.person.login
                l
                (λ _. why_removed b.user l.signer)
                s.envs;
        })
    env_changed : (e : Env) (t : State) → set_env s e l true ≡ ok t → Change s l env_set t
    env_renamed :
        (b : EnvRenameBody) (e : EnvState)
        → lookup b.old s.envs ≡ some e
        → (is_some (lookup b.renamed s.envs) || retired_name s b.renamed) ≡ false
        → Change s l env_rename (record s {
          envs =
              insert b.renamed
                (record e { env = record e.env { name = b.renamed } })
                (delete b.old s.envs);
          members = update_all (λ _ m. record m { envs = rename_env_list b m.envs }) s.members;
          machines = update_all (λ _ m. record m { envs = rename_env_list b m.envs }) s.machines;
          groups = update_all (λ _ g. record g { envs = rename_env_list b g.envs }) s.groups;
          env_renames = insert b.old b.renamed (
              update_all
                (λ _ current. if text_eq current b.old then b.renamed else current)
                s.env_renames);
        })
    machine_added :
        (m : MachineState)
        → lookup m.machine.id s.machines ≡ none
        → any_value (shares_key m.machine) s.machines ≡ false
        → check_access s false m.envs ≡ ok m.envs
        → m.active ≡ true
        → Change s l machine_add (record s { machines = insert m.machine.id m s.machines })
    machine_removed :
        (b : MachineRemoveBody) (m : MachineState)
        → machine s b.id ≡ some m
        → Change s l machine_remove (record s {
          machines = insert b.id (record m { active = false; removed_seq = l.seq }) s.machines;
          envs =
              expose_each m.envs m.machine.id m.machine.name l
                (λ _. codes "machine removed")
                s.envs;
        })
    group_added :
        (b : GroupSetBody) (t : State)
        → group s b.group ≡ none
        → check_access s false b.envs ≡ ok b.envs
        → add_group s l b b.envs ≡ ok t
        → Change s l group_set t
    group_changed :
        (b : GroupSetBody) (old : ProjectGroupState)
        → group s b.group ≡ some old
        → check_access s false b.envs ≡ ok b.envs
        → old.root ≡ b.root
        → Change s l group_set (record s {
          groups = insert b.group (regrant old l b.envs) s.groups;
          envs =
              expose_each
                (keep_if (λ n. not (listed n b.envs)) old.envs)
                (group_holder b.group)
                b.group
                l
                (access_removed "group access to ")
                s.envs;
        })
    stopped :
        (successor : Option ProjectRef)
        → Change s l archive (record s { archived = true; successor = successor })
    resumed :
        s.archived ≡ true → Change s l unarchive (record s { archived = false; successor = none })
