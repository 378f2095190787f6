-- ===== src/Team/Types.antt =====
-- internal/team: the links of a project chain, their bodies, and the verified state.
use esec_vault.Base.{ℕ, Bool, Option, List, Text, codes, ℤ, text_eq, if◌then◌else◌}
use esec_vault.Chain.Types.{Time}

pub data LinkType : Type 0 where
  init member_add member_update member_remove env_set env_rename : LinkType
  machine_add machine_remove group_set archive unarchive : LinkType
  unknown_type : LinkType

unfoldable pub link_type : Text → LinkType
link_type t =
    if text_eq t (codes "init")
    then init
    else if text_eq t (codes "member_add")
    then member_add
    else if text_eq t (codes "member_update")
    then member_update
    else if text_eq t (codes "member_remove")
    then member_remove
    else if text_eq t (codes "env_set")
    then env_set
    else if text_eq t (codes "env_rename")
    then env_rename
    else if text_eq t (codes "machine_add")
    then machine_add
    else if text_eq t (codes "machine_remove")
    then machine_remove
    else if text_eq t (codes "group_set")
    then group_set
    else if text_eq t (codes "archive")
    then archive
    else if text_eq t (codes "unarchive")
    then unarchive
    else unknown_type

abbrev pub max_links : ℕ
max_links = 10000

abbrev pub max_members : ℕ
max_members = 200

abbrev pub max_machines : ℕ
max_machines = 100

abbrev pub max_envs : ℕ
max_envs = 100

abbrev pub max_project_groups : ℕ
max_project_groups = 50

pub record Link : Type 0 where
  pub project : Text
  pub seq : ℕ
  pub prev : Text
  pub ctime : Time
  pub typ : Text
  pub signer : Text
  pub signer_key : ℕ
  pub signer_seq : ℕ
  pub signer_delegate : Text
  pub body : Text

pub record Person : Type 0 where
  pub user : Text
  pub login : Text
  pub root : Text

pub record Env : Type 0 where
  pub name : Text
  pub public_key : Text

pub record ProjectRef : Type 0 where
  pub project : Text
  pub root : Text

pub record InitBody : Type 0 where
  pub creator : Person
  pub envs : List Env
  pub predecessor : Option ProjectRef

pub record MemberAddBody : Type 0 where
  pub member : Person
  pub admin : Bool
  pub envs : List Text
  pub verified : Text

pub record MemberUpdateBody : Type 0 where
  pub user : Text
  pub admin : Bool
  pub envs : List Text

pub record MemberRemoveBody : Type 0 where
  pub user : Text
  pub reason : Text

pub record EnvSetBody : Type 0 where
  pub env : Env
  pub reason : Text

pub record EnvRenameBody : Type 0 where
  pub old : Text
  pub renamed : Text

pub record Machine : Type 0 where
  pub id : Text
  pub name : Text
  pub enc_pub : Text
  pub sign_pub : Text
  pub created : Time

pub record OidcPolicy : Type 0 where
  pub provider : Text
  pub repository : Text
  pub repository_id : ℤ
  pub refs : List Text
  pub environments : List Text
  pub fly_org : Text
  pub fly_apps : List Text

pub record MachineAddBody : Type 0 where
  pub machine : Machine
  pub envs : List Text
  pub oidc : Option OidcPolicy

pub record MachineRemoveBody : Type 0 where
  pub id : Text
  pub reason : Text

pub record GroupSetBody : Type 0 where
  pub group : Text
  pub root : Text
  pub envs : List Text

pub record ArchiveBody : Type 0 where
  pub reason : Text
  pub successor : Option ProjectRef

pub record UnarchiveBody : Type 0 where
  pub reason : Text
