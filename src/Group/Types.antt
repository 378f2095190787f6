-- ===== src/Group/Types.antt =====
-- internal/team/group.go: the links of a group chain and their bodies.
use esec_vault.Base.{ℕ, Bool, Option, Text, codes, text_eq, if◌then◌else◌}
use esec_vault.Chain.Types.{Time}
use esec_vault.Kms as Kms
use esec_vault.Team.Types.{Person, OidcPolicy}

pub data LinkType : Type 0 where
  init admin_add admin_remove machine_add token_add remove key_rotate : LinkType
  access_add access_remove member_add member_remove workload_add workload_rekey : LinkType
  unknown_type : LinkType

unfoldable pub link_type : Text → LinkType
link_type t =
    if text_eq t (codes "init")
    then init
    else if text_eq t (codes "admin_add")
    then admin_add
    else if text_eq t (codes "admin_remove")
    then admin_remove
    else if text_eq t (codes "machine_add")
    then machine_add
    else if text_eq t (codes "token_add")
    then token_add
    else if text_eq t (codes "workload_add")
    then workload_add
    else if text_eq t (codes "workload_rekey")
    then workload_rekey
    else if text_eq t (codes "remove")
    then remove
    else if text_eq t (codes "key_rotate")
    then key_rotate
    else if text_eq t (codes "access_add")
    then access_add
    else if text_eq t (codes "access_remove")
    then access_remove
    else if text_eq t (codes "member_add")
    then member_add
    else if text_eq t (codes "member_remove")
    then member_remove
    else unknown_type

-- a machine is one host; a token is a shared secret that can also enroll machines; a workload
-- holds no secret
pub data Kind : Type 0 where
  machine token workload : Kind

abbrev pub max_admins : ℕ
max_admins = 50

abbrev pub max_members : ℕ
max_members = 500

abbrev pub max_creds : ℕ
max_creds = 1000

abbrev pub max_projects : ℕ
max_projects = 200

-- `GroupLink`
pub record Link : Type 0 where
  pub group : Text
  pub seq : ℕ
  pub prev : Text
  pub ctime : Time
  pub typ : Text
  pub signer : Text
  pub signer_key : ℕ
  pub signer_seq : ℕ
  pub signer_delegate : Text
  pub body : Text

pub record GroupKey : Type 0 where
  pub version : ℕ
  pub enc_pub : Text

pub record Credential : Type 0 where
  pub id : Text
  pub name : Text
  pub enc_pub : Text
  pub sign_pub : Text
  pub created : Time
  pub expires : Time
  pub oidc : Option OidcPolicy
  pub kms : Option Kms.Key

pub record InitBody : Type 0 where
  pub creator : Person
  pub key : GroupKey

pub record AdminAddBody : Type 0 where
  pub admin : Person
  pub verified : Text

pub record AdminRemoveBody : Type 0 where
  pub user : Text
  pub reason : Text

pub record MachineAddBody : Type 0 where
  pub machine : Credential
  pub join : Text

pub record TokenAddBody : Type 0 where
  pub token : Credential

pub record WorkloadAddBody : Type 0 where
  pub workload : Credential

pub record WorkloadRekeyBody : Type 0 where
  pub id : Text
  pub kms : Kms.Key

pub record RemoveBody : Type 0 where
  pub id : Text
  pub reason : Text
  pub destroyed : Bool

pub record KeyRotateBody : Type 0 where
  pub key : GroupKey
  pub reason : Text

pub record AccessBody : Type 0 where
  pub project : Text
  pub root : Text

pub record AccessRemoveBody : Type 0 where
  pub project : Text

pub record MemberAddBody : Type 0 where
  pub member : Person
  pub verified : Text

pub record MemberRemoveBody : Type 0 where
  pub user : Text
  pub reason : Text
