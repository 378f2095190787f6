-- ===== src/Chain/Types.antt =====
-- internal/chain: the links of a user's device chain, their bodies, and the verified state.
-- A time is a number of nanoseconds since two days before the year 0, the earliest time that JSON
-- can carry; so `zero_time`, Go's zero `time.Time`, is the start of the year 1.
use esec_vault.Base.{ℕ, ◌*◌, Bool, List, Text, codes, ℤ, text_eq, if◌then◌else◌, ◌==◌}
use esec_vault.Envelope.{Envelope}

abbrev pub Time : Type 0
Time = ℕ

abbrev pub zero_time : Time
zero_time = 31795200000000000

abbrev pub is_zero : Time → Bool
is_zero t = t == zero_time

abbrev pub hour : ℕ
hour = 3600000000000

abbrev pub day : ℕ
day = 86400000000000

abbrev pub max_slot_lifetime : ℕ
max_slot_lifetime = 366 * day

abbrev pub max_links : ℕ
max_links = 10000

abbrev pub max_delegates : ℕ
max_delegates = 20

abbrev pub max_security_keys : ℕ
max_security_keys = 20

-- The link types; the text of one is read by `link_type`.
pub data LinkType : Type 0 where
  init device_add device_revoke device_rename ukey_rotate agent_slot_add : LinkType
  agent_slot_remove delegate_add delegate_remove security_key_add security_key_remove : LinkType
  unknown_type : LinkType

unfoldable pub link_type : Text → LinkType
link_type t =
    if text_eq t (codes "init")
    then init
    else if text_eq t (codes "device_add")
    then device_add
    else if text_eq t (codes "device_revoke")
    then device_revoke
    else if text_eq t (codes "device_rename")
    then device_rename
    else if text_eq t (codes "ukey_rotate")
    then ukey_rotate
    else if text_eq t (codes "agent_slot_add")
    then agent_slot_add
    else if text_eq t (codes "agent_slot_remove")
    then agent_slot_remove
    else if text_eq t (codes "delegate_add")
    then delegate_add
    else if text_eq t (codes "delegate_remove")
    then delegate_remove
    else if text_eq t (codes "security_key_add")
    then security_key_add
    else if text_eq t (codes "security_key_remove")
    then security_key_remove
    else unknown_type

-- The device addition methods; the text of one is read by `method`.
pub data Method : Type 0 where
  first approval recovery ssh_agent unknown_method : Method

unfoldable pub method : Text → Method
method t =
    if text_eq t (codes "first")
    then first
    else if text_eq t (codes "approval")
    then approval
    else if text_eq t (codes "recovery")
    then recovery
    else if text_eq t (codes "ssh_agent")
    then ssh_agent
    else unknown_method

-- A device status is written by the verifier only.
pub data Status : Type 0 where
  active revoked : Status

abbrev pub is_active : Status → Bool
is_active active = Bool.true
is_active revoked = Bool.false

pub record Link : Type 0 where
  pub seq : ℕ
  pub prev : Text
  pub ctime : Time
  pub typ : Text
  pub user : Text
  pub ukey_version : ℕ
  pub body : Text

pub record InitBody : Type 0 where
  pub enc_pub : Text
  pub sign_pub : Text
  pub master_pub : Text
  pub master_sign_pub : Text
  pub root_sig : Text

pub record Device : Type 0 where
  pub id : Text
  pub name : Text
  pub platform : Text
  pub enc_pub : Text
  pub sign_pub : Text
  pub created : Time

pub record DeviceProof : Type 0 where
  pub user : Text
  pub device : Device

pub record DeviceAddBody : Type 0 where
  pub device : Device
  pub proof : Envelope
  pub method : Text
  pub approved_by : Text
  pub slot : Text

pub record DeviceRevokeBody : Type 0 where
  pub device_id : Text
  pub reason : Text

pub record DeviceRenameBody : Type 0 where
  pub device_id : Text
  pub name : Text

pub record UKeyRotateBody : Type 0 where
  pub enc_pub : Text
  pub sign_pub : Text
  pub devices : List Text
  pub reason : Text

pub record AgentSlotAddBody : Type 0 where
  pub slot_id : Text
  pub ssh_key_fp : Text
  pub expires : Time

pub record AgentSlotRemoveBody : Type 0 where
  pub slot_id : Text
  pub reason : Text

pub record Delegate : Type 0 where
  pub id : Text
  pub kind : Text
  pub name : Text
  pub scope : Text
  pub sign_pub : Text
  pub alg : ℤ
  pub public_key : Text
  pub credential_id : Text
  pub rp_id : Text
  pub origin : Text
  pub expires : Time
  pub created : Time

pub record DelegateAddBody : Type 0 where
  pub delegate : Delegate

pub record DelegateRemoveBody : Type 0 where
  pub id : Text
  pub reason : Text

pub record SecurityKey : Type 0 where
  pub id : Text
  pub kind : Text
  pub recipient : Text
  pub name : Text
  pub serial : Text

pub record SecurityKeyAddBody : Type 0 where
  pub key : SecurityKey

pub record SecurityKeyRemoveBody : Type 0 where
  pub id : Text
  pub reason : Text
