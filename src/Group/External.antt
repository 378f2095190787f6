-- ===== src/Group/External.antt =====
-- What the group chain calls and does not implement: what a project chain calls, encoding/json for
-- the bodies of a group's links, and the services that hold the keys of workloads.
use esec_vault.Envelope.{Decoder}
use esec_vault.Kms as Kms
use esec_vault.Team.External as TeamExternal
use esec_vault.Group.Types.{
  Link, InitBody, AdminAddBody, AdminRemoveBody, MachineAddBody, TokenAddBody, WorkloadAddBody,
  WorkloadRekeyBody, RemoveBody, KeyRotateBody, AccessBody, AccessRemoveBody, MemberAddBody,
  MemberRemoveBody,
}

pub record External : Type 0 where
  pub team : TeamExternal.External
  pub services : Kms.Services
  pub link : Decoder Link
  pub init : Decoder InitBody
  pub admin_add : Decoder AdminAddBody
  pub admin_remove : Decoder AdminRemoveBody
  pub machine_add : Decoder MachineAddBody
  pub token_add : Decoder TokenAddBody
  pub workload_add : Decoder WorkloadAddBody
  pub workload_rekey : Decoder WorkloadRekeyBody
  pub remove : Decoder RemoveBody
  pub key_rotate : Decoder KeyRotateBody
  pub access_add : Decoder AccessBody
  pub access_remove : Decoder AccessRemoveBody
  pub member_add : Decoder MemberAddBody
  pub member_remove : Decoder MemberRemoveBody
