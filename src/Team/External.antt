-- ===== src/Team/External.antt =====
-- What internal/team calls and does not implement: encoding/json for each type that it decodes, the
-- Unicode tables of regexp, and the names of repositories in github.com/mscno/esec. The keys and
-- hashes are those that internal/chain uses.
use esec_vault.Base.{ℕ, Bool, Option, Text, Result}
use esec_vault.Envelope.{Decoder}
use esec_vault.Chain.State as ChainState
use esec_vault.Chain.External as ChainExternal
use esec_vault.Passkey.{Browser}
use esec_vault.Team.Types.{
  Link, InitBody, MemberAddBody, MemberUpdateBody, MemberRemoveBody, EnvSetBody, EnvRenameBody,
  MachineAddBody, MachineRemoveBody, GroupSetBody, ArchiveBody, UnarchiveBody,
}

pub record External : Type 0 where
  pub keys : ChainExternal.External
  pub browser : Browser
  -- `projectfile.ValidateOrgRepo`
  pub org_repo : Text → Bool
  -- the classes `\pL` and `\pN`
  pub letter_or_number : ℕ → Bool
  pub link : Decoder Link
  pub init : Decoder InitBody
  pub member_add : Decoder MemberAddBody
  pub member_update : Decoder MemberUpdateBody
  pub member_remove : Decoder MemberRemoveBody
  pub env_set : Decoder EnvSetBody
  pub env_rename : Decoder EnvRenameBody
  pub machine_add : Decoder MachineAddBody
  pub machine_remove : Decoder MachineRemoveBody
  pub group_set : Decoder GroupSetBody
  pub archive : Decoder ArchiveBody
  pub unarchive : Decoder UnarchiveBody

-- `Chains`: the verified device chain of an account
abbrev pub Chains : Type 0
Chains = Option (Text → Result ChainState.State)
