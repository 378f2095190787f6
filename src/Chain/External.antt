-- ===== src/Chain/External.antt =====
-- What internal/chain calls and does not implement: crypto/ed25519 and crypto/sha256, crypto/x509,
-- encoding/json for each type that it decodes, and age's recipients.
use esec_vault.Base.{Bool, Option, Text}
use esec_vault.Envelope.{Crypto, Decoder}
use esec_vault.PasskeyGuard.{Age}
use esec_vault.Chain.Types.{
  Link, InitBody, DeviceProof, DeviceAddBody, DeviceRevokeBody, DeviceRenameBody, UKeyRotateBody,
  AgentSlotAddBody, AgentSlotRemoveBody, DelegateAddBody, DelegateRemoveBody, SecurityKeyAddBody,
  SecurityKeyRemoveBody,
}

-- What `x509.ParsePKIXPublicKey` returns, as far as the program tells keys apart.
pub data PublicKey : Type 0 where
  ecdsa : Bool → Text → PublicKey
  ed25519 : Text → PublicKey
  other_key : PublicKey

pub record External : Type 0 where
  pub crypto : Crypto
  pub age : Age
  pub parse_pkix : Text → Option PublicKey
  pub link : Decoder Link
  pub proof : Decoder DeviceProof
  pub init : Decoder InitBody
  pub device_add : Decoder DeviceAddBody
  pub device_revoke : Decoder DeviceRevokeBody
  pub device_rename : Decoder DeviceRenameBody
  pub ukey_rotate : Decoder UKeyRotateBody
  pub agent_slot_add : Decoder AgentSlotAddBody
  pub agent_slot_remove : Decoder AgentSlotRemoveBody
  pub delegate_add : Decoder DelegateAddBody
  pub delegate_remove : Decoder DelegateRemoveBody
  pub security_key_add : Decoder SecurityKeyAddBody
  pub security_key_remove : Decoder SecurityKeyRemoveBody

-- The encoders that `NewLink` calls.
