-- ===== src/Chain/Effect.antt =====
-- What a link of internal/chain/chain.go, delegate.go or securitykey.go does to the state, by its type
-- and its body: which entry it sets, and that all else stays.
use esec_vault.Base.{
  ◌||◌, ◌≡◌, ◌≢◌, refl, true, false, Dict, lookup, insert, lookup-insert, none, some, Text, text_eq,
  text_eq_iff, ok, arith,
}
use esec_vault.Chain.Types.{
  Link, LinkType, active, revoked, device_add, device_revoke, device_rename, ukey_rotate,
  agent_slot_add, agent_slot_remove, delegate_add, delegate_remove, security_key_add,
  security_key_remove, DeviceAddBody, DeviceRevokeBody, DeviceRenameBody, UKeyRotateBody,
  AgentSlotAddBody, AgentSlotRemoveBody, DelegateAddBody, DelegateRemoveBody, SecurityKeyAddBody,
  SecurityKeyRemoveBody,
}
use esec_vault.Chain.State.{State, DeviceState, SlotState, DelegateState, SecurityKeyState}
use esec_vault.Chain.Valid.{parse_key32, parse_sign_key}
use esec_vault.Chain.External.{External}
use esec_vault.Chain.Delegates.{decode_body}
use esec_vault.Chain.Rotation.{IsRotated}

-- An entry is set, and every other entry is as it was.
pub record Puts {ℓ} {V : Type ℓ} (key : Text) (v : V) (m n : Dict V) : Type ℓ where
  pub here : lookup key n ≡ some v
  pub others : (k : Text) → text_eq key k ≡ false → lookup k n ≡ lookup k m

pub insert-Puts {ℓ} : {V : Type ℓ} (key : Text) (v : V) (m : Dict V) → Puts key v m (insert key v m)
insert-Puts key v m = record {
  here = ground (arith, (text_eq_iff key key).1 refl, lookup-insert key key v m);
  others = λ k other. ground (arith, other, lookup-insert key k v m);
}

pub ok-injective : {s t : State} → ok s ≡ ok t → s ≡ t
ok-injective h = ground arith

module _ (x : External) (s : State) (l : Link) where
  pub data Effect (t : State) : LinkType → Type 0 where
    device_added :
        (b : DeviceAddBody) (d : DeviceState)
        → decode_body x.device_add l ≡ ok b
        → lookup b.device.id s.devices ≡ none
        → ((id : Text) (o : DeviceState)
            → lookup id s.devices ≡ some o
            → (text_eq o.device.sign_pub b.device.sign_pub
                || text_eq o.device.enc_pub b.device.enc_pub)
              ≡ false)
        → d.device ≡ b.device
        → (d.status ≡ active) × (d.added_seq ≡ l.seq) × (d.revoked_seq ≡ 0)
        → Puts b.device.id d s.devices t.devices
        → t ≡ record s { devices = t.devices }
        → Effect t device_add
    device_revoked :
        (b : DeviceRevokeBody) (d : DeviceState)
        → decode_body x.device_revoke l ≡ ok b
        → lookup b.device_id s.devices ≡ some d
        → d.status ≡ active
        → Puts b.device_id (record d { status = revoked; revoked_seq = l.seq }) s.devices t.devices
        → t ≡ record s { devices = t.devices }
        → Effect t device_revoke
    device_renamed :
        (b : DeviceRenameBody) (d : DeviceState)
        → decode_body x.device_rename l ≡ ok b
        → lookup b.device_id s.devices ≡ some d
        → d.status ≡ active
        → Puts b.device_id
            (record d { device = record d.device { name = b.name } })
            s.devices
            t.devices
        → t ≡ record s { devices = t.devices }
        → Effect t device_rename
    slot_added :
        (b : AgentSlotAddBody) (sl : SlotState)
        → decode_body x.agent_slot_add l ≡ ok b
        → lookup b.slot_id s.slots ≡ none
        → (sl.slot_id ≡ b.slot_id) × (sl.ssh_key_fp ≡ b.ssh_key_fp) × (sl.expires ≡ b.expires)
        → (sl.active ≡ true) × (sl.ukey_version ≡ s.ukey_version)
        → Puts b.slot_id sl s.slots t.slots
        → t ≡ record s { slots = t.slots }
        → Effect t agent_slot_add
    slot_removed :
        (b : AgentSlotRemoveBody) (sl : SlotState)
        → decode_body x.agent_slot_remove l ≡ ok b
        → lookup b.slot_id s.slots ≡ some sl
        → sl.active ≡ true
        → Puts b.slot_id (record sl { active = false }) s.slots t.slots
        → t ≡ record s { slots = t.slots }
        → Effect t agent_slot_remove
    delegate_added :
        (b : DelegateAddBody) (d : DelegateState)
        → decode_body x.delegate_add l ≡ ok b
        → lookup b.delegate.id s.delegates ≡ none
        → d.delegate ≡ b.delegate
        → (d.active ≡ true) × (d.added_seq ≡ l.seq) × (d.removed_seq ≡ 0)
        → Puts b.delegate.id d s.delegates t.delegates
        → t ≡ record s { delegates = t.delegates }
        → Effect t delegate_add
    delegate_removed :
        (b : DelegateRemoveBody) (d : DelegateState)
        → decode_body x.delegate_remove l ≡ ok b
        → lookup b.id s.delegates ≡ some d
        → d.active ≡ true
        → Puts b.id (record d { active = false; removed_seq = l.seq }) s.delegates t.delegates
        → t ≡ record s { delegates = t.delegates }
        → Effect t delegate_remove
    key_added :
        (b : SecurityKeyAddBody) (k : SecurityKeyState)
        → decode_body x.security_key_add l ≡ ok b
        → lookup b.key.id s.security_keys ≡ none
        → k.key ≡ b.key
        → (k.active ≡ true) × (k.added_seq ≡ l.seq) × (k.removed_seq ≡ 0)
        → Puts b.key.id k s.security_keys t.security_keys
        → t ≡ record s { security_keys = t.security_keys }
        → Effect t security_key_add
    key_removed :
        (b : SecurityKeyRemoveBody) (k : SecurityKeyState)
        → decode_body x.security_key_remove l ≡ ok b
        → lookup b.id s.security_keys ≡ some k
        → k.active ≡ true
        → Puts b.id
            (record k { active = false; removed_seq = l.seq })
            s.security_keys
            t.security_keys
        → t ≡ record s { security_keys = t.security_keys }
        → Effect t security_key_remove
    rotated :
        (b : UKeyRotateBody)
        → decode_body x.ukey_rotate l ≡ ok b
        → parse_key32 b.enc_pub ≡ ok t.enc_pub
        → parse_sign_key b.sign_pub ≡ ok t.sign_pub
        → (t.enc_pub ≢ s.enc_pub) × (t.sign_pub ≢ s.sign_pub)
        → IsRotated s t b.devices
        → t.security_keys ≡ s.security_keys
        → Effect t ukey_rotate
