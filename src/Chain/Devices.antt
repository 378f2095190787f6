-- ===== src/Chain/Devices.antt =====
-- internal/chain/chain.go: the link types for devices and agent unlock slots.
use esec_vault.Base.{
  ◌+◌, Bool, true, false, ◌||◌, not, Option, none, some, [], ◌∷◌, Text, Dict, ltb, text_eq, lookup,
  insert, any_value, is_some, if◌then◌else◌, Error, new, Result, ok, err, ◌>>=◌, ◌>>◌, fail_if,
  wrapped,
}
use esec_vault.Chain.Types.{
  Link, Device, DeviceAddBody, Method, method, first, approval, recovery, ssh_agent, unknown_method,
  active, revoked, max_slot_lifetime,
}
use esec_vault.Chain.State.{State, DeviceState, SlotState, active_device, usable_slot}
use esec_vault.Chain.Valid.{
  valid_device_name, valid_slot_id, valid_ssh_fingerprint, validate_device, verify_proof,
  same_device,
}
use esec_vault.Chain.External.{External}
use esec_vault.Chain.Delegates.{decode_body}

abbrev pub no_devices : Dict DeviceState → Bool
no_devices [] = true
no_devices (d ∷ ds) = false

abbrev pub is_empty : Text → Bool
is_empty [] = true
is_empty (c ∷ s) = false

-- the `switch` on the method in `applyDeviceAdd`
unfoldable pub check_method : Method → State → Link → DeviceAddBody → Result (Unit {0})
check_method first s l b =
    fail_if (not (no_devices s.devices) || not (is_empty b.approved_by) || not (is_empty b.slot))
      (new "only the first device can use method %q")
check_method approval s l b =
    fail_if (not (is_some (active_device s b.approved_by)) || not (is_empty b.slot))
      (new "approving device is not active")
check_method recovery s l b =
    fail_if (not (is_empty b.approved_by) || not (is_empty b.slot))
      (new "recovery adds carry no approver or slot")
check_method ssh_agent s l b =
    fail_if (not (is_some (usable_slot s b.slot l.ctime)) || not (is_empty b.approved_by))
      (new "agent unlock slot is not usable")
check_method unknown_method s l b = err (new "unknown device method %q")

abbrev pub shares_key : Device → DeviceState → Bool
shares_key new_device d =
    text_eq d.device.sign_pub new_device.sign_pub || text_eq d.device.enc_pub new_device.enc_pub

abbrev pub device_or : Error → Option DeviceState → Result DeviceState
device_or e none = err e
device_or e (some d) = ok d

abbrev pub slot_or : Option SlotState → Result SlotState
slot_or none = err (new "removed slot is not active")
slot_or (some sl) = if sl.active then ok sl else err (new "removed slot is not active")

module _ (x : External) where
  unfoldable pub apply_device_add : State → Link → Result State
  apply_device_add s l = do
    b ← decode_body x.device_add l
    validate_device b.device
    fail_if (is_some (lookup b.device.id s.devices)) (new "device id reused")
    fail_if (any_value (shares_key b.device) s.devices) (new "device keys reused")
    proof ← wrapped "device proof: %w" (verify_proof x.crypto x.proof b.proof)
    fail_if (not (text_eq proof.user s.user) || not (same_device proof.device b.device))
        (new "device proof does not match the device")
    check_method (method b.method) s l b
    ok (record s {
      devices =
          insert b.device.id
            (record {
              device = b.device;
              status = active;
              method = b.method;
              approved_by = b.approved_by;
              slot = b.slot;
              added_seq = l.seq;
              revoked_seq = 0;
            })
            s.devices;
    })

  -- the case `TypeDeviceRevoke`
  unfoldable pub apply_device_revoke : State → Link → Result State
  apply_device_revoke s l = do
    b ← decode_body x.device_revoke l
    d ← device_or (new "revoked device is not active") (active_device s b.device_id)
    ok (record s {
      devices = insert b.device_id (record d { status = revoked; revoked_seq = l.seq }) s.devices;
    })

  -- the case `TypeDeviceRename`
  unfoldable pub apply_device_rename : State → Link → Result State
  apply_device_rename s l = do
    b ← decode_body x.device_rename l
    valid_device_name b.name
    d ← device_or (new "renamed device is not active") (active_device s b.device_id)
    ok (record s {
      devices =
          insert b.device_id (record d { device = record d.device { name = b.name } }) s.devices;
    })

  -- the case `TypeAgentSlotAdd`
  unfoldable pub apply_agent_slot_add : State → Link → Result State
  apply_agent_slot_add s l = do
    b ← decode_body x.agent_slot_add l
    valid_slot_id b.slot_id
    valid_ssh_fingerprint b.ssh_key_fp
    fail_if (is_some (lookup b.slot_id s.slots)) (new "slot id reused")
    fail_if (not (ltb l.ctime b.expires) || ltb (l.ctime + max_slot_lifetime) b.expires)
        (new "slot expiry must be within %s of creation")
    ok (record s {
      slots =
          insert b.slot_id
            (record {
              slot_id = b.slot_id;
              ssh_key_fp = b.ssh_key_fp;
              expires = b.expires;
              ukey_version = s.ukey_version;
              active = true;
            })
            s.slots;
    })

  -- the case `TypeAgentSlotRemove`
  unfoldable pub apply_agent_slot_remove : State → Link → Result State
  apply_agent_slot_remove s l = do
    b ← decode_body x.agent_slot_remove l
    sl ← slot_or (lookup b.slot_id s.slots)
    ok (record s { slots = insert b.slot_id (record sl { active = false }) s.slots })
