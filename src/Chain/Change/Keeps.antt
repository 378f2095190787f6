-- ===== src/Chain/Change/Keeps.antt =====
-- A change keeps the invariant of the entries.
use esec_vault.Base.{
  ℕ, ◌<◌, ◌≤◌, refl, Bool, true, false, List, Text, insert, count_values, arith, Entries,
  Entries-lookup, Entries-map, Entries-insert, Entries-update_all, count_values-insert,
  count_values-update_all, Dict,
}
use esec_vault.Chain.Types.{revoked, max_delegates, max_security_keys}
use esec_vault.Chain.State.{
  State, DeviceState, SlotState, DelegateState, SecurityKeyState, KeyEpoch,
}
use esec_vault.Chain.Step.{drop_device, drop_slot, drop_delegate}
use esec_vault.Chain.Invariant.{
  DeviceAt, SlotAt, DelegateAt, SecurityKeyAt, HasEntries, IsRemoval, not_revoked,
}
use esec_vault.Chain.Change.{
  Change, rotate_to, device_added, device_revoked, device_renamed, slot_added, slot_removed,
  delegate_added, delegate_removed, key_added, key_removed, rotated,
}

module _ (n seq : ℕ) (later : n < seq) where
  IsRemoval-later : (b : Bool) (a r : ℕ) → IsRemoval b a r n → IsRemoval b a r seq
  IsRemoval-later true a r h = h
  IsRemoval-later false a r h = omega arith

  DeviceAt-later : (id : Text) (d : DeviceState) → DeviceAt n id d → DeviceAt seq id d
  DeviceAt-later id d h =
      (h.0, h.1, omega arith, IsRemoval-later (not_revoked d.status) d.added_seq d.revoked_seq h.3)

  DelegateAt-later : (id : Text) (d : DelegateState) → DelegateAt n id d → DelegateAt seq id d
  DelegateAt-later id d h =
      (h.0, h.1, omega arith, IsRemoval-later d.active d.added_seq d.removed_seq h.3)

  SecurityKeyAt-later :
      (id : Text) (k : SecurityKeyState) → SecurityKeyAt n id k → SecurityKeyAt seq id k
  SecurityKeyAt-later id k h =
      (h.0, h.1, omega arith, IsRemoval-later k.active k.added_seq k.removed_seq h.3)

  DeviceAt-drop :
      (keep : List Text) (id : Text) (d : DeviceState)
      → DeviceAt n id d
      → DeviceAt seq id (drop_device seq keep id d)
  DeviceAt-drop keep id d h = ground (arith, DeviceAt-later id d h)

  DelegateAt-drop :
      (id : Text) (d : DelegateState)
      → DelegateAt n id d
      → DelegateAt seq id (drop_delegate seq id d)
  DelegateAt-drop id d h = ground (arith, DelegateAt-later id d h)

  module _ (s : State) (h : HasEntries n s) where
    devices_later : Entries (DeviceAt seq) s.devices
    devices_later = Entries-map (DeviceAt n) (DeviceAt seq) s.devices DeviceAt-later h.devices

    delegates_later : Entries (DelegateAt seq) s.delegates
    delegates_later =
        Entries-map (DelegateAt n) (DelegateAt seq) s.delegates DelegateAt-later h.delegates

    keys_later : Entries (SecurityKeyAt seq) s.security_keys
    keys_later =
        Entries-map (SecurityKeyAt n) (SecurityKeyAt seq) s.security_keys SecurityKeyAt-later
          h.security_keys

    -- the invariant at the new position, for a state with other devices
    with_devices :
        (m : Dict DeviceState)
        → Entries (DeviceAt seq) m
        → HasEntries seq (record s { devices = m })
    with_devices m new_devices = record {
      devices = new_devices;
      slots = h.slots;
      delegates = delegates_later;
      security_keys = keys_later;
      few_delegates = h.few_delegates;
      few_security_keys = h.few_security_keys;
    }

    with_device :
        (id : Text) (d : DeviceState)
        → DeviceAt seq id d
        → HasEntries seq (record s { devices = insert id d s.devices })
    with_device id d p =
        with_devices (insert id d s.devices)
          (Entries-insert (DeviceAt seq) id d s.devices p devices_later)

    with_slot :
        (id : Text) (sl : SlotState)
        → SlotAt s.ukey_version id sl
        → HasEntries seq (record s { slots = insert id sl s.slots })
    with_slot id sl p = record {
      devices = devices_later;
      slots = Entries-insert (SlotAt s.ukey_version) id sl s.slots p h.slots;
      delegates = delegates_later;
      security_keys = keys_later;
      few_delegates = h.few_delegates;
      few_security_keys = h.few_security_keys;
    }

    with_delegate :
        (id : Text) (d : DelegateState)
        → DelegateAt seq id d
        → count_values (λ o. o.active) (insert id d s.delegates) ≤ max_delegates
        → HasEntries seq (record s { delegates = insert id d s.delegates })
    with_delegate id d p few = record {
      devices = devices_later;
      slots = h.slots;
      delegates = Entries-insert (DelegateAt seq) id d s.delegates p delegates_later;
      security_keys = keys_later;
      few_delegates = few;
      few_security_keys = h.few_security_keys;
    }

    with_key :
        (id : Text) (k : SecurityKeyState)
        → SecurityKeyAt seq id k
        → count_values (λ o. o.active) (insert id k s.security_keys) ≤ max_security_keys
        → HasEntries seq (record s { security_keys = insert id k s.security_keys })
    with_key id k p few = record {
      devices = devices_later;
      slots = h.slots;
      delegates = delegates_later;
      security_keys = Entries-insert (SecurityKeyAt seq) id k s.security_keys p keys_later;
      few_delegates = h.few_delegates;
      few_security_keys = few;
    }

    rotated-HasEntries :
        (keep : List Text) (epoch : KeyEpoch) → HasEntries seq (rotate_to s seq keep epoch)
    rotated-HasEntries keep epoch = record {
      devices =
          Entries-update_all (DeviceAt seq) (drop_device seq keep) s.devices (DeviceAt-drop keep)
            h.devices;
      slots =
          Entries-update_all (SlotAt epoch.version) drop_slot s.slots (λ id sl p. (p.0, λ live. cc))
            h.slots;
      delegates =
          Entries-update_all (DelegateAt seq) (drop_delegate seq) s.delegates DelegateAt-drop
            h.delegates;
      security_keys = keys_later;
      few_delegates = omega (
        arith,
        h.few_delegates,
        count_values-update_all {V = DelegateState} (λ o. o.active) (drop_delegate seq) s.delegates
            (λ id d off. ground arith),
      );
      few_security_keys = h.few_security_keys;
    }

  -- A change at a later position keeps the invariant of the entries.
  pub Change-HasEntries : {s t : State} → Change s seq t → HasEntries n s → HasEntries seq t
  Change-HasEntries {s} (device_added d fresh _ on at r) h =
      with_device s h d.device.id d (ground arith)
  Change-HasEntries {s} (device_revoked id d found on) h =
      let old = Entries-lookup (DeviceAt n) s.devices id d h.devices found in
      with_device s h id (record d { status = revoked; revoked_seq = seq }) (ground arith)
  Change-HasEntries {s} (device_renamed id name d found on) h =
      let old = Entries-lookup (DeviceAt n) s.devices id d h.devices found in
      with_device s h id (record d { device = record d.device { name = name } })
        (DeviceAt-later id d old)
  Change-HasEntries {s} (slot_added sl fresh version on) h =
      with_slot s h sl.slot_id sl (refl, λ _. version)
  Change-HasEntries {s} (slot_removed id sl found on) h =
      let old = Entries-lookup (SlotAt s.ukey_version) s.slots id sl h.slots found in
      with_slot s h id (record sl { active = false }) (old.0, λ live. cc)
  Change-HasEntries {s} (delegate_added d fresh few on at r) h =
      with_delegate s h d.delegate.id d (ground arith) (
        ground (
          arith,
          count_values-insert {V = DelegateState} (λ o. o.active) d.delegate.id d s.delegates,
        ))
  Change-HasEntries {s} (delegate_removed id d found on) h =
      let old = Entries-lookup (DelegateAt n) s.delegates id d h.delegates found in
      with_delegate s h id (record d { active = false; removed_seq = seq }) (ground arith)
        (ground (
          arith,
          h.few_delegates,
          count_values-insert {V = DelegateState} (λ o. o.active) id
              (record d { active = false; removed_seq = seq }) s.delegates,
        ))
  Change-HasEntries {s} (key_added k fresh few on at r) h = with_key s h k.key.id k (ground arith) (
      ground (
        arith,
        count_values-insert {V = SecurityKeyState} (λ o. o.active) k.key.id k s.security_keys,
      ))
  Change-HasEntries {s} (key_removed id k found on) h =
      let old = Entries-lookup (SecurityKeyAt n) s.security_keys id k h.security_keys found in
      with_key s h id (record k { active = false; removed_seq = seq }) (ground arith)
        (ground (
          arith,
          h.few_security_keys,
          count_values-insert {V = SecurityKeyState} (λ o. o.active) id
              (record k { active = false; removed_seq = seq }) s.security_keys,
        ))
  Change-HasEntries {s} (rotated keep epoch _ _ _ _ _ _) h = rotated-HasEntries s h keep epoch
