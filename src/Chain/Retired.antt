-- ===== src/Chain/Retired.antt =====
-- What was revoked or removed stays so: no identifier is used again.
use esec_vault.Base.{
  ℕ, ◌+◌, ◌<◌, ◌≡◌, ◌^◌, Option, some, none, List, Text, text_eq_iff, ok, arith, length, false,
  lookup, insert, lookup-insert, lookup-update_all, Dict,
}
use esec_vault.Envelope.{Envelope}
use esec_vault.Chain.Types.{revoked}
use esec_vault.Chain.State.{State, DeviceState, SlotState, DelegateState, SecurityKeyState}
use esec_vault.Chain.External.{External}
use esec_vault.Chain.Step.{steps, drop_device, drop_slot, drop_delegate}
use esec_vault.Chain.Invariant.{IsWellFormed}
use esec_vault.Chain.Change.{
  Change, device_added, device_revoked, device_renamed, slot_added, slot_removed, delegate_added,
  delegate_removed, key_added, key_removed, rotated,
}
use esec_vault.Chain.Runs.{steps-keeps}

-- a write under a key that is absent, or that holds something else, leaves an entry alone
lookup_other :
    {V : Type 0} (j id : Text) (w v : V) (m : Dict V)
    → lookup id m ≡ some v
    → (j ≡ id → ⊥)
    → lookup id (insert j w m) ≡ some v
lookup_other j id w v m found other =
    ground (arith, lookup-insert j id w m, text_eq_iff j id, found)

lookup_fresh :
    {V : Type 0} (j id : Text) (w v : V) (m : Dict V)
    → lookup id m ≡ some v
    → lookup j m ≡ none
    → lookup id (insert j w m) ≡ some v
lookup_fresh j id w v m found fresh = lookup_other j id w v m found (λ same. cc)

module _ (n : ℕ) (id : Text) where
  Change-revoked :
      (d : DeviceState) {t v : State}
      → Change t n v
      → lookup id t.devices ≡ some d
      → d.status ≡ revoked
      → lookup id v.devices ≡ some d
  Change-revoked d {t} (device_added c fresh _ _ _ _) found off =
      lookup_fresh c.device.id id c d t.devices found fresh
  Change-revoked d {t} (device_revoked j c at on) found off =
      lookup_other j id (record c { status = revoked; revoked_seq = n }) d t.devices found
        (λ same. cc)
  Change-revoked d {t} (device_renamed j name c at on) found off =
      lookup_other j id (record c { device = record c.device { name = name } }) d t.devices found
        (λ same. cc)
  Change-revoked d {t} (rotated keep k _ _ _ _ _ _) found off =
      rw (lookup-update_all (drop_device n keep) id t.devices) (ground arith)
  Change-revoked d _ found off = found

  Change-slot_removed :
      (d : SlotState) {t v : State}
      → Change t n v
      → lookup id t.slots ≡ some d
      → d.active ≡ false
      → lookup id v.slots ≡ some d
  Change-slot_removed d {t} (slot_added c fresh _ _) found off =
      lookup_fresh c.slot_id id c d t.slots found fresh
  Change-slot_removed d {t} (slot_removed j c at on) found off =
      lookup_other j id (record c { active = false }) d t.slots found (λ same. cc)
  Change-slot_removed d {t} (rotated keep k _ _ _ _ _ _) found off =
      rw (lookup-update_all drop_slot id t.slots) (ground arith)
  Change-slot_removed d _ found off = found

  Change-delegate_removed :
      (d : DelegateState) {t v : State}
      → Change t n v
      → lookup id t.delegates ≡ some d
      → d.active ≡ false
      → lookup id v.delegates ≡ some d
  Change-delegate_removed d {t} (delegate_added c fresh _ _ _ _) found off =
      lookup_fresh c.delegate.id id c d t.delegates found fresh
  Change-delegate_removed d {t} (delegate_removed j c at on) found off =
      lookup_other j id (record c { active = false; removed_seq = n }) d t.delegates found
        (λ same. cc)
  Change-delegate_removed d {t} (rotated keep k _ _ _ _ _ _) found off =
      rw (lookup-update_all (drop_delegate n) id t.delegates) (ground arith)
  Change-delegate_removed d _ found off = found

  Change-key_removed :
      (d : SecurityKeyState) {t v : State}
      → Change t n v
      → lookup id t.security_keys ≡ some d
      → d.active ≡ false
      → lookup id v.security_keys ≡ some d
  Change-key_removed d {t} (key_added c fresh _ _ _ _) found off =
      lookup_fresh c.key.id id c d t.security_keys found fresh
  Change-key_removed d {t} (key_removed j c at on) found off =
      lookup_other j id (record c { active = false; removed_seq = n }) d t.security_keys found
        (λ same. cc)
  Change-key_removed d _ found off = found

-- What two states, the first before the second, agree on.
pub record KeepsRetired (s u : State) : Type 0 where
  pub devices :
      (id : Text) (d : DeviceState)
      → lookup id s.devices ≡ some d
      → d.status ≡ revoked
      → lookup id u.devices ≡ some d
  pub slots :
      (id : Text) (d : SlotState)
      → lookup id s.slots ≡ some d
      → d.active ≡ false
      → lookup id u.slots ≡ some d
  pub delegates :
      (id : Text) (d : DelegateState)
      → lookup id s.delegates ≡ some d
      → d.active ≡ false
      → lookup id u.delegates ≡ some d
  pub security_keys :
      (id : Text) (d : SecurityKeyState)
      → lookup id s.security_keys ≡ some d
      → d.active ≡ false
      → lookup id u.security_keys ≡ some d

-- Whatever links follow, every revoked device, and every slot, delegate and security key that is no
-- longer active, is still there unchanged: none is made active again, under the same identifier or
-- by another link.
pub steps-KeepsRetired :
    (x : External) (s : State) (es : List (Option Envelope)) (u : State)
    → IsWellFormed s
    → 0 < s.seq
    → s.seq + length es < 2 ^ 64
    → steps x s es ≡ ok u
    → KeepsRetired s u
steps-KeepsRetired x s es u wf pos small run = record {
  devices = λ id d found off.
      steps-keeps x (λ t. lookup id t.devices ≡ some d) 0
        (λ t v n _ _ _ c p. Change-revoked n id d c p off) (λ v h l p. p) s es u wf pos
        (omega arith) small run found;
  slots = λ id d found off.
      steps-keeps x (λ t. lookup id t.slots ≡ some d) 0
        (λ t v n _ _ _ c p. Change-slot_removed n id d c p off) (λ v h l p. p) s es u wf pos
        (omega arith) small run found;
  delegates = λ id d found off.
      steps-keeps x (λ t. lookup id t.delegates ≡ some d) 0
        (λ t v n _ _ _ c p. Change-delegate_removed n id d c p off) (λ v h l p. p) s es u wf pos
        (omega arith) small run found;
  security_keys = λ id d found off.
      steps-keeps x (λ t. lookup id t.security_keys ≡ some d) 0
        (λ t v n _ _ _ c p. Change-key_removed n id d c p off) (λ v h l p. p) s es u wf pos
        (omega arith) small run found;
}
