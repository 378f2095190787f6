-- ===== src/Chain/Change.antt =====
-- What an accepted link changes, one constructor for each link type after the first link: the
-- abstract view of `apply`, in which signatures, encodings and the checks of texts are gone.
pub mod Refines
pub mod Keeps
use esec_vault.Base.{
  ℕ, ◌+◌, ◌%◌, ◌^◌, ◌<◌, ◌≡◌, ◌≢◌, Bool, true, false, Option, none, some, List, [], ◌∷◌, ◌++◌, Text,
  lookup, insert, update_all, any_value, count_values,
}
use esec_vault.Chain.Types.{active, revoked, max_delegates, max_security_keys}
use esec_vault.Chain.State.{
  State, DeviceState, SlotState, DelegateState, SecurityKeyState, KeyEpoch,
}
use esec_vault.Chain.Devices.{shares_key}
use esec_vault.Chain.Step.{all_kept, drop_device, drop_slot, drop_delegate}

-- the state with a new user key, for the devices that are kept
abbrev pub rotate_to : State → ℕ → List Text → KeyEpoch → State
rotate_to s seq keep epoch = record s {
  devices = update_all (drop_device seq keep) s.devices;
  slots = update_all drop_slot s.slots;
  delegates = update_all (drop_delegate seq) s.delegates;
  ukey_version = epoch.version;
  enc_pub = epoch.enc_pub;
  sign_pub = epoch.sign_pub;
  epochs = s.epochs ++ epoch ∷ [];
}

pub data Change (s : State) (seq : ℕ) : State → Type 0 where
  device_added :
      (d : DeviceState)
      → lookup d.device.id s.devices ≡ none
      → any_value (shares_key d.device) s.devices ≡ false
      → d.status ≡ active
      → d.added_seq ≡ seq
      → d.revoked_seq ≡ 0
      → Change s seq (record s { devices = insert d.device.id d s.devices })
  device_revoked :
      (id : Text) (d : DeviceState)
      → lookup id s.devices ≡ some d
      → d.status ≡ active
      → Change s seq (record s {
        devices = insert id (record d { status = revoked; revoked_seq = seq }) s.devices;
      })
  device_renamed :
      (id name : Text) (d : DeviceState)
      → lookup id s.devices ≡ some d
      → d.status ≡ active
      → Change s seq (record s {
        devices = insert id (record d { device = record d.device { name = name } }) s.devices;
      })
  slot_added :
      (sl : SlotState)
      → lookup sl.slot_id s.slots ≡ none
      → sl.ukey_version ≡ s.ukey_version
      → sl.active ≡ true
      → Change s seq (record s { slots = insert sl.slot_id sl s.slots })
  slot_removed :
      (id : Text) (sl : SlotState)
      → lookup id s.slots ≡ some sl
      → sl.active ≡ true
      → Change s seq (record s { slots = insert id (record sl { active = false }) s.slots })
  delegate_added :
      (d : DelegateState)
      → lookup d.delegate.id s.delegates ≡ none
      → count_values (λ o. o.active) s.delegates < max_delegates
      → d.active ≡ true
      → d.added_seq ≡ seq
      → d.removed_seq ≡ 0
      → Change s seq (record s { delegates = insert d.delegate.id d s.delegates })
  delegate_removed :
      (id : Text) (d : DelegateState)
      → lookup id s.delegates ≡ some d
      → d.active ≡ true
      → Change s seq (record s {
        delegates = insert id (record d { active = false; removed_seq = seq }) s.delegates;
      })
  key_added :
      (k : SecurityKeyState)
      → lookup k.key.id s.security_keys ≡ none
      → count_values (λ o. o.active) s.security_keys < max_security_keys
      → k.active ≡ true
      → k.added_seq ≡ seq
      → k.removed_seq ≡ 0
      → Change s seq (record s { security_keys = insert k.key.id k s.security_keys })
  key_removed :
      (id : Text) (k : SecurityKeyState)
      → lookup id s.security_keys ≡ some k
      → k.active ≡ true
      → Change s seq (record s {
        security_keys = insert id (record k { active = false; removed_seq = seq }) s.security_keys;
      })
  rotated :
      (keep : List Text) (epoch : KeyEpoch)
      → all_kept s [] keep ≡ true
      → keep ≢ []
      → epoch.enc_pub ≢ s.enc_pub
      → epoch.sign_pub ≢ s.sign_pub
      → epoch.version ≡ (s.ukey_version + 1) % 2 ^ 64
      → epoch.seq ≡ seq
      → Change s seq (rotate_to s seq keep epoch)
