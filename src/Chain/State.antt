-- ===== src/Chain/State.antt =====
-- internal/chain: the state that verifying a device chain computes, and what is looked up in it.
-- A state is a value here, so `clone`, which copies one before a step changes it, has no part.
use esec_vault.Base.{
  ℕ, zero, suc, Bool, false, ◌&&◌, ◌||◌, not, Option, none, some, List, [], ◌∷◌, Text, codes, Dict,
  lookup, get_elem?, get_last?, length, leb, ltb, ◌==◌, text_eq, text_lt, if◌then◌else◌, wrap,
  rollback, Result, ok, ◌>>◌, fail_if, require_that, values_where, sort, map,
}
use esec_vault.Chain.Types.{Time, Device, Delegate, SecurityKey, Link, Status, is_active}

pub record DeviceState : Type 0 where
  pub device : Device
  pub status : Status
  pub method : Text
  pub approved_by : Text
  pub slot : Text
  pub added_seq : ℕ
  pub revoked_seq : ℕ

pub record SlotState : Type 0 where
  pub slot_id : Text
  pub ssh_key_fp : Text
  pub expires : Time
  pub ukey_version : ℕ
  pub active : Bool

pub record DelegateState : Type 0 where
  pub delegate : Delegate
  pub active : Bool
  pub added_seq : ℕ
  pub removed_seq : ℕ

pub record SecurityKeyState : Type 0 where
  pub key : SecurityKey
  pub active : Bool
  pub added : Time
  pub added_seq : ℕ
  pub removed_seq : ℕ

pub record KeyEpoch : Type 0 where
  pub version : ℕ
  pub enc_pub : Text
  pub sign_pub : Text
  pub seq : ℕ
  pub since : Time

pub record State : Type 0 where
  pub user : Text
  pub seq : ℕ
  pub hashes : List Text
  pub last_time : Time
  pub ukey_version : ℕ
  pub enc_pub : Text
  pub sign_pub : Text
  pub master_pub : Text
  pub master_sign_pub : Text
  pub devices : Dict DeviceState
  pub slots : Dict SlotState
  pub delegates : Dict DelegateState
  pub security_keys : Dict SecurityKeyState
  pub epochs : List KeyEpoch
  pub links : List Link

-- `New`
abbrev pub start : Text → State
start user = record {
  user = user;
  seq = 0;
  hashes = [];
  last_time = 31795200000000000;
  ukey_version = 0;
  enc_pub = [];
  sign_pub = [];
  master_pub = [];
  master_sign_pub = [];
  devices = [];
  slots = [];
  delegates = [];
  security_keys = [];
  epochs = [];
  links = [];
}

abbrev pub or_empty : Option Text → Text
or_empty none = []
or_empty (some h) = h

unfoldable pub head : State → Text
head s = or_empty (get_last? s.hashes)

unfoldable pub root : State → Text
root s = or_empty (get_elem? s.hashes 0)

-- The element at an index; Go panics out of range, which is `none` here.
abbrev pub same_hash : Option Text → Text → Bool
same_hash none h = false
same_hash (some g) h = text_eq g h

unfoldable pub check_pin : State → ℕ → Text → Result (Unit {0})
check_pin s zero hash = ok tt
check_pin s (suc n) hash = do
  fail_if (ltb s.seq (suc n))
      (wrap "%w: server chain has %d links, this device has seen %d" rollback)
  require_that (same_hash (get_elem? s.hashes n) hash)
      (wrap "%w: link %d differs from the one this device verified" rollback)

-- the loop of `EpochAt`, from the last epoch to the first
unfoldable pub epoch_before : ℕ → List KeyEpoch → Option KeyEpoch
epoch_before seq [] = none
epoch_before seq (k ∷ ks) = elim (epoch_before seq ks) [
  | some later ↦ some later
  | none ↦ if leb k.seq seq then some k else none
]

unfoldable pub epoch_at : State → ℕ → Option KeyEpoch
epoch_at s seq = if seq == 0 || ltb s.seq seq then none else epoch_before seq s.epochs

unfoldable pub epoch : State → ℕ → Option KeyEpoch
epoch s zero = none
epoch s (suc v) = if ltb (length s.epochs) (suc v) then none else get_elem? s.epochs v

abbrev pub by_id : DeviceState → DeviceState → Bool
by_id a b = text_lt a.device.id b.device.id

unfoldable pub active_devices : State → List DeviceState
unfolding values_where sort
active_devices s = sort by_id (values_where (λ d. is_active d.status) s.devices)

abbrev pub if_active : Option DeviceState → Option DeviceState
if_active none = none
if_active (some d) = if is_active d.status then some d else none

unfoldable pub active_device : State → Text → Option DeviceState
active_device s id = if_active (lookup id s.devices)

abbrev pub if_usable : State → Time → Option SlotState → Option SlotState
if_usable s now none = none
if_usable s now (some sl) =
    if not sl.active || not (ltb now sl.expires) || not (sl.ukey_version == s.ukey_version)
    then none
    else some sl

-- an active, unexpired slot for the current user key
unfoldable pub usable_slot : State → Text → Time → Option SlotState
usable_slot s id now = if_usable s now (lookup id s.slots)

abbrev pub if_present : ℕ → State → Option DelegateState → Option DelegateState
if_present seq s none = none
if_present seq s (some d) =
    if seq == 0
      || ltb s.seq seq
      || ltb seq d.added_seq
      || not (d.removed_seq == 0) && leb d.removed_seq seq
    then none
    else some d

-- a delegate as it was once the chain had `seq` links
unfoldable pub delegate_at : State → Text → ℕ → Option DelegateState
delegate_at s id seq = if_present seq s (lookup id s.delegates)

unfoldable pub active_delegates : State → List DelegateState
unfolding values_where
active_delegates s = values_where (λ d. d.active) s.delegates

abbrev pub by_name : SecurityKey → SecurityKey → Bool
by_name a b = if text_eq a.name b.name then text_lt a.id b.id else text_lt a.name b.name

unfoldable pub active_security_keys : State → List SecurityKey
unfolding values_where sort
active_security_keys s =
    sort by_name (map (λ k. k.key) (values_where (λ k. k.active) s.security_keys))

-- whether a delegate's scope covers the scope that a change needs
unfoldable pub delegate_allows : Text → Text → Bool
delegate_allows scope want =
    text_eq scope want || text_eq scope (codes "manage") && text_eq want (codes "remove")
