-- ===== src/Chain/Invariant.antt =====
-- What holds of every state that the verifier reaches.
use esec_vault.Base.{
  ℕ, suc, Option, none, some, get_last?, ◌≤◌, ◌<◌, ◌≡◌, Bool, true, false, List, [], ◌∷◌, Text,
  Entries, length, count_values,
}
use esec_vault.Chain.Types.{Status, active, revoked, max_delegates, max_security_keys}
use esec_vault.Chain.State.{
  start, State, DeviceState, SlotState, DelegateState, SecurityKeyState, KeyEpoch,
}

-- `removed_seq` is set exactly when the entry is no longer active, to a later position.
abbrev pub IsRemoval : Bool → ℕ → ℕ → ℕ → Type 0
IsRemoval true added removed seq = removed ≡ 0
IsRemoval false added removed seq = (added < removed) × (removed ≤ seq)

abbrev pub not_revoked : Status → Bool
not_revoked active = true
not_revoked revoked = false

abbrev pub DeviceAt : ℕ → Text → DeviceState → Type 0
DeviceAt seq id d =
    (d.device.id ≡ id)
    × (0 < d.added_seq)
    × (d.added_seq ≤ seq)
    × IsRemoval (not_revoked d.status) d.added_seq d.revoked_seq seq

-- An active slot is for the current user key.
abbrev pub SlotAt : ℕ → Text → SlotState → Type 0
SlotAt version id sl = (sl.slot_id ≡ id) × (sl.active ≡ true → sl.ukey_version ≡ version)

abbrev pub DelegateAt : ℕ → Text → DelegateState → Type 0
DelegateAt seq id d =
    (d.delegate.id ≡ id)
    × (0 < d.added_seq)
    × (d.added_seq ≤ seq)
    × IsRemoval d.active d.added_seq d.removed_seq seq

abbrev pub SecurityKeyAt : ℕ → Text → SecurityKeyState → Type 0
SecurityKeyAt seq id k =
    (k.key.id ≡ id)
    × (0 < k.added_seq)
    × (k.added_seq ≤ seq)
    × IsRemoval k.active k.added_seq k.removed_seq seq

pub record HasEntries (seq : ℕ) (s : State) : Type 0 where
  pub devices : Entries (DeviceAt seq) s.devices
  pub slots : Entries (SlotAt s.ukey_version) s.slots
  pub delegates : Entries (DelegateAt seq) s.delegates
  pub security_keys : Entries (SecurityKeyAt seq) s.security_keys
  pub few_delegates : count_values (λ d. d.active) s.delegates ≤ max_delegates
  pub few_security_keys : count_values (λ k. k.active) s.security_keys ≤ max_security_keys

-- The epochs count their versions up from `version`, at positions that grow from above `low` to at
-- most `high`.
abbrev pub Epochs : ℕ → ℕ → ℕ → List KeyEpoch → Type 0
Epochs version low high [] = low ≤ high
Epochs version low high (k ∷ ks) =
    (k.version ≡ version) × (low < k.seq) × Epochs (suc version) k.seq high ks

-- the last epoch has the current user key
abbrev pub IsCurrent : State → Option KeyEpoch → Type 0
IsCurrent s none = ⊥
IsCurrent s (some k) =
    (k.enc_pub ≡ s.enc_pub) × (k.sign_pub ≡ s.sign_pub) × (k.version ≡ s.ukey_version)

abbrev pub StartsAt : ℕ → List KeyEpoch → Type 0
StartsAt seq [] = ⊥
StartsAt seq (k ∷ ks) = k.seq ≡ seq

-- The part of the invariant that is about the epochs.
pub record HasEpochs (seq : ℕ) (s : State) : Type 0 where
  pub epochs : Epochs 1 0 seq s.epochs
  pub epochs_length : length s.epochs ≡ s.ukey_version
  pub first : StartsAt 1 s.epochs
  pub current : IsCurrent s (get_last? s.epochs)

pub record IsWellFormed (s : State) : Type 0 where
  pub hashes_length : length s.hashes ≡ s.seq
  pub links_length : length s.links ≡ s.seq
  pub entries : HasEntries s.seq s
  pub epochs : 0 < s.seq → HasEpochs s.seq s
  pub blank : s.seq ≡ 0 → s ≡ start s.user
