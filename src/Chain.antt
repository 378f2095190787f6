-- ===== src/Chain.antt =====
-- internal/chain: a user's device chain.
pub mod Types
pub mod State
pub mod Valid
pub mod External
pub mod Delegates
pub mod SecurityKeys
pub mod Devices
pub mod Step
pub mod Frame
pub mod Invariant
pub mod Change
pub mod WellFormed
pub mod Runs
pub mod Epochs
pub mod DelegateHistory
pub mod Retired
pub mod Rotation
pub mod Effect
pub mod Applied
pub mod Signed
pub mod Same
pub mod History
pub mod Pin
pub mod Names
