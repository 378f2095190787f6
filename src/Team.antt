-- ===== src/Team.antt =====
-- internal/team: a project's chain, which says who may read which environment keys of the project.
pub mod Types
pub mod Valid
pub mod Oidc
pub mod External
pub mod State
pub mod Access
pub mod Envs
pub mod Delegate
pub mod Signer
pub mod Members
pub mod Machines
pub mod Groups
pub mod Step
pub mod Frame
pub mod Change
pub mod Admins
pub mod Scope
pub mod Signed
pub mod Exposed
pub mod Order
pub mod Archived
pub mod Bounds
pub mod Keys
