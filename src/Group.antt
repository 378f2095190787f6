-- ===== src/Group.antt =====
-- internal/team/group.go: the signed chain of a group of machines and people.
pub mod Types
pub mod External
pub mod State
pub mod People
pub mod Valid
pub mod Creds
pub mod Persons
pub mod Step
pub mod Change
pub mod Frame
pub mod Admins
pub mod Counted
pub mod Rekey
pub mod Keys
pub mod Reuse
pub mod Named
pub mod Exposed
pub mod Removal
pub mod Vouched
pub mod Signed
pub mod Limits
pub mod Grants
pub mod Granted
pub mod InProject
pub mod Listed
pub mod Leavers
pub mod Ids
pub mod Distinct
