-- ===== src/Tests.antt =====
-- Runs of the program on small inputs, and the theorems at such inputs.
pub mod Toy
pub mod Envelopes
pub mod Chain
pub mod Project
pub mod Team
pub mod Mask
pub mod Fleet
pub mod Group
pub mod Leavers
pub mod Ids
