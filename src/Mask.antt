-- ===== src/Mask.antt =====
-- internal/runcmd/mask.go: masking secret values in a command's output.
pub mod Replacer
pub mod Writer
pub mod Hidden
pub mod Lines
pub mod Drained
pub mod Fits
pub mod Whole
pub mod Settled
