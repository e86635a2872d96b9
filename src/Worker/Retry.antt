-- ===== src/Worker/Retry.antt =====
-- What becomes of a failed job, over every run of the system.
pub mod Rows
pub mod Keeps
pub mod Invariant
pub mod Creation
pub mod Never
