-- ===== src/Updater.antt =====
-- lib/updater: the self-update of the server. Strings are lists of bytes, and times whole seconds of
-- the Unix clock; the code keeps them in RFC 3339.
pub mod Types
pub mod Window
pub mod Policy
pub mod Schedule
pub mod Release
pub mod Decisions
pub mod State
pub mod Checking
pub mod Applying
pub mod Boot
pub mod Runs
pub mod Attempts
pub mod Triggered
pub mod Assets
pub mod Executor
