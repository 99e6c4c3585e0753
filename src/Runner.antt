-- ===== src/Runner.antt =====
-- internal/runner/runner.go: what runs a command with its secrets.
pub mod CiTrust
pub mod Forks
pub mod Environ
pub mod Child
pub mod Values
pub mod Cap
pub mod Captured
pub mod Shim
pub mod Sealed
pub mod Prepare
pub mod Contained
pub mod Filtered
pub mod Finish
pub mod Run
pub mod Delivered
pub mod Recorded
pub mod Audited
pub mod Unstopped
pub mod Stopped
mod Tests
