-- ===== src/Audit.antt =====
-- internal/audit/audit.go: the append-only log whose records form a hash chain.
pub mod Entry
pub mod Log
pub mod Scrub
pub mod Logger
pub mod Lines
pub mod Tail
pub mod Intact
pub mod Tamper
mod Tests
