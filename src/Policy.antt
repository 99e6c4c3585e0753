-- ===== src/Policy.antt =====
-- internal/policy: the policy file, its validation, and what it allows.
pub mod Document
pub mod Paths
pub mod Names
pub mod Parse
pub mod Commands
pub mod Shells
pub mod Distinct
pub mod WellFormed
pub mod Aliases
pub mod Sound
pub mod Validated
pub mod Binding
pub mod Lint
pub mod Reviewed
mod Tests
