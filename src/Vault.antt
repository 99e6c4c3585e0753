-- ===== src/Vault.antt =====
-- internal/vault/store.go: the encrypted store of a project's values.
pub mod Document
pub mod Sealing
pub mod Store
pub mod Reopened
pub mod Changed
pub mod Kept
pub mod Changes
pub mod Revision
mod Tests
