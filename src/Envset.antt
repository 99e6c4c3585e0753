-- ===== src/Envset.antt =====
-- internal/envset/manager.go: the environment sets of a project.
pub mod Sets
pub mod Manager
pub mod Entries
pub mod Apart
pub mod Sequences
pub mod Histories
pub mod Dotenv
pub mod Imported
mod Tests
