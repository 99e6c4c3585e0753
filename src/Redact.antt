-- ===== src/Redact.antt =====
-- internal/redact/redact.go: the streaming writer that replaces registered secrets.
pub mod Match
pub mod Index
pub mod Writer
pub mod Window
pub mod Pieces
pub mod Stream
pub mod Scan
pub mod Reindex
pub mod Refines
pub mod Literals
pub mod Tiers
pub mod Safety
pub mod Bounds
pub mod Encodings
pub mod Escapes
pub mod Base64
pub mod Cores
pub mod Forms
pub mod Shapes
pub mod Listed
pub mod Registered
mod Tests
