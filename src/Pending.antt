-- ===== src/Pending.antt =====
-- internal/pending/pending.go: the proposals of agents that wait for a human, and the handler of
-- mcp/server.go that makes them.
pub mod Store
pub mod Kept
pub mod Propose
pub mod Staged
mod Tests
