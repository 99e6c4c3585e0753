-- ===== src/Access.antt =====
-- internal/access/access.go: agent requests, command leases and workspace grants.
pub mod State
pub mod Reason
pub mod Store
pub mod Requests
pub mod Resolution
pub mod Leases
pub mod Workspace
pub mod Update
pub mod Find
pub mod Step
pub mod Calls
pub mod Resolve
pub mod Backed
pub mod History
pub mod Authorize
pub mod Final
pub mod Pending
pub mod Revoked
mod Tests
