-- ===== src/Mcp.antt =====
-- gateway/app/mcp.py: who is calling, for which squad, and what the call may do.
pub mod Session
pub mod SmartTools
pub mod Authorize
pub mod Permission
pub mod Calls
pub mod Router
pub mod Keeps
pub mod Confined
pub mod Audited
pub mod Listing
mod Tests
