-- ===== src/Broker.antt =====
-- crates/aos-mcp-broker: the MCP broker.
pub mod Glob
pub mod Kv
pub mod Cache
pub mod Discovery
pub mod Slices
pub mod Approval
pub mod HookGate
pub mod Consent
pub mod Messages
pub mod Respond
pub mod Dispatch
pub mod Call
pub mod History
mod Fixtures
mod Tests
pub mod Policy
pub mod Topics
