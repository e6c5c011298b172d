-- ===== src/Routing.antt =====
-- Routing of tool calls from MCP sessions to desktop devices: src/cloud-routing-contract.ts and
-- src/cloud-routing-store.ts.
pub mod Contract
pub mod Store
pub mod Keys
pub mod Crossing
mod Tests
