-- ===== src/Policy.antt =====
-- src/roots.ts and src/native-agent-policy.ts: which paths are inside a root, and which commands a
-- native agent may run. What node gives (`node:path`, `homedir`, `process.execPath`) and
-- `toLowerCase` are fields of `Platform`.
pub mod Roots
pub mod Commands
mod Tests
