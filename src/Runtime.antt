-- ===== src/Runtime.antt =====
-- The runtime of the MCP server (src/swarmbus/runtime.py).
pub mod State
pub mod Commit
pub mod Handle
pub mod Send
