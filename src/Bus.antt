-- ===== src/Bus.antt =====
-- The bus of an agent (src/swarmbus/bus.py).
pub mod Listen
pub mod Reconnect
pub mod Agents
pub mod Inbox
pub mod Outbox
