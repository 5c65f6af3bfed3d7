-- ===== src/Message.antt =====
-- src/swarmbus/message.py: rendering of peer text, agent ids, and the envelope.
pub mod Unicode
pub mod Sanitize
pub mod Frame
pub mod AgentId
pub mod Json
pub mod Envelope
