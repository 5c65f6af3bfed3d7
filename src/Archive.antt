-- ===== src/Archive.antt =====
-- src/swarmbus/archive.py: the hold store, which decides whether a message may be delivered.
pub mod Rows
pub mod Caps
pub mod Bucket
pub mod Statements
pub mod Stub
pub mod Admit
pub mod Store
pub mod Inbox
pub mod Reports
pub mod Compat
