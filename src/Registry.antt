-- ===== src/Registry.antt =====
-- The registry of src/swarmbus/registry.py: records, decisions of the garbage collection, cache.
pub mod Records
pub mod Presence
pub mod Decide
pub mod Collect
pub mod Stamp
pub mod Normal
pub mod Cache
pub mod Reachable
pub mod Listing
