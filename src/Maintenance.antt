-- ===== src/Maintenance.antt =====
-- Registry maintenance (src/swarmbus/maintenance.py).
pub mod Snapshot
pub mod Report
pub mod Gc
pub mod Orphans
pub mod Collect
pub mod Forget
pub mod Listing
