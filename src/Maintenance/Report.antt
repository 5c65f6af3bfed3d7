-- ===== src/Maintenance/Report.antt =====
-- `RegistryGCReport` and `_orphan_resolved` of src/swarmbus/maintenance.py. `preserved_by_reason` gives the count of
-- each reason.
use swarmbus.Base.{ℕ, ◌+◌, Bool, List, Text}
use swarmbus.Registry.Decide.{GcReason}

pub record GcReport : Type 0 where
  pub dry_run : Bool
  pub scanned : ℕ
  pub orphan_presence : ℕ
  pub orphan_online : ℕ
  pub orphan_stamped : ℕ
  pub orphan_waiting : ℕ
  pub orphan_collected : ℕ
  pub orphan_would_stamp : ℕ
  pub orphan_would_collect : ℕ
  pub orphan_skipped : ℕ
  pub orphan_failed : ℕ
  pub orphan_deferred : ℕ
  pub eligible : ℕ
  pub selected : ℕ
  pub online : ℕ
  pub retained : ℕ
  pub skipped : ℕ
  pub raced : ℕ
  pub malformed : ℕ
  pub deleted : ℕ
  pub sessions_destroyed : ℕ
  pub sessions_preserved : ℕ
  pub would_delete : ℕ
  pub disappeared : ℕ
  pub failed : ℕ
  pub partial : ℕ
  pub preserved_by_reason : GcReason → ℕ
  pub deleted_agent_ids : List Text
  pub would_delete_agent_ids : List Text
  pub failed_agent_ids : List Text
  pub orphan_stamped_agent_ids : List Text
  pub orphan_collected_agent_ids : List Text

-- The selected records that have been dealt with.
abbrev pub resolved : GcReport → ℕ
resolved r = r.deleted + r.would_delete + r.skipped

-- `_orphan_resolved`
abbrev pub orphan_resolved : GcReport → ℕ
orphan_resolved r =
    r.orphan_online + r.orphan_stamped + r.orphan_waiting + r.orphan_collected
    + r.orphan_would_stamp + r.orphan_would_collect + r.orphan_skipped
