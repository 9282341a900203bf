-- ===== src/ClusterState/Tests.antt =====
-- The cases of state_test.go, and witnesses.
use gpu_rental_platform.Common.{◌≡◌, ◌↔◌, refl, true, false, ok}
use gpu_rental_platform.ClusterState.{
  connected, degraded, offline, Signals, Status, default_thresholds, evaluate, connection_state,
}
use gpu_rental_platform.ClusterState.Laws.{IsRecent, evaluate-schedulable_iff}

-- A heartbeat and an inventory from 15 seconds ago.
abbrev healthy : Signals
healthy = record {
  now = 1000000000000;
  last_heartbeat_at = 985000000000;
  last_inventory_at = 985000000000;
  manually_schedulable = true;
  execution_healthy = true;
  fenced = false;
}

abbrev healthy_status : Status
healthy_status = record {
  connection_state = connected;
  is_connected = true;
  schedulable = true;
  inventory_fresh = true;
  execution_healthy = true;
}

healthy-status : evaluate healthy default_thresholds ≡ ok healthy_status
unfolding evaluate default_thresholds
healthy-status = refl

-- 60 seconds after the heartbeat the same signals are degraded, and the inventory is stale.
abbrev degraded_status : Status
degraded_status = record {
  connection_state = degraded;
  is_connected = false;
  schedulable = false;
  inventory_fresh = false;
  execution_healthy = true;
}

degraded-status :
    evaluate (record healthy { now = 1045000000000 }) default_thresholds ≡ ok degraded_status
unfolding evaluate default_thresholds
degraded-status = refl

offline_after_91_seconds : connection_state 91000000000 false default_thresholds ≡ offline
unfolding connection_state default_thresholds
offline_after_91_seconds = refl

evaluate-schedulable_iff_example : (healthy_status.schedulable ≡ true) ↔ (
    (healthy.manually_schedulable ≡ true)
    × IsRecent healthy.now healthy.last_heartbeat_at default_thresholds.degraded_after
    × IsRecent healthy.now healthy.last_inventory_at default_thresholds.degraded_after
    × (healthy.execution_healthy ≡ true)
    × (healthy.fenced ≡ false))
evaluate-schedulable_iff_example =
    evaluate-schedulable_iff healthy default_thresholds healthy_status healthy-status
