-- ===== src/ClusterState.antt =====
-- internal/clusterstate/state.go. A time is a number of nanoseconds, and 0 is Go's zero time; a
-- duration is a signed number of nanoseconds.
pub mod Laws
mod Tests
use gpu_rental_platform.Common.{
  ℕ, ◌-◌, Bool, true, false, not, ◌&&◌, ◌||◌, ◌==◌, if◌then◌else◌, min, Outcome, ok, err, failure,
  fail_if, ◌>>=◌, ◌>>◌,
}
use gpu_rental_platform.Common.Int.{ℤ, pos, ltb_ℤ, leb_ℤ, max_int64}

pub record Thresholds : Type 0 where
  pub heartbeat_interval : ℤ
  pub degraded_after : ℤ
  pub offline_after : ℤ

abbrev pub second : ℕ
second = 1000000000

unfoldable pub default_thresholds : Thresholds
default_thresholds = record {
  heartbeat_interval = pos 15000000000;
  degraded_after = pos 45000000000;
  offline_after = pos 90000000000;
}

unfoldable pub validate : Thresholds → Outcome (Unit {0})
validate t = do
  fail_if (leb_ℤ t.heartbeat_interval (pos 0))
      (failure "agent heartbeat interval must be greater than zero")
  fail_if (leb_ℤ t.degraded_after t.heartbeat_interval)
      (failure "agent degraded threshold must be greater than heartbeat interval")
  fail_if (leb_ℤ t.offline_after t.degraded_after)
      (failure "agent offline threshold must be greater than degraded threshold")

pub data ConnectionState : Type 0 where
  connected degraded offline : ConnectionState

pub record Signals : Type 0 where
  pub now : ℕ
  pub last_heartbeat_at : ℕ
  pub last_inventory_at : ℕ
  pub manually_schedulable : Bool
  pub execution_healthy : Bool
  pub fenced : Bool

pub record Status : Type 0 where
  pub connection_state : ConnectionState
  pub is_connected : Bool
  pub schedulable : Bool
  pub inventory_fresh : Bool
  pub execution_healthy : Bool

-- `time.Time.IsZero`
abbrev pub is_zero : ℕ → Bool
is_zero t = t == 0

-- `now.Sub(observedAt)` stops at the largest duration; a negative age counts as 0.
unfoldable pub elapsed : ℕ → ℕ → ℕ
elapsed now observed_at = min (now - observed_at) max_int64

unfoldable pub connection_state : ℕ → Bool → Thresholds → ConnectionState
connection_state age missing t =
    if missing || ltb_ℤ t.offline_after (pos age)
    then offline
    else if ltb_ℤ t.degraded_after (pos age)
    then degraded
    else connected

abbrev is_connected_state : ConnectionState → Bool
is_connected_state connected = true
is_connected_state _ = false

-- `Evaluate`, when the thresholds and the time are accepted
status_of : Signals → Thresholds → Status
unfolding connection_state elapsed
status_of s t =
    let state =
      connection_state (elapsed s.now s.last_heartbeat_at) (is_zero s.last_heartbeat_at) t in
    let fresh =
      not (is_zero s.last_inventory_at)
      && leb_ℤ (pos (elapsed s.now s.last_inventory_at)) t.degraded_after in
    let up = is_connected_state state in
    record {
      connection_state = state;
      is_connected = up;
      schedulable = s.manually_schedulable && up && fresh && s.execution_healthy && not s.fenced;
      inventory_fresh = fresh;
      execution_healthy = s.execution_healthy;
    }

unfoldable pub evaluate : Signals → Thresholds → Outcome Status
unfolding validate status_of
evaluate s t = do
  validate t
  fail_if (is_zero s.now) (failure "evaluation time is required")
  ok (status_of s t)
