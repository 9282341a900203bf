-- ===== src/ClusterState/Laws.antt =====
-- When a cluster is connected and schedulable, and how its state ages.
use gpu_rental_platform.Common.{
  ℕ, ◌≤◌, ◌≡◌, ◌≢◌, ◌↔◌, Bool, true, false, arith, ok, ◌==◌, Outcome-cases, inl, inr,
}
use gpu_rental_platform.Common.Int.{ℤ, pos, ◌≤ℤ◌}
use gpu_rental_platform.ClusterState.{
  Thresholds, validate, ConnectionState, connected, degraded, offline, Signals, Status, elapsed,
  connection_state, status_of, evaluate,
}

-- 0 < heartbeat interval < degraded threshold < offline threshold
abbrev pub IsOrdered : Thresholds → Type 0
IsOrdered t =
    ¬ (t.heartbeat_interval ≤ℤ pos 0)
    × ¬ (t.degraded_after ≤ℤ t.heartbeat_interval)
    × ¬ (t.offline_after ≤ℤ t.degraded_after)

-- A signal was seen, and at most `limit` nanoseconds ago.
abbrev pub IsRecent : ℕ → ℕ → ℤ → Type 0
IsRecent now at limit = (at ≢ 0) × (pos (elapsed now at) ≤ℤ limit)

validate_iff : (t : Thresholds) → (validate t ≡ ok tt) ↔ IsOrdered t
unfolding validate
validate_iff t = (λ h. ground arith, λ h. ground arith)

-- `Evaluate` succeeds exactly if the thresholds are in order and the time is given.
pub evaluate_succeeds_iff :
    (s : Signals) (t : Thresholds)
    → ((st : Status) × (evaluate s t ≡ ok st)) ↔ (IsOrdered t × (s.now ≢ 0))
unfolding evaluate
evaluate_succeeds_iff s t = (
  λ r. ground (arith, r.1, (validate_iff t).0),
  λ r. (status_of s t, ground (arith, (validate_iff t).1 r.0)),
)

-- What a successful call has checked, and what it returns.
evaluate-eq :
    (s : Signals) (t : Thresholds) (st : Status)
    → evaluate s t ≡ ok st
    → IsOrdered t × (s.now ≢ 0) × (status_of s t ≡ st)
unfolding evaluate
evaluate-eq s t st h = elim (Outcome-cases (validate t)) [
  | inl (u, e) ↦ ground (arith, (validate_iff t).0 e)
  | inr (x, e) ↦ ground arith
]

connection_state-connected_iff :
    (age : ℕ) (missing : Bool) (t : Thresholds)
    → IsOrdered t
    → (connection_state age missing t ≡ connected)
      ↔ ((missing ≡ false) × (pos age ≤ℤ t.degraded_after))
unfolding connection_state
connection_state-connected_iff age missing t o = (λ h. ground arith, λ h. ground arith)

status_of-schedulable_iff :
    (s : Signals) (t : Thresholds)
    → IsOrdered t
    → ((status_of s t).schedulable ≡ true) ↔ (
        (s.manually_schedulable ≡ true)
        × IsRecent s.now s.last_heartbeat_at t.degraded_after
        × IsRecent s.now s.last_inventory_at t.degraded_after
        × (s.execution_healthy ≡ true)
        × (s.fenced ≡ false))
unfolding status_of
status_of-schedulable_iff s t o =
    let rule =
      connection_state-connected_iff (elapsed s.now s.last_heartbeat_at) (s.last_heartbeat_at == 0)
        t o in
    (λ h. ground (arith, rule.0), λ h. ground (arith, rule.1))

-- In what `Evaluate` returns, the cluster is schedulable exactly if it is switched on by hand, its
-- last heartbeat and its last inventory are no older than the degraded threshold, it executes
-- work, and it is not fenced.
pub evaluate-schedulable_iff :
    (s : Signals) (t : Thresholds) (st : Status)
    → evaluate s t ≡ ok st
    → (st.schedulable ≡ true) ↔ (
        (s.manually_schedulable ≡ true)
        × IsRecent s.now s.last_heartbeat_at t.degraded_after
        × IsRecent s.now s.last_inventory_at t.degraded_after
        × (s.execution_healthy ≡ true)
        × (s.fenced ≡ false))
evaluate-schedulable_iff s t st h =
    let (o, _, same) = evaluate-eq s t st h in rw (← same) (status_of-schedulable_iff s t o)

abbrev pub severity : ConnectionState → ℕ
severity connected = 0
severity degraded = 1
severity offline = 2

connection_state-severity_mono :
    (age age' : ℕ) (missing : Bool) (t : Thresholds)
    → IsOrdered t
    → age ≤ age'
    → severity (connection_state age missing t) ≤ severity (connection_state age' missing t)
unfolding connection_state
connection_state-severity_mono age age' missing t o le = ground arith

elapsed_mono : (now later at : ℕ) → now ≤ later → elapsed now at ≤ elapsed later at
unfolding elapsed
elapsed_mono now later at le = omega arith

-- While no new heartbeat comes in, the connection state only gets worse.
pub evaluate-severity_mono :
    (s : Signals) (t : Thresholds) (later : ℕ) (st st' : Status)
    → s.now ≤ later
    → evaluate s t ≡ ok st
    → evaluate (record s { now = later }) t ≡ ok st'
    → severity st.connection_state ≤ severity st'.connection_state
unfolding status_of
evaluate-severity_mono s t later st st' le h k =
    let (o, _, same) = evaluate-eq s t st h in
    let (_, _, same') = evaluate-eq (record s { now = later }) t st' k in
    rw (← same, ← same')
      (connection_state-severity_mono (elapsed s.now s.last_heartbeat_at)
        (elapsed later s.last_heartbeat_at) (s.last_heartbeat_at == 0) t o
        (elapsed_mono s.now later s.last_heartbeat_at le))
