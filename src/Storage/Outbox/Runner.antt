-- ===== src/Storage/Outbox/Runner.antt =====
-- What becomes of a claimed event: the runner of internal/workspace/runner.go over the outbox.
use gpu_rental_platform.Common.{
  ap, min, ◌^◌, ◌-◌, ltb, if◌then◌else◌, ◌≡◌, ℕ, ◌*◌, ◌≤◌, String, true, false, Row, arith,
}
use gpu_rental_platform.Common.Int.{ℤ, pos, pos_part, ltb_ℤ}
use gpu_rental_platform.Common.Text.{is_blank}
use gpu_rental_platform.Identity.{is_uuid}
use gpu_rental_platform.Storage.Db.{Event}
use gpu_rental_platform.Storage.Outbox.{Events, holds_lease}
use gpu_rental_platform.Workspace.{RunnerConfig, retry_backoff, second}
use gpu_rental_platform.Workspace.Runner.{worker_of, shared_retry_backoff}

-- The event as the runner holds it: claimed by it, with a lease that still lasts.
pub record IsHeld (config : RunnerConfig) (event_type : String) (now : ℕ) (e : Event) (es : Events)
    : Type 0 where
  pub stands : Row e es
  pub uuid : is_uuid e.id ≡ true
  pub counted : 1 ≤ e.attempts
  pub named : is_blank (worker_of config event_type) ≡ false
  pub held : holds_lease e.id (worker_of config event_type) (pos e.attempts) now e ≡ true

-- Both runners wait for the same time after every number of attempts.
pub retry_backoffs_agree : (attempt : ℤ) → shared_retry_backoff attempt ≡ retry_backoff attempt
unfolding shared_retry_backoff retry_backoff
retry_backoffs_agree attempt =
    let attempt' = if ltb_ℤ attempt (pos 1) then 1 else pos_part attempt in
    let exponents : min (attempt' - 1) 5 ≡ (if ltb 5 (attempt' - 1) then 5 else attempt' - 1) =
      ground arith in
    ap (λ n. 2 ^ n * second) exponents
