-- ===== src/Workspace/Runner.antt =====
-- The runner of internal/workspace/runner.go over the outbox: `NewRunner` and `process`, and the same
-- wait in internal/sharedisolation/runner.go. `Reconcile` is here its result, `none` or the text of its
-- error. An error of the outbox is logged, and leaves the table as it is.
use gpu_rental_platform.Common.{
  ℕ, ◌-◌, ◌*◌, ◌^◌, min, String, Bool, ◌&&◌, ◌||◌, Option, none, some, if◌then◌else◌, str_eq,
  Outcome, ok, err, failure, fail_if, ◌>>◌,
}
use gpu_rental_platform.Common.Int.{ℤ, pos, ltb_ℤ, leb_ℤ, pos_part}
use gpu_rental_platform.Common.Text.{◌+++◌}
use gpu_rental_platform.Workspace.{RunnerConfig, retry_backoff, second}
use gpu_rental_platform.Storage.Db.{Event}
use gpu_rental_platform.Storage.Outbox.{Events, mark_delivered, mark_failed, mark_dead_lettered}

-- `NewRunner`: the configuration that it keeps
unfoldable pub new_runner : RunnerConfig → Outcome RunnerConfig
new_runner config = do
  fail_if
      (str_eq config.worker_id ""
        || leb_ℤ config.poll_interval (pos 0)
        || leb_ℤ config.reconcile_timeout config.poll_interval)
      (failure "workspace runner configuration is invalid")
  let kept =
      if leb_ℤ config.max_attempts (pos 0) && leb_ℤ (pos 0) config.max_attempts
      then record config { max_attempts = pos 8 }
      else config
  fail_if (ltb_ℤ kept.max_attempts (pos 1))
      (failure "workspace maximum attempts must be greater than zero")
  ok kept

-- The worker of a type of events
abbrev pub worker_of : RunnerConfig → String → String
worker_of config event_type = config.worker_id +++ ":" +++ event_type

-- The table after a statement
unfoldable pub after_mark : Events → Outcome Events → Events
after_mark es (ok marked) = marked
after_mark es (err _) = es

unfoldable pub is_terminal : RunnerConfig → Event → Bool
is_terminal config event = leb_ℤ config.max_attempts (pos event.attempts)

-- `process`
unfoldable pub process : RunnerConfig → String → Event → Option String → ℕ → Events → Events
unfolding after_mark is_terminal
process config event_type event none now es =
    after_mark es
      (mark_delivered event.id (worker_of config event_type) (pos event.attempts) now es)
process config event_type event (some error) now es =
    if is_terminal config event
    then after_mark es (
        mark_dead_lettered event.id (worker_of config event_type) (pos event.attempts) error now es)
    else after_mark es (
        mark_failed event.id (worker_of config event_type) (pos event.attempts) error
          (pos (retry_backoff (pos event.attempts))) now es)

-- `retryBackoff` of internal/sharedisolation/runner.go
unfoldable pub shared_retry_backoff : ℤ → ℕ
shared_retry_backoff attempt =
    let attempt' = if ltb_ℤ attempt (pos 1) then 1 else pos_part attempt in
    2 ^ min (attempt' - 1) 5 * second
