-- ===== src/Storage/Outbox.antt =====
-- The outbox of internal/storage/postgres/repository.go. `now` is the clock of the database. Each
-- call is one statement, so calls of several workers are steps in some order. `Claim` returns the
-- rows in the order of the table: the statement's RETURNING promises none.
pub mod Laws
pub mod Steps
pub mod Held
pub mod Fencing
pub mod Runner
mod Tests
use Prim.Native.Nat.{compare, Ordering}
use Prim.Native.String
use gpu_rental_platform.Common.{
  ℕ, zero, suc, ◌+◌, ◌*◌, ◌/◌, String, Bool, true, false, not, ◌&&◌, ◌||◌, Option, none, some, List,
  [], ◌∷◌, ltb, leb, ◌==◌, if◌then◌else◌, str_eq, is_some, any, select, update, length, Outcome, ok,
  err, not_found, failure, fail_if, ◌>>=◌, ◌>>◌,
}
use gpu_rental_platform.Common.Int.{ℤ, pos, pos_part, ltb_ℤ, leb_ℤ}
use gpu_rental_platform.Common.Text.{is_blank, to_lower, len}
use gpu_rental_platform.Identity.{is_uuid}
use gpu_rental_platform.Storage.Db.{Event}

abbrev pub Events : Type 0
Events = List Event

abbrev pub millisecond : ℕ
millisecond = 1000000

pub record ClaimParams : Type 0 where
  pub worker_id : String
  pub event_type : String
  pub limit : ℤ
  pub lease_duration : ℤ

-- `d.Milliseconds()` and back, in nanoseconds, for a positive duration
abbrev pub whole_milliseconds : ℤ → ℕ
whole_milliseconds d = pos_part d / millisecond * millisecond

-- `locked_until IS NULL OR locked_until <= now()`
abbrev pub is_unlocked : Option ℕ → ℕ → Bool
is_unlocked none now = true
is_unlocked (some until) now = leb until now

-- The WHERE clause of `Claim`.
unfoldable pub is_claimable : String → ℕ → Event → Bool
is_claimable event_type now e =
    not (is_some e.delivered_at)
    && not (is_some e.dead_lettered_at)
    && leb e.available_at now
    && is_unlocked e.locked_until now
    && (str_eq event_type "" || str_eq e.event_type event_type)

-- ORDER BY available_at, occurred_at, id
comes_before : Event → Event → Bool
comes_before a b = elim (compare a.available_at b.available_at) [
  | Ordering.lt ↦ true
  | Ordering.gt ↦ false
  | Ordering.eq ↦ elim (compare a.occurred_at b.occurred_at) [
    | Ordering.lt ↦ true
    | Ordering.gt ↦ false
    | Ordering.eq ↦ elim (String.compare a.id b.id) [ Ordering.gt ↦ false | _ ↦ true ]
  ]
]

place : Event → Events → Events
unfolding comes_before
place e [] = e ∷ []
place e (x ∷ xs) = if comes_before e x then e ∷ x ∷ xs else x ∷ place e xs

sort : Events → Events
unfolding place
sort [] = []
sort (e ∷ es) = place e (sort es)

-- LIMIT n
take : ℕ → Events → Events
take zero es = []
take (suc n) [] = []
take (suc n) (e ∷ es) = e ∷ take n es

unfoldable pub candidates : String → ℕ → ℕ → Events → Events
unfolding is_claimable sort take
candidates event_type limit now es = take limit (sort (select (is_claimable event_type now) es))

-- `event.id = candidates.id`
unfoldable pub is_among : Events → Event → Bool
is_among chosen e = any (λ c. str_eq c.id e.id) chosen

unfoldable pub lease : String → ℕ → Event → Event
lease worker until e = record e {
  locked_by = some worker;
  locked_until = some until;
  attempts = e.attempts + 1;
}

-- `Claim`: the table after it, and the claimed events.
unfoldable pub claim : ClaimParams → ℕ → Events → Outcome (Events × Events)
unfolding candidates is_among lease
claim p now es = do
  fail_if (is_blank p.worker_id) (failure "outbox worker ID is required")
  fail_if (ltb 255 (len p.event_type))
      (failure "outbox event type must contain at most 255 characters")
  fail_if (leb_ℤ p.limit (pos 0) || ltb_ℤ (pos 1000) p.limit)
      (failure "outbox claim limit must be between 1 and 1000")
  fail_if (ltb_ℤ p.lease_duration (pos millisecond))
      (failure "outbox lease duration must be at least 1ms")
  let chosen = candidates p.event_type (pos_part p.limit) now es
  let after =
      update (is_among chosen) (lease p.worker_id (now + whole_milliseconds p.lease_duration)) es
  ok (after, select (is_among chosen) after)

-- `validateOutboxLease`
unfoldable pub validate_lease : String → String → ℤ → Outcome (Unit {0})
validate_lease event_id worker_id generation = do
  fail_if (not (is_uuid event_id)) not_found
  fail_if (is_blank worker_id) (failure "outbox worker ID is required")
  fail_if (ltb_ℤ generation (pos 1)) (failure "outbox claim generation must be greater than zero")

abbrev pub locked_for : Option String → String → Bool
locked_for none worker = false
locked_for (some w) worker = str_eq w worker

-- `locked_until > now()`
abbrev pub is_live : Option ℕ → ℕ → Bool
is_live none now = false
is_live (some until) now = ltb now until

-- The WHERE clause of the three statements that end a claim.
unfoldable pub holds_lease : String → String → ℤ → ℕ → Event → Bool
holds_lease event_id worker_id generation now e =
    str_eq e.id (to_lower event_id)
    && not (is_some e.delivered_at)
    && not (is_some e.dead_lettered_at)
    && locked_for e.locked_by worker_id
    && is_live e.locked_until now
    && e.attempts == pos_part generation

-- The statement, and `requireAffectedOutboxEvent`: no row is the error for a lost lease.
unfoldable pub finish : (Event → Bool) → (Event → Event) → Events → Outcome Events
finish held f es = do fail_if (not (any held es)) not_found; ok (update held f es)

unfoldable pub delivered : ℕ → Event → Event
delivered now e = record e {
  delivered_at = some now;
  locked_by = none;
  locked_until = none;
  last_error = none;
}

unfoldable pub mark_delivered : String → String → ℤ → ℕ → Events → Outcome Events
unfolding validate_lease holds_lease finish delivered
mark_delivered event_id worker_id generation now es = do
  validate_lease event_id worker_id generation
  finish (holds_lease event_id worker_id generation now) (delivered now) es

-- `truncateRunes`
unfoldable pub truncate_runes : String → ℕ → String
truncate_runes String.[] limit = ""
truncate_runes (String.◌∷◌ c s) zero = ""
truncate_runes (String.◌∷◌ c s) (suc n) = String.◌∷◌ c (truncate_runes s n)

abbrev pub max_error_runes : ℕ
max_error_runes = 4096

unfoldable pub released : String → ℕ → Event → Event
released message available e = record e {
  available_at = available;
  locked_by = none;
  locked_until = none;
  last_error = some message;
}

unfoldable pub mark_failed : String → String → ℤ → String → ℤ → ℕ → Events → Outcome Events
unfolding validate_lease holds_lease finish released truncate_runes
mark_failed event_id worker_id generation message backoff now es = do
  validate_lease event_id worker_id generation
  fail_if (ltb_ℤ backoff (pos millisecond)) (failure "outbox retry backoff must be at least 1ms")
  finish (holds_lease event_id worker_id generation now)
      (released (truncate_runes message max_error_runes) (now + whole_milliseconds backoff)) es

unfoldable pub dead_lettered : String → ℕ → Event → Event
dead_lettered message now e = record e {
  dead_lettered_at = some now;
  locked_by = none;
  locked_until = none;
  last_error = some message;
}

unfoldable pub mark_dead_lettered : String → String → ℤ → String → ℕ → Events → Outcome Events
unfolding validate_lease holds_lease finish dead_lettered truncate_runes
mark_dead_lettered event_id worker_id generation message now es = do
  validate_lease event_id worker_id generation
  finish (holds_lease event_id worker_id generation now)
      (dead_lettered (truncate_runes message max_error_runes) now) es
