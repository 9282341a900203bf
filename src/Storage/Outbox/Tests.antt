-- ===== src/Storage/Outbox/Tests.antt =====
-- A run of two workers over one event, and witnesses.
use gpu_rental_platform.Common.{
  ◌<◌, ℕ, String, ◌≡◌, ◌≢◌, inl, inr, refl, none, some, [], ◌∷◌, arith, text_ne, ok, err, not_found,
  Row, Unique,
}
use gpu_rental_platform.Common.Int.{pos}
use gpu_rental_platform.Common.Text.{to_lower, trim_space, is_blank}
use gpu_rental_platform.Identity.{is_uuid}
use gpu_rental_platform.Storage.Db.{Event}
use gpu_rental_platform.Storage.Outbox.{
  Events, ClaimParams, claim, mark_delivered, mark_failed, mark_dead_lettered, delivered,
}
use gpu_rental_platform.Workspace.{RunnerConfig}
use gpu_rental_platform.Storage.Outbox.Held.{Meanwhile, at_once, behind, claim_exclusive}
use gpu_rental_platform.Storage.Outbox.Steps.{here, next, claims, settled_forever}
use gpu_rental_platform.Storage.Outbox.Fencing.{claim_fences}

code : Unit {0}
unfolding claim mark_delivered mark_failed mark_dead_lettered is_uuid is_blank trim_space to_lower
code = tt

abbrev id_a : String
id_a = "aaaaaaaa-0000-4000-8000-000000000001"

abbrev id_b : String
id_b = "bbbbbbbb-0000-4000-8000-000000000002"

abbrev event : String → ℕ → Event
event id available = record {
  id = id;
  aggregate_type = "workspace";
  aggregate_id = "w1";
  event_type = "workspace.created";
  payload = [];
  occurred_at = 1;
  available_at = available;
  attempts = 0;
  locked_by = none;
  locked_until = none;
  delivered_at = none;
  dead_lettered_at = none;
  last_error = none;
}

abbrev queue : Events
queue = event id_a 5 ∷ event id_b 3 ∷ []

-- One event for a lease of a second.
abbrev one_for : String → ClaimParams
one_for worker = record {
  worker_id = worker;
  event_type = "";
  limit = pos 1;
  lease_duration = pos 1000000000;
}

abbrev leased : String → ℕ → Event → Event
leased worker until e = record e {
  locked_by = some worker;
  locked_until = some until;
  attempts = 1;
}

abbrev after_first : Events
after_first = event id_a 5 ∷ leased "w" 1000000010 (event id_b 3) ∷ []

-- The event that is due first goes first, and the next claim takes the other one.
first_claim :
    claim (one_for "w") 10 queue ≡ ok (after_first, leased "w" 1000000010 (event id_b 3) ∷ [])
unfolding code
first_claim = refl

abbrev after_second : Events
after_second = leased "v" 1000000020 (event id_a 5) ∷ leased "w" 1000000010 (event id_b 3) ∷ []

second_claim :
    claim (one_for "v") 20 after_first
    ≡ ok (after_second, leased "v" 1000000020 (event id_a 5) ∷ [])
unfolding code
second_claim = refl

-- The second worker cannot deliver the first one's event; upper case names the same row.
foreign_delivery : mark_delivered id_b "v" (pos 1) 30 after_second ≡ err not_found
unfolding code
foreign_delivery = refl

abbrev after_delivery : Events
after_delivery = event id_a 5 ∷ delivered 30 (leased "w" 1000000010 (event id_b 3)) ∷ []

delivery :
    mark_delivered "BBBBBBBB-0000-4000-8000-000000000002" "w" (pos 1) 30 after_first
    ≡ ok after_delivery
unfolding code delivered
delivery = refl

queue-Unique : Unique (λ e. e.id) queue
queue-Unique = ((text_ne _ _ refl, tt), (tt, tt))

abbrev first : Event
first = leased "w" 1000000010 (event id_b 3)

-- Another worker claims the other event meanwhile.
meanwhile : Meanwhile first 1000000010 after_first after_second
meanwhile =
    behind at_once
      (claims (one_for "v") 20 (leased "v" 1000000020 (event id_a 5) ∷ []) second_claim)
      (omega arith)

claim_exclusive_example :
    Row first after_second
    × ((q : ClaimParams) (time : ℕ) (after' got' : Events) (b' : Event)
        → time < 1000000010
        → claim q time after_second ≡ ok (after', got')
        → Row b' got'
        → id_b ≢ b'.id)
claim_exclusive_example =
    claim_exclusive (one_for "w") 10 queue after_first (first ∷ []) after_second first queue-Unique
      first_claim (inl refl) meanwhile

uuid_b : to_lower id_b ≡ id_b
unfolding to_lower
uuid_b = refl

claim_fences_example :
    ((out : Events) → mark_delivered id_b "v" (pos 1) 30 after_second ≢ ok out)
    × ((out : Events) → mark_failed id_b "v" (pos 1) "x" (pos 1000000) 30 after_second ≢ ok out)
    × ((out : Events) → mark_dead_lettered id_b "v" (pos 1) "x" 30 after_second ≢ ok out)
claim_fences_example =
    claim_fences (one_for "w") 10 queue after_first (first ∷ []) after_second first id_b "v" "x"
      (pos 1) (pos 1000000) 30 queue-Unique first_claim (inl refl) meanwhile uuid_b
      (inl (text_ne _ _ refl))

abbrev done : Event
done = record (event id_b 3) { delivered_at = some 30; attempts = 1 }

abbrev settled : Events
settled = event id_a 5 ∷ done ∷ []

abbrev settled_after : Events
settled_after = leased "v" 1000000040 (event id_a 5) ∷ done ∷ []

third_claim :
    claim (one_for "v") 40 settled ≡ ok (settled_after, leased "v" 1000000040 (event id_a 5) ∷ [])
unfolding code
third_claim = refl

settled_forever_example : Row done settled_after
settled_forever_example =
    settled_forever settled settled_after done ((text_ne _ _ refl, tt), (tt, tt))
      (next here (claims (one_for "v") 40 (leased "v" 1000000040 (event id_a 5) ∷ []) third_claim))
      (inl (λ e. cc)) (inr (inl refl))

-- The worker "w" of the runner, which allows two attempts.
abbrev config : RunnerConfig
config = record {
  worker_id = "w";
  poll_interval = pos 1000;
  reconcile_timeout = pos 2000;
  max_attempts = pos 2;
}

abbrev claimed : Event
claimed = leased "w:workspace.created" 1000000010 (event id_b 3)

abbrev work_queue : Events
work_queue = event id_a 5 ∷ claimed ∷ []
