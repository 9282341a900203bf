-- ===== src/Storage/Outbox/Fencing.antt =====
-- A claimed event answers to the worker and the attempt that claimed it, and to nobody else.
use gpu_rental_platform.Common.{
  ℕ, String, ◌≡◌, ◌≢◌, ◌⊎◌, true, some, arith, eq_iff, any, ok, Row, Row-any, Unique, Unique-Row,
  >>=-eq-ok, fail_if-ok,
}
use gpu_rental_platform.Common.Int.{ℤ, pos, pos_part, ltb_ℤ}
use gpu_rental_platform.Common.Text.{to_lower}
use gpu_rental_platform.Storage.Db.{Event}
use gpu_rental_platform.Storage.Outbox.{
  Events, ClaimParams, claim, validate_lease, holds_lease, mark_delivered, mark_failed,
  mark_dead_lettered, millisecond,
}
use gpu_rental_platform.Storage.Outbox.Steps.{finish-ok}
use gpu_rental_platform.Storage.Outbox.Held.{Meanwhile, claimed_stands}
use gpu_rental_platform.Storage.Outbox.Laws.{lease_end}

not_held :
    (id worker holder : String) (generation : ℤ) (now : ℕ) (es : Events) (b : Event)
    → Unique (λ x. x.id) es
    → Row b es
    → to_lower id ≡ b.id
    → b.locked_by ≡ some holder
    → (worker ≢ holder) ⊎ (pos_part generation ≢ b.attempts)
    → any (holds_lease id worker generation now) es ≡ true
    → ⊥
unfolding holds_lease
not_held id worker holder generation now es b u m e l f h =
    let (c, stands, held) = Row-any (holds_lease id worker generation now) es h in
    let key : c.id ≡ b.id = ground (arith, eq_iff c.id (to_lower id)) in
    let one : c ≡ b = Unique-Row (λ x. x.id) c b es u stands m key in
    let held' : holds_lease id worker generation now b ≡ true = rw one at held in
    ground (arith, eq_iff holder worker)

-- Where ids are unique, and behind a claim come calls of any workers, of which the claims come before
-- the lease ends and no mark is that of the claiming worker and attempt for the event: on the table
-- that they leave nobody but the claiming worker, with the number of that attempt, can deliver the
-- event, fail it or give it up, at any time.
pub claim_fences :
    (p : ClaimParams) (now : ℕ) (es after got later : Events) (b : Event)
    (id worker message : String) (generation backoff : ℤ) (time : ℕ)
    → Unique (λ e. e.id) es
    → claim p now es ≡ ok (after, got)
    → Row b got
    → Meanwhile b (lease_end p now) after later
    → to_lower id ≡ b.id
    → (worker ≢ p.worker_id) ⊎ (pos_part generation ≢ b.attempts)
    → ((out : Events) → mark_delivered id worker generation time later ≢ ok out)
      × ((out : Events) → mark_failed id worker generation message backoff time later ≢ ok out)
      × ((out : Events) → mark_dead_lettered id worker generation message time later ≢ ok out)
unfolding mark_delivered mark_failed mark_dead_lettered
claim_fences p now es after got later b id worker message generation backoff time u h m r e f =
    let (u', m', l, _) = claimed_stands p now es after got later b u h m r in
    let never = not_held id worker p.worker_id generation time later b u' m' e l f in
    (
      λ out k.
          let (_, _, k') = >>=-eq-ok (validate_lease id worker generation) _ k in
          never (finish-ok _ _ later out k').0,
      λ out k.
          let (_, _, k') = >>=-eq-ok (validate_lease id worker generation) _ k in
          let k'' = fail_if-ok (ltb_ℤ backoff (pos millisecond)) _ _ k' in
          never (finish-ok _ _ later out k'').0,
      λ out k.
          let (_, _, k') = >>=-eq-ok (validate_lease id worker generation) _ k in
          never (finish-ok _ _ later out k').0,
    )
