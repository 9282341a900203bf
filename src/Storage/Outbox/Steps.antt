-- ===== src/Storage/Outbox/Steps.antt =====
-- The outbox under any sequence of calls: an event that is delivered or dead-lettered is never
-- touched again, and a worker whose claim is over changes nothing.
use gpu_rental_platform.Common.{
  fail_if-ok, ℕ, ◌+◌, String, ◌≡◌, ◌≢◌, ◌⊎◌, inl, inr, refl, Bool, true, false, none, [], ◌∷◌, ◌++◌,
  arith, str_eq, eq_iff, any, update, ok, Bool-cases, All, Row, Row-any, update-Row, append-Row,
  Unique, Unique-Row, Unique-update, Unique-append, >>=-eq-ok,
}
use gpu_rental_platform.Common.Int.{ltb_ℤ, ℤ, pos, pos_part}
use gpu_rental_platform.Storage.Db.{Event}
use gpu_rental_platform.Storage.Outbox.{
  whole_milliseconds, max_error_runes, truncate_runes, millisecond, Events, ClaimParams,
  is_claimable, is_among, lease, claim, truncate_runes, validate_lease, holds_lease, finish,
  delivered, released, dead_lettered, mark_delivered, mark_failed, mark_dead_lettered,
}
use gpu_rental_platform.Storage.Outbox.Laws.{
  chosen, lease_end, claim-ok, claim-Unique, Row-candidates,
}

-- Delivered, or given up.
abbrev pub IsSettled : Event → Type 0
IsSettled e = (e.delivered_at ≢ none) ⊎ (e.dead_lettered_at ≢ none)

pub data Step (es : Events) : Events → Type 0 where
  claims :
      (p : ClaimParams) (now : ℕ) {after : Events} (got : Events)
      → claim p now es ≡ ok (after, got)
      → Step es after
  delivers :
      (id worker : String) (generation : ℤ) (now : ℕ) {after : Events}
      → mark_delivered id worker generation now es ≡ ok after
      → Step es after
  fails :
      (id worker : String) (generation : ℤ) (message : String) (backoff : ℤ) (now : ℕ)
      {after : Events}
      → mark_failed id worker generation message backoff now es ≡ ok after
      → Step es after
  gives_up :
      (id worker : String) (generation : ℤ) (message : String) (now : ℕ) {after : Events}
      → mark_dead_lettered id worker generation message now es ≡ ok after
      → Step es after
  -- a transaction of a store commits a new event
  inserts : (e : Event) → All (λ x. x.id ≢ e.id) es → Step es (es ++ e ∷ [])

pub data Reach (es : Events) : Events → Type 0 where
  here : Reach es es
  next : {later after : Events} → Reach es later → Step later after → Reach es after

pub finish-ok :
    (held : Event → Bool) (f : Event → Event) (es after : Events)
    → finish held f es ≡ ok after
    → (any held es ≡ true) × (update held f es ≡ after)
unfolding finish
finish-ok held f es after h = ground arith

settled_not_held :
    (id worker : String) (generation : ℤ) (now : ℕ) (e : Event)
    → IsSettled e
    → holds_lease id worker generation now e ≡ false
unfolding holds_lease
settled_not_held id worker generation now e s = ground arith

-- What one statement that ends a claim does to the table.
abbrev Keeps : Events → Events → Type 0
Keeps es after =
    (Unique (λ e. e.id) es → Unique (λ e. e.id) after)
    × ((e : Event) → IsSettled e → Row e es → Row e after)

finish-Keeps :
    (id worker : String) (generation : ℤ) (now : ℕ) (f : Event → Event) (es after : Events)
    → ((e : Event) → (f e).id ≡ e.id)
    → finish (holds_lease id worker generation now) f es ≡ ok after
    → Keeps es after
finish-Keeps id worker generation now f es after same h =
    let held = holds_lease id worker generation now in
    let (_, e) = finish-ok held f es after h in
    (
      λ u. rw (← e) (Unique-update (λ x. x.id) held f same es u),
      λ x s m.
          rw (← e)
            (rw (settled_not_held id worker generation now x s) at (update-Row held f x es m)),
    )

settled_not_claimable :
    (event_type : String) (now : ℕ) (e : Event)
    → IsSettled e
    → is_claimable event_type now e ≡ false
unfolding is_claimable
settled_not_claimable event_type now e s = ground arith

-- A claim leaves a row that is not due for it as it is.
pub claim-Row :
    (p : ClaimParams) (now : ℕ) (es after got : Events) (e : Event)
    → Unique (λ x. x.id) es
    → claim p now es ≡ ok (after, got)
    → is_claimable p.event_type now e ≡ false
    → Row e es
    → Row e after
unfolding is_among
claim-Row p now es after got e u h never m =
    let (same, _) = claim-ok p now es after got h in
    let f = lease p.worker_id (lease_end p now) in
    elim (Bool-cases (is_among (chosen p now es) e)) [
      | inl among ↦
          let (c, picked, ids) = Row-any (λ x. str_eq x.id e.id) (chosen p now es) among in
          let (stands, due) = Row-candidates p.event_type (pos_part p.limit) now c es picked in
          let one = Unique-Row (λ x. x.id) c e es u stands m ((eq_iff c.id e.id).0 ids) in
          let due' : is_claimable p.event_type now e ≡ true = rw one at due in cc
      | inr apart ↦ rw (← same) (rw apart at (update-Row (is_among (chosen p now es)) f e es m))
    ]

pub Step-Keeps :
    {es after : Events}
    → Unique (λ e. e.id) es
    → Step es after
    → Unique (λ e. e.id) after × ((e : Event) → IsSettled e → Row e es → Row e after)
unfolding mark_delivered mark_failed mark_dead_lettered delivered released dead_lettered
Step-Keeps {es} {after} u (claims p now got h) = (
  claim-Unique p now es after got u h,
  λ e s m. claim-Row p now es after got e u h (settled_not_claimable p.event_type now e s) m,
)
Step-Keeps {es} {after} u (delivers id worker generation now h) =
    let (_, _, k) = >>=-eq-ok (validate_lease id worker generation) _ h in
    let r = finish-Keeps id worker generation now (delivered now) es after (λ e. refl) k in
    (r.0 u, r.1)
Step-Keeps {es} {after} u (fails id worker generation message backoff now h) =
    let (_, _, k) = >>=-eq-ok (validate_lease id worker generation) _ h in
    let k' = fail_if-ok (ltb_ℤ backoff (pos millisecond)) _ _ k in
    let f = released (truncate_runes message max_error_runes) (now + whole_milliseconds backoff) in
    let r = finish-Keeps id worker generation now f es after (λ e. refl) k' in (r.0 u, r.1)
Step-Keeps {es} {after} u (gives_up id worker generation message now h) =
    let (_, _, k) = >>=-eq-ok (validate_lease id worker generation) _ h in
    let r = finish-Keeps id worker generation now _ es after (λ e. refl) k in (r.0 u, r.1)
Step-Keeps {es} u (inserts e fresh) =
    (Unique-append (λ x. x.id) es e u fresh, λ x s m. append-Row x es (e ∷ []) m)

Reach-Keeps :
    {es after : Events}
    → Unique (λ e. e.id) es
    → Reach es after
    → Unique (λ e. e.id) after × ((e : Event) → IsSettled e → Row e es → Row e after)
Reach-Keeps u here = (u, λ e s m. m)
Reach-Keeps u (next r st) =
    let (u', k) = Reach-Keeps u r in
    let (u'', k') = Step-Keeps u' st in (u'', λ e s m. k' e s (k e s m))

-- Where ids are unique, an event that is delivered or dead-lettered stands in the table unchanged
-- after any sequence of claims, marks and insertions, by any workers at any times.
pub settled_forever :
    (es after : Events) (e : Event)
    → Unique (λ x. x.id) es
    → Reach es after
    → IsSettled e
    → Row e es
    → Row e after
settled_forever es after e u r s m = (Reach-Keeps u r).1 e s m
