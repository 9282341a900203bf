-- ===== src/Storage/Outbox/Laws.antt =====
-- A claim takes due events only, and leases them.
use gpu_rental_platform.Common.{
  Unique-update, eq_refl, ℕ, zero, suc, ◌+◌, String, ◌≡◌, refl, sym, ◌∙◌, true, [], ◌∷◌, arith,
  str_eq, eq_iff, select, update, ok, Row, Row-select, Row-any, any-Row, Row-update, Unique,
  Unique-Row,
}
use gpu_rental_platform.Common.Int.{pos_part}
use gpu_rental_platform.Storage.Db.{Event}
use gpu_rental_platform.Storage.Outbox.{
  Events, ClaimParams, whole_milliseconds, is_claimable, place, sort, take, candidates, is_among,
  lease, claim,
}

Row-place : (a e : Event) (xs : Events) → Row a (place e xs) → Row a (e ∷ xs)
unfolding place
Row-place a e [] m = m
Row-place a e (x ∷ xs) m = ground (arith, Row-place a e xs)

Row-sort : (a : Event) (es : Events) → Row a (sort es) → Row a es
unfolding sort
Row-sort a [] m = m
Row-sort a (e ∷ es) m = ground (arith, Row-place a e (sort es), Row-sort a es)

Row-take : (n : ℕ) (a : Event) (es : Events) → Row a (take n es) → Row a es
unfolding take
Row-take zero a es m = absurd m
Row-take (suc n) a [] m = m
Row-take (suc n) a (e ∷ es) m = ground (arith, Row-take n a es)

-- Whatever is chosen stands in the table and is due.
pub Row-candidates :
    (event_type : String) (limit now : ℕ) (a : Event) (es : Events)
    → Row a (candidates event_type limit now es)
    → Row a es × (is_claimable event_type now a ≡ true)
unfolding candidates
Row-candidates event_type limit now a es m = Row-select (is_claimable event_type now) a es (
    Row-sort a (select (is_claimable event_type now) es)
      (Row-take limit a (sort (select (is_claimable event_type now) es)) m))

-- The end of the lease that a claim grants.
abbrev pub lease_end : ClaimParams → ℕ → ℕ
lease_end p now = now + whole_milliseconds p.lease_duration

abbrev pub chosen : ClaimParams → ℕ → Events → Events
chosen p now es = candidates p.event_type (pos_part p.limit) now es

pub claim-ok :
    (p : ClaimParams) (now : ℕ) (es after got : Events)
    → claim p now es ≡ ok (after, got)
    → (update (is_among (chosen p now es)) (lease p.worker_id (lease_end p now)) es ≡ after)
      × (select (is_among (chosen p now es)) after ≡ got)
unfolding claim
claim-ok p now es after got h = ground arith

-- A row that a claim returns is a due row of the table, leased by the claim.
pub Row-claim :
    (p : ClaimParams) (now : ℕ) (es after got : Events) (b : Event)
    → Unique (λ e. e.id) es
    → claim p now es ≡ ok (after, got)
    → Row b got
    → (a : Event) × Row a es
      × (is_claimable p.event_type now a ≡ true)
      × (lease p.worker_id (lease_end p now) a ≡ b)
unfolding is_among lease
Row-claim p now es after got b u h m =
    let (same, same') = claim-ok p now es after got h in
    let (stands, among) = Row-select (is_among (chosen p now es)) b after (rw same' m) in
    let (a, row, e) =
      Row-update (is_among (chosen p now es)) (lease p.worker_id (lease_end p now)) b es
        (rw same stands) in
    let (c, picked, ids) = Row-any (λ x. str_eq x.id b.id) (chosen p now es) among in
    let (stands', due) = Row-candidates p.event_type (pos_part p.limit) now c es picked in
    let key : a.id ≡ b.id = ground arith in
    let one : c ≡ a =
      Unique-Row (λ x. x.id) c a es u stands' row ((eq_iff c.id b.id).0 ids ∙ sym key) in
    let self : is_among (chosen p now es) a ≡ true =
      any-Row (λ x. str_eq x.id a.id) c (chosen p now es) picked (rw one (eq_refl a.id)) in
    (a, row, rw one at due, rw self at e)

pub Row-claim_after :
    (p : ClaimParams) (now : ℕ) (es after got : Events) (b : Event)
    → claim p now es ≡ ok (after, got)
    → Row b got
    → Row b after
Row-claim_after p now es after got b h m =
    let (same, same') = claim-ok p now es after got h in
    (Row-select (is_among (chosen p now es)) b after (rw same' m)).0

pub claim-Unique :
    (p : ClaimParams) (now : ℕ) (es after got : Events)
    → Unique (λ e. e.id) es
    → claim p now es ≡ ok (after, got)
    → Unique (λ e. e.id) after
unfolding lease
claim-Unique p now es after got u h = rw (← (claim-ok p now es after got h).0) (
    Unique-update (λ e. e.id) (is_among (chosen p now es)) (lease p.worker_id (lease_end p now))
      (λ x. refl) es u)
