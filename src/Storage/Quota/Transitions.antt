-- ===== src/Storage/Quota/Transitions.antt =====
-- Each operation on quotas keeps the accounts balanced.
use gpu_rental_platform.Common.{
  ap, ok-injective, Row-sum, ◌≡◌, ◌≤◌, refl, ℕ, ◌+◌, String, true, false, ◌&&◌, none, some, List,
  if◌then◌else◌, str_eq, eq_iff, eq_refl, update, arith, Row, Unique, Unique-update, ok, >>=-eq-ok,
}
use gpu_rental_platform.Tenancy.{
  Quota, QuotaReservation, ReservationStatus, pending, committed, released, expired,
}
use gpu_rental_platform.Identity.{Entropy}
use gpu_rental_platform.Storage.Db.{Db}
use gpu_rental_platform.Storage.Mutation.{insert_domain_event}
use gpu_rental_platform.Storage.Mutation.Laws.{insert_domain_event-ok}
use gpu_rental_platform.Storage.Quota.{
  ◌+++◌, status_eq, set_status, status_text, reservation_fields, update_quota, moved, may_move,
  move_reservation,
}
use gpu_rental_platform.Storage.Quota.Accounts.{
  update_quota-reservations, Accounted, Accounted-write, Accounted-SameDomain, held,
  held-set_status, weight, id_of,
}

pub weight-apart :
    (s : ReservationStatus) (p c : String) (r : QuotaReservation)
    → (str_eq p r.project_id && str_eq c r.resource_class) ≡ false
    → weight s p c r ≡ 0
weight-apart s p c r apart = ground (
  arith,
  eq_iff p r.project_id,
  eq_iff c r.resource_class,
  eq_iff r.project_id p,
  eq_iff r.resource_class c,
)

-- The status of a reservation does not count in the sums of another project or class.
held-elsewhere :
    (s target : ReservationStatus) (now : ℕ) (p c : String) (r : QuotaReservation)
    (rs : List QuotaReservation)
    → Unique id_of rs
    → Row r rs
    → (str_eq p r.project_id && str_eq c r.resource_class) ≡ false
    → held s p c (update (λ x. str_eq x.id r.id) (set_status target now) rs) ≡ held s p c rs
held-elsewhere s target now p c r rs u m apart =
    let shift = held-set_status s target now p c r rs u m in
    let same = weight-apart s p c r apart in
    let same' = weight-apart s p c (set_status target now r) apart in omega arith

-- What the weight of a reservation is under its own key.
pub weight-own :
    (s : ReservationStatus) (r : QuotaReservation)
    → weight s r.project_id r.resource_class r ≡ (if status_eq r.status s then r.amount else 0)
weight-own s r = ground (arith, eq_refl r.project_id, eq_refl r.resource_class)

abbrev share : ℕ → ReservationStatus → ReservationStatus → ℕ
share n s status = if status_eq status s then n else 0

share-le : (n : ℕ) (s status : ReservationStatus) → share n s status ≤ n
share-le n s status = ground arith

-- The update of a quota follows the sums when a reservation of n units leaves a status for another.
moved-follows :
    (from target : ReservationStatus) (n now a b a' b' o : ℕ) (q q' : Quota)
    → status_eq from target ≡ false
    → may_move from target ≡ true
    → moved from target n now q ≡ some q'
    → q.reserved ≡ a
    → q.allocated ≡ b + o
    → a' + share n pending from ≡ a + share n pending target
    → b' + share n committed from ≡ b + share n committed target
    → (q'.reserved ≡ a') × (q'.allocated ≡ b' + o)
unfolding moved may_move
moved-follows pending pending n now a b a' b' o q q' d m h e₁ e₂ s₁ s₂ = ground arith
moved-follows pending committed n now a b a' b' o q q' d m h e₁ e₂ s₁ s₂ = ground arith
moved-follows pending released n now a b a' b' o q q' d m h e₁ e₂ s₁ s₂ = ground arith
moved-follows pending expired n now a b a' b' o q q' d m h e₁ e₂ s₁ s₂ = ground arith
moved-follows committed pending n now a b a' b' o q q' d m h e₁ e₂ s₁ s₂ = ground arith
moved-follows committed committed n now a b a' b' o q q' d m h e₁ e₂ s₁ s₂ = ground arith
moved-follows committed released n now a b a' b' o q q' d m h e₁ e₂ s₁ s₂ = ground arith
moved-follows committed expired n now a b a' b' o q q' d m h e₁ e₂ s₁ s₂ = ground arith
moved-follows released target n now a b a' b' o q q' d m h e₁ e₂ s₁ s₂ = ground arith
moved-follows expired target n now a b a' b' o q q' d m h e₁ e₂ s₁ s₂ = ground arith

-- Without a quota there is nothing to move.
moved-nothing :
    (from target : ReservationStatus) (n a b a' b' o : ℕ)
    → may_move from target ≡ true
    → 0 ≡ a
    → 0 ≡ b + o
    → share n pending from ≤ a
    → share n committed from ≤ b
    → a' + share n pending from ≡ a + share n pending target
    → b' + share n committed from ≡ b + share n committed target
    → (a' ≡ a) × (b' ≡ b)
unfolding may_move
moved-nothing pending target n a b a' b' o m e₁ e₂ le₁ le₂ s₁ s₂ =
    ground (arith, share-le n pending target, share-le n committed target)
moved-nothing committed target n a b a' b' o m e₁ e₂ le₁ le₂ s₁ s₂ =
    ground (arith, share-le n pending target, share-le n committed target)
moved-nothing released target n a b a' b' o m e₁ e₂ le₁ le₂ s₁ s₂ = ground arith
moved-nothing expired target n a b a' b' o m e₁ e₂ le₁ le₂ s₁ s₂ = ground arith

-- A change of status, under the key of its own reservation.
shift :
    (r : QuotaReservation) (target : ReservationStatus) (now : ℕ) (rs : List QuotaReservation)
    → Unique id_of rs
    → Row r rs
    → (s : ReservationStatus)
    → held s r.project_id r.resource_class
          (update (λ x. str_eq x.id r.id) (set_status target now) rs)
        + share r.amount s r.status
      ≡ held s r.project_id r.resource_class rs + share r.amount s target
shift r target now rs u m s =
    rw (weight-own s r, weight-own s (set_status target now r)) at
      (held-set_status s target now r.project_id r.resource_class r rs u m)

share-held :
    (r : QuotaReservation) (rs : List QuotaReservation)
    → Row r rs
    → (s : ReservationStatus) → share r.amount s r.status ≤ held s r.project_id r.resource_class rs
share-held r rs m s =
    rw (weight-own s r) at (Row-sum (weight s r.project_id r.resource_class) r rs m)

move_reservation-nothing :
    (others : String → String → ℕ) (now : ℕ) (r : QuotaReservation) (target : ReservationStatus)
    (db : Db) (rs : List QuotaReservation)
    → Accounted others db
    → Row r db.reservations
    → may_move r.status target ≡ true
    → rs ≡ update (λ x. str_eq x.id r.id) (set_status target now) db.reservations
    → db.quotas r.project_id r.resource_class ≡ none
    → (held pending r.project_id r.resource_class rs
        ≡ held pending r.project_id r.resource_class db.reservations)
      × (held committed r.project_id r.resource_class rs
          ≡ held committed r.project_id r.resource_class db.reservations)
move_reservation-nothing others now r target db rs good m allowed made e =
    let b = good.balanced r.project_id r.resource_class in
    let moved_by = shift r target now db.reservations good.unique m in
    rw made (
      moved-nothing r.status target r.amount _ _ _ _ (others r.project_id r.resource_class) allowed
        (rw e at b.reserved_is) (rw e at b.allocated_is) (share-held r db.reservations m pending)
        (share-held r db.reservations m committed) (moved_by pending) (moved_by committed))

pub move_reservation-Accounted :
    (others : String → String → ℕ) (entropy : Entropy) (k now : ℕ) (r : QuotaReservation)
    (target : ReservationStatus) (db : Db) (result : QuotaReservation) (after : Db)
    → Accounted others db
    → Row r db.reservations
    → status_eq r.status target ≡ false
    → may_move r.status target ≡ true
    → move_reservation entropy k now r target db ≡ ok (result, after)
    → Accounted others after
unfolding move_reservation moved may_move
move_reservation-Accounted others entropy k now r target db result after good m differs allowed h =
    let (counted, e₁, h₁) =
      >>=-eq-ok (update_quota r.project_id r.resource_class (moved r.status target r.amount now) db)
        _ h in
    let written = record counted {
      reservations = update (λ x. str_eq x.id r.id) (set_status target now) counted.reservations;
    } in
    let (announced, e₂, h₂) =
      >>=-eq-ok
        (insert_domain_event entropy k "quota_reservation" r.id
          ("quota_reservation." +++ status_text target) (reservation_fields r) now written)
        _ h₁ in
    let said =
      insert_domain_event-ok entropy k "quota_reservation" r.id
        ("quota_reservation." +++ status_text target) (reservation_fields r) now written announced
        e₂ in
    let rs = update (λ x. str_eq x.id r.id) (set_status target now) db.reservations in
    let kept =
      update_quota-reservations r.project_id r.resource_class (moved r.status target r.amount now)
        db counted e₁ in
    let shifted = shift r target now db.reservations good.unique m in
    let good' =
      Accounted-write others r.project_id r.resource_class (moved r.status target r.amount now) db
        counted rs good e₁
        (Unique-update id_of (λ x. str_eq x.id r.id) (set_status target now) (λ x. refl)
          db.reservations good.unique)
        (λ s p c apart. held-elsewhere s target now p c r db.reservations good.unique m apart)
        (λ q q' e a b.
          moved-follows r.status target r.amount now _ _ _ _ _ q q' differs allowed e a b
            (shifted pending) (shifted committed))
        (λ e. move_reservation-nothing others now r target db rs good m allowed refl e) in
    let same = ok-injective h₂ in
    rw (← ap (λ x. x.1) same)
      (Accounted-SameDomain others written announced (rw kept good') said.same)
