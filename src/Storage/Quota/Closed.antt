-- ===== src/Storage/Quota/Closed.antt =====
-- Repeated transitions of a reservation, and the statuses that are final.
use gpu_rental_platform.Common.{
  ◌&&◌, fail_if-ok, append-Row, update-Row, Unique-Row, Row-find, Row, ◌∙◌, ◌⊎◌, ◌≡◌, refl, sym, ap,
  ℕ, String, true, false, some, List, [], ◌∷◌, str_eq, eq_iff, eq_refl, find, update, arith, ok,
  >>=-eq-ok, fail_if-eq-ok, or_fail-eq-ok, ok-injective, Bool-cases, inl, inr, not, or_fail,
  not_found, invalid_transition, fail_if,
}
use gpu_rental_platform.Common.Text.{trim_space, ◌+++◌, to_lower}
use gpu_rental_platform.Tenancy.{committed, expired, released, QuotaReservation, ReservationStatus}
use gpu_rental_platform.Identity.{Entropy, is_uuid}
use gpu_rental_platform.Storage.Quota.Steps.{
  Step, sets, reserves, commits, releases, leaves, Reach, start, next, Reach-Accounted,
  set_quota-ok,
}
use gpu_rental_platform.Storage.Quota.Reservations.{
  upsert_quota-reservations, reserve_quota-reservations,
}
use gpu_rental_platform.Storage.Db.{Db}
use gpu_rental_platform.Storage.Mutation.{insert_domain_event}
use gpu_rental_platform.Storage.Mutation.Laws.{insert_domain_event-ok}
use gpu_rental_platform.Storage.Quota.{
  stored, pos_part, release_quota_reservation, set_status, status_eq, status_text,
  reservation_fields, update_quota, moved, may_move, move_reservation, transition_quota_reservation,
}
use gpu_rental_platform.Storage.Quota.Accounts.{id_of, Accounted, update_quota-reservations}

-- The first row with an id is still the first after an update that keeps the ids.
find-set_status :
    (id : String) (target : ReservationStatus) (now : ℕ) (r : QuotaReservation)
    (rs : List QuotaReservation)
    → find (λ x. str_eq x.id id) rs ≡ some r
    → find (λ x. str_eq x.id id) (update (λ x. str_eq x.id r.id) (set_status target now) rs)
      ≡ some (set_status target now r)
find-set_status id target now r [] h = cc
find-set_status id target now r (x ∷ rs) h = elim (Bool-cases (str_eq x.id id)) [
  | inl t ↦ let same : x ≡ r = ground arith in ground (arith, eq_refl r.id)
  | inr t ↦
      let rest = find-set_status id target now r rs (rw t at h) in
      ground (arith, eq_iff x.id r.id, eq_iff x.id id)
]

-- What a successful move does to the reservations.
move_reservation-ok :
    (entropy : Entropy) (k now : ℕ) (r : QuotaReservation) (target : ReservationStatus) (db : Db)
    (result : QuotaReservation) (after : Db)
    → move_reservation entropy k now r target db ≡ ok (result, after)
    → (result ≡ set_status target now r)
      × (after.reservations
          ≡ update (λ x. str_eq x.id r.id) (set_status target now) db.reservations)
unfolding move_reservation
move_reservation-ok entropy k now r target db result after h =
    let (counted, e₁, h₁) =
      >>=-eq-ok (update_quota r.project_id r.resource_class (moved r.status target r.amount now) db)
        _ h in
    let written = record counted {
      reservations = update (λ x. str_eq x.id r.id) (set_status target now) counted.reservations;
    } in
    let (announced, e₂, h₂) =
      >>=-eq-ok
        (insert_domain_event entropy k "quota_reservation" r.id
          ("quota_reservation." +++ status_text target) (reservation_fields r) now written)
        _ h₁ in
    let said =
      insert_domain_event-ok entropy k "quota_reservation" r.id
        ("quota_reservation." +++ status_text target) (reservation_fields r) now written announced
        e₂ in
    let kept =
      update_quota-reservations r.project_id r.resource_class (moved r.status target r.amount now)
        db counted e₁ in
    let same = ok-injective h₂ in
    (
      sym (ap (λ x. x.0) same),
      ap (λ d. d.reservations) (sym (ap (λ x. x.1) same))
          ∙ said.same.reservations
          ∙ ap (update (λ x. str_eq x.id r.id) (set_status target now)) kept,
    )

status_eq-eq : (a b : ReservationStatus) → status_eq a b ≡ true → a ≡ b
status_eq-eq a b h = ground arith

status_eq_refl : (a : ReservationStatus) → status_eq a a ≡ true
status_eq_refl a = ground arith

-- Both ways in which a transition succeeds.
transition-ok :
    (entropy : Entropy) (k now : ℕ) (id : String) (target : ReservationStatus) (db : Db)
    (result : QuotaReservation) (after : Db)
    → transition_quota_reservation entropy k now id target db ≡ ok (result, after)
    → (is_uuid id ≡ true)
      × (r : QuotaReservation) × (find (λ x. str_eq x.id (to_lower id)) db.reservations ≡ some r)
      × (((r.status ≡ target) × (result ≡ r) × (after ≡ db))
          ⊎ ((may_move r.status target ≡ true)
              × (status_eq r.status target ≡ false)
              × (result ≡ set_status target now r)
              × (after.reservations
                  ≡ update (λ x. str_eq x.id r.id) (set_status target now) db.reservations)))
unfolding transition_quota_reservation
transition-ok entropy k now id target db result after h =
    let (_, c, h₁) = >>=-eq-ok (fail_if (not (is_uuid id)) not_found) _ h in
    let valid = fail_if-eq-ok (not (is_uuid id)) _ c in
    let (r, e, h₂) =
      >>=-eq-ok (or_fail (find (λ x. str_eq x.id (to_lower id)) db.reservations) not_found) _ h₁ in
    let found = or_fail-eq-ok (find (λ x. str_eq x.id (to_lower id)) db.reservations) _ e in
    (
      ground arith,
      r,
      found,
      elim (Bool-cases (status_eq r.status target)) [
        | inl t ↦
            let same = ok-injective (rw t at h₂) in
            inl (status_eq-eq r.status target t, sym (ap (λ x. x.0) same), sym (ap (λ x. x.1) same))
        | inr t ↦
            let (_, c', h₃) =
              >>=-eq-ok (fail_if (not (may_move r.status target)) invalid_transition) _
                (rw t at h₂) in
            let allowed = fail_if-eq-ok (not (may_move r.status target)) _ c' in
            let (out, rows) = move_reservation-ok entropy k now r target db result after h₃ in
            inr (ground arith, t, out, rows)
      ],
    )

-- After a transition has succeeded, the same one, sent again at any time, succeeds with the same
-- reservation and changes nothing.
pub transition_replay :
    (entropy : Entropy) (k now : ℕ) (id : String) (target : ReservationStatus) (db : Db)
    (result : QuotaReservation) (after : Db)
    → transition_quota_reservation entropy k now id target db ≡ ok (result, after)
    → (entropy' : Entropy) (k' now' : ℕ)
    → transition_quota_reservation entropy' k' now' id target after ≡ ok (result, after)
unfolding transition_quota_reservation
transition_replay entropy k now id target db result after h entropy' k' now' =
    let (valid, r, found, cases) = transition-ok entropy k now id target db result after h in
    elim cases [
      | inl (st, out, same) ↦ rw (valid, same, found, out, st, status_eq_refl target) refl
      | inr (allowed, t, out, rows) ↦
          let again = find-set_status (to_lower id) target now r db.reservations found in
          rw (valid, rows, again, out, status_eq_refl target) refl
    ]

-- Released or expired.
abbrev pub IsClosed : QuotaReservation → Type 0
IsClosed r = (r.status ≡ released) ⊎ (r.status ≡ expired)

transition-closed :
    (others : String → String → ℕ) (entropy : Entropy) (k now : ℕ) (id : String)
    (target : ReservationStatus) (db : Db) (result : QuotaReservation) (after : Db)
    (r : QuotaReservation)
    → Accounted others db
    → Row r db.reservations
    → IsClosed r
    → transition_quota_reservation entropy k now id target db ≡ ok (result, after)
    → Row r after.reservations
unfolding may_move
transition-closed others entropy k now id target db result after r good m closed h =
    let (valid, s, found, cases) = transition-ok entropy k now id target db result after h in
    let (ms, _) = Row-find (λ x. str_eq x.id (to_lower id)) s db.reservations found in
    elim cases [
      | inl (_, _, same) ↦ rw same m
      | inr (allowed, _, _, rows) ↦ elim (Bool-cases (str_eq r.id s.id)) [
        | inl t ↦
            let same =
              Unique-Row id_of r s db.reservations good.unique m ms
                (ground (arith, eq_iff r.id s.id)) in
            let open_status = rw (← same) at allowed in absurd (ground arith)
        | inr t ↦
            let row =
              update-Row (λ x. str_eq x.id s.id) (set_status target now) r db.reservations m in
            rw rows (rw t at row)
      ]
    ]

Step-closed :
    (others : String → String → ℕ) (db after : Db) (r : QuotaReservation)
    → Accounted others db
    → Row r db.reservations
    → IsClosed r
    → Step db after
    → Row r after.reservations
unfolding release_quota_reservation
Step-closed others db after r good m closed (sets entropy k now params a h) =
    elim (set_quota-ok entropy k now params db a after h) [
      | inl same ↦ rw same m
      | inr (applied, did, same) ↦
          rw
            (
              same.reservations,
              upsert_quota-reservations (to_lower params.project_id)
                  (trim_space params.resource_class) (pos_part params.hard_limit) now db applied
                  did,
            )
            m
    ]
Step-closed others db after r good m closed (reserves entropy k now params x h) =
    rw (reserve_quota-reservations entropy k now params db x after h)
      (append-Row r db.reservations (stored x ∷ []) m)
Step-closed others db after r good m closed (commits entropy k now id x h) =
    transition-closed others entropy k now id committed db x after r good m closed h
Step-closed others db after r good m closed (releases entropy k now id status x h) =
    transition-closed others entropy k now id status db x after r good m closed
      (fail_if-ok (not (status_eq status released) && not (status_eq status expired)) _ _ h)
Step-closed others db after r good m closed (leaves q same) = rw same m

-- With balanced accounts, a released or expired reservation keeps its row, unchanged, in every run
-- of the operations on quotas and reservations and of mutations that leave both alone.
pub closed_forever :
    (others : String → String → ℕ) (db after : Db) (r : QuotaReservation)
    → Accounted others db
    → Row r db.reservations
    → IsClosed r
    → Reach db after
    → Row r after.reservations
closed_forever others db _ r good m closed start = m
closed_forever others db after r good m closed (next mid _ run step) =
    Step-closed others mid after r (Reach-Accounted others db mid good run)
      (closed_forever others db mid r good m closed run) closed step
