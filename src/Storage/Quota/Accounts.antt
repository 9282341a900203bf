-- ===== src/Storage/Quota/Accounts.antt =====
-- The accounts of the quotas against their reservations: the two sums, and what an insertion or a
-- change of status does to them.
use gpu_rental_platform.Common.{
  ◌∙◌, Bool-cases, ap, inr, inl, Option-cases, ◌⊎◌, ◌≡◌, ◌≤◌, refl, ℕ, ◌+◌, String, true, false,
  ◌&&◌, Option, none, some, List, if◌then◌else◌, str_eq, eq_iff, eq_refl, sum, update, arith, Row,
  Unique, sum-update_key, ok,
}
use gpu_rental_platform.Tenancy.{Quota, QuotaReservation, ReservationStatus, pending, committed}
use gpu_rental_platform.Storage.Db.{Db}
use gpu_rental_platform.Storage.Mutation.Laws.{SameDomain}
use gpu_rental_platform.Storage.Quota.{status_eq, set_status, update_quota, put_quota}

-- What a reservation contributes to the sum of a status in a project and class.
abbrev pub weight : ReservationStatus → String → String → QuotaReservation → ℕ
weight s p c r =
    if status_eq r.status s && str_eq r.project_id p && str_eq r.resource_class c
    then r.amount
    else 0

abbrev pub held : ReservationStatus → String → String → List QuotaReservation → ℕ
held s p c rs = sum (weight s p c) rs

abbrev pub reserved_of : Option Quota → ℕ
reserved_of none = 0
reserved_of (some q) = q.reserved

abbrev pub allocated_of : Option Quota → ℕ
allocated_of none = 0
allocated_of (some q) = q.allocated

abbrev pub limit_of : Option Quota → ℕ
limit_of none = 0
limit_of (some q) = q.hard_limit

-- The account of one class in one project, of which `others` is what the workspaces hold.
pub record Balanced (others : ℕ) (p c : String) (db : Db) : Type 0 where
  pub reserved_is : reserved_of (db.quotas p c) ≡ held pending p c db.reservations
  pub allocated_is : allocated_of (db.quotas p c) ≡ held committed p c db.reservations + others
  pub within : reserved_of (db.quotas p c) + allocated_of (db.quotas p c) ≤ limit_of (db.quotas p c)

abbrev pub id_of : QuotaReservation → String
id_of r = r.id

-- Every account is balanced, and no id occurs twice.
pub record Accounted (others : String → String → ℕ) (db : Db) : Type 0 where
  pub unique : Unique id_of db.reservations
  pub balanced : (p c : String) → Balanced (others p c) p c db

-- A successful UPDATE of a quota found no row, or put a row within its limit under the key.
pub update_quota-ok :
    (p c : String) (f : Quota → Option Quota) (db after : Db)
    → update_quota p c f db ≡ ok after
    → ((db.quotas p c ≡ none) × (after ≡ db))
      ⊎ ((q : Quota) × (q' : Quota) × (db.quotas p c ≡ some q)
          × (f q ≡ some q')
          × (q'.reserved + q'.allocated ≤ q'.hard_limit)
          × (after ≡ put_quota p c q' db))
unfolding update_quota
update_quota-ok p c f db after h = elim (Option-cases (db.quotas p c)) [
  | inl e ↦ inl (e, ground arith)
  | inr (q, e) ↦ elim (Option-cases (f q)) [
    | inl e' ↦ absurd (ground arith)
    | inr (q', e') ↦ inr (q, q', e, e', ground arith, ground arith)
  ]
]

pub update_quota-reservations :
    (p c : String) (f : Quota → Option Quota) (db after : Db)
    → update_quota p c f db ≡ ok after
    → after.reservations ≡ db.reservations
update_quota-reservations p c f db after h = elim (update_quota-ok p c f db after h) [
  | inl (e, same) ↦ ap (λ d. d.reservations) same
  | inr (q, q', e, e', fits, same) ↦ ap (λ d. d.reservations) same
]

-- A change of status moves the amount of the reservation between the two sums.
pub held-set_status :
    (s target : ReservationStatus) (now : ℕ) (p c : String) (r : QuotaReservation)
    (rs : List QuotaReservation)
    → Unique id_of rs
    → Row r rs
    → held s p c (update (λ x. str_eq x.id r.id) (set_status target now) rs) + weight s p c r
      ≡ held s p c rs + weight s p c (set_status target now r)
held-set_status s target now p c r rs u m =
    sum-update_key id_of (weight s p c) (set_status target now) r rs u m

pub Accounted-same :
    (others : String → String → ℕ) (db after : Db)
    → Accounted others db
    → after.quotas ≡ db.quotas
    → after.reservations ≡ db.reservations
    → Accounted others after
Accounted-same others db after good q r = record {
  unique = rw r (good.unique);
  balanced = λ p c.
      let b = good.balanced p c in
      record {
        reserved_is = rw (q, r) (b.reserved_is);
        allocated_is = rw (q, r) (b.allocated_is);
        within = rw q (b.within);
      };
}

pub Accounted-SameDomain :
    (others : String → String → ℕ) (db after : Db)
    → Accounted others db
    → SameDomain db after
    → Accounted others after
Accounted-SameDomain others db after good same =
    Accounted-same others db after good same.quotas same.reservations

Balanced-same :
    (others : ℕ) (p c : String) (db after : Db)
    → Balanced others p c db
    → after.quotas p c ≡ db.quotas p c
    → held pending p c after.reservations ≡ held pending p c db.reservations
    → held committed p c after.reservations ≡ held committed p c db.reservations
    → Balanced others p c after
Balanced-same others p c db after b q h h' = record {
  reserved_is = rw (q, h) (b.reserved_is);
  allocated_is = rw (q, h') (b.allocated_is);
  within = rw q (b.within);
}

-- The two texts of a key under which a written quota stands.
same_key : (p' p c' c : String) → (str_eq p' p && str_eq c' c) ≡ true → (p' ≡ p) × (c' ≡ c)
same_key p' p c' c h = ground (arith, eq_iff p' p, eq_iff c' c)

-- A new limit that the usage of the quota is within.
pub put_quota-Accounted :
    (others : String → String → ℕ) (p c : String) (q : Quota) (db : Db)
    → Accounted others db
    → q.reserved ≡ reserved_of (db.quotas p c)
    → q.allocated ≡ allocated_of (db.quotas p c)
    → q.reserved + q.allocated ≤ q.hard_limit
    → Accounted others (put_quota p c q db)
put_quota-Accounted others p c q db good r a fits = record {
  unique = good.unique;
  balanced = λ p' c'. elim (Bool-cases (str_eq p' p && str_eq c' c)) [
    | inl t ↦
        let (ep, ec) = same_key p' p c' c t in
        let b = good.balanced p c in
        rw (ep, ec)
          (record {
            reserved_is = rw (eq_refl p, eq_refl c) (r ∙ b.reserved_is);
            allocated_is = rw (eq_refl p, eq_refl c) (a ∙ b.allocated_is);
            within = rw (eq_refl p, eq_refl c) fits;
          })
    | inr t ↦
        Balanced-same (others p' c') p' c' db (put_quota p c q db) (good.balanced p' c') (rw t refl)
          refl refl
  ];
}

-- A change of one quota and of the reservations keeps the accounts when both change the sums of the
-- quota's own class and project by as much, and no other sums.
pub Accounted-write :
    (others : String → String → ℕ) (p c : String) (f : Quota → Option Quota) (db counted : Db)
    (rs : List QuotaReservation)
    → Accounted others db
    → update_quota p c f db ≡ ok counted
    → Unique id_of rs
    → ((s : ReservationStatus) (p' c' : String)
        → (str_eq p' p && str_eq c' c) ≡ false
        → held s p' c' rs ≡ held s p' c' db.reservations)
    → ((q q' : Quota)
        → f q ≡ some q'
        → q.reserved ≡ held pending p c db.reservations
        → q.allocated ≡ held committed p c db.reservations + others p c
        → (q'.reserved ≡ held pending p c rs) × (q'.allocated ≡ held committed p c rs + others p c))
    → (db.quotas p c ≡ none
        → (held pending p c rs ≡ held pending p c db.reservations)
          × (held committed p c rs ≡ held committed p c db.reservations))
    → Accounted others (record counted { reservations = rs })
Accounted-write others p c f db counted rs good h unique elsewhere here absent = record {
  unique = unique;
  balanced = λ p' c'. elim (Bool-cases (str_eq p' p && str_eq c' c)) [
    | inl t ↦
        let (ep, ec) = same_key p' p c' c t in
        rw (ep, ec) (at_key (update_quota-ok p c f db counted h))
    | inr t ↦
        Balanced-same (others p' c') p' c' db (record counted { reservations = rs })
          (good.balanced p' c') (kept p' c' t (update_quota-ok p c f db counted h))
          (elsewhere pending p' c' t) (elsewhere committed p' c' t)
  ];
}
  where
    Result : Type 0
    Result =
        ((db.quotas p c ≡ none) × (counted ≡ db))
        ⊎ ((q : Quota) × (q' : Quota) × (db.quotas p c ≡ some q)
            × (f q ≡ some q')
            × (q'.reserved + q'.allocated ≤ q'.hard_limit)
            × (counted ≡ put_quota p c q' db))

    kept :
        (p' c' : String)
        → (str_eq p' p && str_eq c' c) ≡ false
        → Result
        → counted.quotas p' c' ≡ db.quotas p' c'
    kept p' c' t (inl (e, same)) = ap (λ d. d.quotas p' c') same
    kept p' c' t (inr (q, q', e, e', fits, same)) = rw (same, t) refl

    at_key : Result → Balanced (others p c) p c (record counted { reservations = rs })
    at_key (inl (e, same)) =
        let (h₁, h₂) = absent e in
        Balanced-same (others p c) p c db (record counted { reservations = rs }) (good.balanced p c)
          (ap (λ d. d.quotas p c) same) h₁ h₂
    at_key (inr (q, q', e, e', fits, same)) =
        let b = good.balanced p c in
        let (r, a) = here q q' e' (rw e at b.reserved_is) (rw e at b.allocated_is) in
        let found : counted.quotas p c ≡ some q' = rw (same, eq_refl p, eq_refl c) refl in
        record { reserved_is = rw found r; allocated_is = rw found a; within = rw found fits }
