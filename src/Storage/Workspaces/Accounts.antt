-- ===== src/Storage/Workspaces/Accounts.antt =====
-- The units that running workspaces hold in a quota, and what taking and giving them does.
use gpu_rental_platform.Common.{
  eq_iff, eq_refl, Unique, ap, inl, inr, ◌≡◌, refl, ℕ, ◌+◌, String, false, ◌&&◌, Option, none, some,
  List, if◌then◌else◌, str_eq, sum, arith, ok, ◌∙◌, Bool-cases,
}
use gpu_rental_platform.Tenancy.{Quota, committed}
use gpu_rental_platform.Workspace.{Workspace}
use gpu_rental_platform.Storage.Db.{Db}
use gpu_rental_platform.Storage.Quota.{update_quota, gpu_class}
use gpu_rental_platform.Storage.Quota.Accounts.{
  Accounted, Balanced, held, update_quota-ok, update_quota-reservations,
}
use gpu_rental_platform.Storage.Workspaces.{is_running}

-- What a workspace holds of the GPU quota of a project.
abbrev pub gpus : String → Workspace → ℕ
gpus p w = if str_eq w.project_id p && is_running w.desired_state then w.gpu_count else 0

-- What the workspaces hold of a class in a project.
abbrev pub running_gpus : List Workspace → String → String → ℕ
running_gpus ws p c = if str_eq c gpu_class then sum (gpus p) ws else 0

abbrev pub workspace_id : Workspace → String
workspace_id w = w.id

-- The accounts of the quotas against their reservations and the running workspaces.
pub record WorkspacesAccounted (db : Db) : Type 0 where
  pub accounted : Accounted (running_gpus db.workspaces) db
  pub unique : Unique workspace_id db.workspaces

-- A change of one quota keeps the accounts when its allocated units follow what others hold.
pub Accounted-shift :
    (others others' : String → String → ℕ) (p c : String) (f : Quota → Option Quota)
    (db counted : Db)
    → Accounted others db
    → update_quota p c f db ≡ ok counted
    → ((p' c' : String) → (str_eq p' p && str_eq c' c) ≡ false → others' p' c' ≡ others p' c')
    → ((q q' : Quota)
        → f q ≡ some q'
        → q.allocated ≡ held committed p c db.reservations + others p c
        → (q'.reserved ≡ q.reserved)
          × (q'.allocated ≡ held committed p c db.reservations + others' p c))
    → (db.quotas p c ≡ none → others' p c ≡ others p c)
    → Accounted others' counted
Accounted-shift others others' p c f db counted good h elsewhere here absent = record {
  unique = rw rs (good.unique);
  balanced = λ p' c'. elim (Bool-cases (str_eq p' p && str_eq c' c)) [
    | inl t ↦
        let ep : p' ≡ p = ground (arith, eq_iff p' p) in
        let ec : c' ≡ c = ground (arith, eq_iff c' c) in rw (ep, ec) at_key
    | inr t ↦ kept p' c' (elsewhere p' c' t) (unmoved p' c' t)
  ];
}
  where
    rs : counted.reservations ≡ db.reservations
    rs = update_quota-reservations p c f db counted h

    kept :
        (p' c' : String)
        → others' p' c' ≡ others p' c'
        → counted.quotas p' c' ≡ db.quotas p' c'
        → Balanced (others' p' c') p' c' counted
    kept p' c' o e =
        let b = good.balanced p' c' in
        record {
          reserved_is = rw (e, rs) (b.reserved_is);
          allocated_is = rw (e, rs, o) (b.allocated_is);
          within = rw e (b.within);
        }

    unmoved :
        (p' c' : String)
        → (str_eq p' p && str_eq c' c) ≡ false
        → counted.quotas p' c' ≡ db.quotas p' c'
    unmoved p' c' t = elim (update_quota-ok p c f db counted h) [
      | inl (e, same) ↦ ap (λ d. d.quotas p' c') same
      | inr (q, q', e, e', fits, same) ↦ rw (same, t) refl
    ]

    at_key : Balanced (others' p c) p c counted
    at_key = elim (update_quota-ok p c f db counted h) [
      | inl (e, same) ↦ kept p c (absent e) (ap (λ d. d.quotas p c) same)
      | inr (q, q', e, e', fits, same) ↦
          let b = good.balanced p c in
          let (r, a) = here q q' e' (rw e at b.allocated_is) in
          let found : counted.quotas p c ≡ some q' = rw (same, eq_refl p, eq_refl c) refl in
          let reserved = rw e at b.reserved_is in
          record {
            reserved_is = rw (found, rs) (r ∙ reserved);
            allocated_is = rw (found, rs) a;
            within = rw found fits;
          }
    ]

-- What others hold changes with the workspaces, but the tables of the accounts do not.
pub Accounted-others :
    (others others' : String → String → ℕ) (db after : Db)
    → Accounted others db
    → ((p c : String) → others' p c ≡ others p c)
    → after.quotas ≡ db.quotas
    → after.reservations ≡ db.reservations
    → Accounted others' after
Accounted-others others others' db after good same q r = record {
  unique = rw r (good.unique);
  balanced = λ p c.
      let b = good.balanced p c in
      record {
        reserved_is = rw (q, r) (b.reserved_is);
        allocated_is = rw (q, r, same p c) (b.allocated_is);
        within = rw q (b.within);
      };
}
