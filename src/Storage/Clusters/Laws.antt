-- ===== src/Storage/Clusters/Laws.antt =====
-- New clusters and profiles are found again, and reports on a cluster only move forward.
use gpu_rental_platform.Common.{
  Option-cases, length, ◌≡◌, ◌↔◌, ◌≤◌, ◌<◌, ◌∙◌, inl, inr, refl, sym, ap, ℕ, ◌+◌, String, true,
  false, not, ◌||◌, none, some, [], ◌∷◌, ok, err, not_found, conflict, stale_report, str_eq, any,
  find, find_none, find-append, arith, eq_refl, fail_if, or_fail, >>=-eq-ok, fail_if-eq-ok,
  or_fail-eq-ok, ok-injective, update, leb, Option, List,
}
use gpu_rental_platform.Common.Text.{trim_space, to_lower}
use gpu_rental_platform.Identity.{Bytes, Entropy, new_uuid, is_uuid}
use gpu_rental_platform.Identity.Laws.{new_uuid-is_uuid}
use gpu_rental_platform.Identity.Lower.{to_lower-new_uuid}
use gpu_rental_platform.Tenancy.{Acceptance}
use gpu_rental_platform.ClusterState.{Status, evaluate, default_thresholds}
use gpu_rental_platform.ClusterState.Laws.{evaluate-schedulable_iff, IsRecent}
use gpu_rental_platform.Catalog.{
  Cluster, AcceleratorProfile, CreateAcceleratorProfileParams, ObserveClusterHeartbeatParams,
}
use gpu_rental_platform.Catalog.Validate.{validate_heartbeat, validate_accelerator_profile}
use gpu_rental_platform.Storage.Db.{Db}
use gpu_rental_platform.Storage.Mutation.Replay.{accept_mutation_once, accept_mutation-resource}
use gpu_rental_platform.Storage.Clusters.{
  get_cluster, heard, is_stale, heartbeat_signals, observe_heartbeat, or_zero, is_before,
  is_enabled, insert_profile, new_profile, create_profile, get_profile,
}

-- If the generator fills in sixteen bytes, a new id passes `IsUUID` and is in lower case.
drawn-is_uuid :
    (entropy : Entropy) (k : ℕ) (id : String)
    → ((value : Bytes) → entropy k ≡ some value → length value ≡ 16)
    → new_uuid entropy k ≡ ok id
    → (is_uuid id ≡ true) × (to_lower id ≡ id)
unfolding new_uuid
drawn-is_uuid entropy k id sized made = elim (Option-cases (entropy k)) [
  | inl e ↦ absurd (ground arith)
  | inr (value, e) ↦ (
    new_uuid-is_uuid entropy k value id e (sized value e) made,
    to_lower-new_uuid entropy k id made,
  )
]

-- A profile that was created, by a call that is no replay, is found under the id of the acceptance,
-- where the generator fills in sixteen bytes: enabled, with the trimmed name and slug.
pub create_profile_found :
    (entropy : Entropy) (k now : ℕ) (given : CreateAcceleratorProfileParams) (db : Db)
    (a : Acceptance) (after : Db)
    → ((value : Bytes) → entropy k ≡ some value → length value ≡ 16)
    → create_profile entropy k now given db ≡ ok (a, after)
    → a.replayed ≡ false
    → get_profile a.resource_id after
      ≡ ok (
          new_profile a.resource_id
            (record given { name = trim_space given.name; slug = trim_space given.slug })
            now)
unfolding create_profile get_profile insert_profile
create_profile_found entropy k now given db a after sized h fresh =
    let params = record given { name = trim_space given.name; slug = trim_space given.slug } in
    let (_, _, h₁) = >>=-eq-ok (validate_accelerator_profile params) _ h in
    let (id, e, h₂) = >>=-eq-ok (new_uuid entropy k) _ h₁ in
    let same = accept_mutation-resource entropy (k + 1) now given.mutation _ db a after h₂ fresh in
    let (uuid, low) = drawn-is_uuid entropy k id sized e in
    elim (accept_mutation_once entropy (k + 1) now given.mutation _ db a after h₂) [
      | inl (replayed, _) ↦ absurd (ground arith)
      | inr (_, applied, did, adds) ↦
          let p = new_profile id params now in
          let clash =
            any (λ (x : AcceleratorProfile). str_eq x.id id || str_eq x.slug params.slug)
              db.profiles in
          let (_, c, made) = >>=-eq-ok (fail_if clash conflict) _ did in
          let rows = adds.same.profiles ∙ sym (ap (λ d. d.profiles) (ok-injective made)) in
          let before =
            find_none (λ (x : AcceleratorProfile). str_eq x.id id)
              (λ x. str_eq x.id id || str_eq x.slug params.slug) db.profiles (λ x t. ground arith)
              (fail_if-eq-ok clash _ c) in
          let behind =
            find-append (λ (x : AcceleratorProfile). str_eq x.id id) db.profiles (p ∷ []) before in
          rw (same, uuid, low, rows, behind, eq_refl id) refl
    ]

-- The first row with an id stays the first when an update keeps the ids.
find-heard :
    (id : String) (f : Cluster → Cluster) (c : Cluster) (cs : List Cluster)
    → ((x : Cluster) → (f x).id ≡ x.id)
    → find (λ x. str_eq x.id id) cs ≡ some c
    → find (λ x. str_eq x.id id) (update (λ x. str_eq x.id id) f cs) ≡ some (f c)
find-heard id f c [] keeps h = cc
find-heard id f c (x ∷ cs) keeps h = ground (arith, keeps x, find-heard id f c cs keeps)

observe_heartbeat-ok :
    (now : ℕ) (params : ObserveClusterHeartbeatParams) (db after : Db)
    → observe_heartbeat now params db ≡ ok after
    → (c : Cluster) × (status : Status) × (is_uuid params.cluster_id ≡ true)
      × (find (λ (x : Cluster). str_eq x.id (to_lower params.cluster_id)) db.clusters ≡ some c)
      × (is_stale params c ≡ false)
      × (evaluate (heartbeat_signals params c now) default_thresholds ≡ ok status)
      × (find (λ (x : Cluster). str_eq x.id (to_lower params.cluster_id)) after.clusters
          ≡ some (heard params status now c))
unfolding observe_heartbeat heard
observe_heartbeat-ok now params db after h =
    let (_, e, h₁) = >>=-eq-ok (fail_if (not (is_uuid params.cluster_id)) not_found) _ h in
    let uuid = fail_if-eq-ok (not (is_uuid params.cluster_id)) _ e in
    let (_, _, h₂) = >>=-eq-ok (validate_heartbeat params) _ h₁ in
    let own = find (λ (x : Cluster). str_eq x.id (to_lower params.cluster_id)) db.clusters in
    let (c, e₁, h₃) = >>=-eq-ok (or_fail own not_found) _ h₂ in
    let found = or_fail-eq-ok own _ e₁ in
    let (_, e₂, h₄) = >>=-eq-ok (fail_if (is_stale params c) stale_report) _ h₃ in
    let (status, e₃, h₅) =
      >>=-eq-ok (evaluate (heartbeat_signals params c now) default_thresholds) _ h₄ in
    let rows = sym (ap (λ d. d.clusters) (ok-injective h₅)) in
    (
      c,
      status,
      ground arith,
      found,
      fail_if-eq-ok (is_stale params c) _ e₂,
      e₃,
      ap (find (λ (x : Cluster). str_eq x.id (to_lower params.cluster_id))) rows
          ∙ find-heard (to_lower params.cluster_id) (heard params status now) c db.clusters
              (λ x. refl) found,
    )

forward :
    (params : ObserveClusterHeartbeatParams) (c : Cluster)
    → is_stale params c ≡ false
    → (c.agent_epoch ≡ some params.agent_epoch → c.report_sequence < params.report_sequence)
      × (or_zero c.last_heartbeat_at ≤ params.observed_at)
unfolding is_stale
forward params c fresh = (
  (λ e. let fresh' = rw (e, eq_refl params.agent_epoch) at fresh in ground arith),
  last c.last_heartbeat_at (ground arith),
)
  where
    last : (o : Option ℕ) → is_before params.observed_at o ≡ false → or_zero o ≤ params.observed_at
    last none h = omega arith
    last (some t) h = ground arith

-- A heartbeat that is accepted shows the cluster under its id as it reports: schedulable exactly if the
-- cluster is enabled, its observation and the last inventory are recent, and it executes work and is
-- not fenced. The number of the report is above the last one of the same epoch, and the time of the
-- last heartbeat does not go back.
pub observe_heartbeat_advances :
    (now : ℕ) (params : ObserveClusterHeartbeatParams) (db after : Db)
    → observe_heartbeat now params db ≡ ok after
    → (c c' : Cluster) × (get_cluster params.cluster_id db ≡ ok c)
      × (get_cluster params.cluster_id after ≡ ok c')
      × ((c'.schedulable ≡ true) ↔ (
          (is_enabled c.management_state ≡ true)
          × IsRecent now params.observed_at default_thresholds.degraded_after
          × IsRecent now (or_zero c.last_inventory_at) default_thresholds.degraded_after
          × (params.execution_healthy ≡ true)
          × (params.fenced ≡ false)))
      × (c'.agent_epoch ≡ some params.agent_epoch)
      × (c.agent_epoch ≡ c'.agent_epoch → c.report_sequence < c'.report_sequence)
      × (or_zero c.last_heartbeat_at ≤ or_zero c'.last_heartbeat_at)
unfolding get_cluster heard
observe_heartbeat_advances now params db after h =
    let (c, status, uuid, found, fresh, judged, stands) =
      observe_heartbeat-ok now params db after h in
    let (number, time) = forward params c fresh in
    (
      c,
      heard params status now c,
      rw (uuid, found) refl,
      rw (uuid, stands) refl,
      evaluate-schedulable_iff (heartbeat_signals params c now) default_thresholds status judged,
      refl,
      number,
      time,
    )

-- A heartbeat that was accepted is refused as stale when it is sent again at any time, and so is every
-- valid heartbeat of the same epoch with the same or a smaller number, as long as the row stands.
pub observe_heartbeat_once :
    (now : ℕ) (params : ObserveClusterHeartbeatParams) (db after : Db)
    → observe_heartbeat now params db ≡ ok after
    → (later : ℕ) (again : ObserveClusterHeartbeatParams) → again.cluster_id ≡ params.cluster_id
    → again.agent_epoch ≡ params.agent_epoch
    → again.report_sequence ≤ params.report_sequence
    → validate_heartbeat again ≡ ok tt
    → observe_heartbeat later again after ≡ err stale_report
unfolding observe_heartbeat is_stale heard
observe_heartbeat_once now params db after h later again which epoch number valid =
    let (c, status, uuid, found, fresh, judged, stands) =
      observe_heartbeat-ok now params db after h in
    let low : leb again.report_sequence params.report_sequence ≡ true = ground arith in
    rw (valid, which, uuid, stands, epoch, eq_refl params.agent_epoch, low) refl
