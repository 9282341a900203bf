-- ===== src/Workspace/Objects.antt =====
-- Which objects a workspace has in each wanted state: `BuildWork` of internal/workspace/manifest.go.
use mathlib.Core.Path.{subst}
use gpu_rental_platform.Common.{
  append-Row, sym, ap, Row-behind, Row, ◌≡◌, ◌≢◌, String, false, ◌⊎◌, inl, inr, refl, List, [], ◌∷◌,
  ◌++◌, if◌then◌else◌, str_eq, All, All-append, Bool-cases,
}
use gpu_rental_platform.Common.Json.{Json, text, at_key}
use gpu_rental_platform.Workspace.{
  Workspace, Snapshot, desired_running, desired_stopped, desired_terminated,
}
use gpu_rental_platform.Workspace.Manifest.{
  reference_grant, default_deny, allow_internal, allow_dns, volume_snapshot, service,
  lasting_objects, serving_objects, volume_claim, stateful_set, lasting, serving, manifests,
  is_failed, volume_snapshots,
}

-- In the namespace of the workspace, or the grant in that of the gateway.
abbrev pub IsContained : Workspace → Json → Type 0
IsContained w j =
    (at_key "namespace" (at_key "metadata" j) ≡ text w.namespace_name)
    ⊎ ((at_key "namespace" (at_key "metadata" j) ≡ text "gateway-system")
        × (at_key "kind" j ≡ text "ReferenceGrant"))

volume_snapshots-IsContained :
    (w : Workspace) (ss : List Snapshot) → All (IsContained w) (volume_snapshots w ss)
unfolding volume_snapshots
volume_snapshots-IsContained w [] = tt
volume_snapshots-IsContained w (s ∷ ss) = elim (Bool-cases (is_failed s.state)) [
  | inl t ↦ rw t (volume_snapshots-IsContained w ss)
  | inr t ↦ rw t (inl refl, volume_snapshots-IsContained w ss)
]

lasting-IsContained : (w : Workspace) (ss : List Snapshot) → All (IsContained w) (lasting w ss)
unfolding lasting
lasting-IsContained w ss =
    let all_inside : All (IsContained w) (lasting_objects w ss) = (
      inl refl,
      (inr (refl, refl), (inl refl, (inl refl, (inl refl, volume_snapshots-IsContained w ss)))),
    ) in
    elim (Bool-cases (str_eq w.desired_state desired_terminated)) [
      | inl t ↦ rw t tt
      | inr t ↦ rw t all_inside
    ]

serving-IsContained : (w : Workspace) → All (IsContained w) (serving w)
unfolding serving
serving-IsContained w =
    let all_inside : All (IsContained w) (serving_objects w) =
      (inl refl, (inl refl, (inl refl, (inl refl, tt)))) in
    elim (Bool-cases (str_eq w.desired_state desired_running)) [
      | inl t ↦ rw t all_inside
      | inr t ↦ rw t tt
    ]

-- In every wanted state, each object of a workspace stands in the namespace of its project, but for the
-- one grant that lets the routes of that namespace use the gateway.
pub manifests-IsContained :
    (w : Workspace) (ss : List Snapshot) → All (IsContained w) (manifests w ss)
manifests-IsContained w ss =
    All-append (IsContained w) (lasting w ss) (serving w) (lasting-IsContained w ss)
      (serving-IsContained w)

-- Neither a workload nor a way to reach one.
abbrev pub IsIdle : Json → Type 0
IsIdle j =
    (at_key "kind" j ≢ text "StatefulSet")
    × (at_key "kind" j ≢ text "Service")
    × (at_key "kind" j ≢ text "HTTPRoute")

volume_snapshots-IsIdle : (w : Workspace) (ss : List Snapshot) → All IsIdle (volume_snapshots w ss)
unfolding volume_snapshots
volume_snapshots-IsIdle w [] = tt
volume_snapshots-IsIdle w (s ∷ ss) = elim (Bool-cases (is_failed s.state)) [
  | inl t ↦ rw t (volume_snapshots-IsIdle w ss)
  | inr t ↦ rw t (((λ h. cc), (λ h. cc), (λ h. cc)), volume_snapshots-IsIdle w ss)
]

lasting_objects-IsIdle : (w : Workspace) (ss : List Snapshot) → All IsIdle (lasting_objects w ss)
lasting_objects-IsIdle w ss =
    let idle : (k : String)
        → (text k ≢ text "StatefulSet")
        → (text k ≢ text "Service")
        → (text k ≢ text "HTTPRoute")
        → (text k ≢ text "StatefulSet") × (text k ≢ text "Service") × (text k ≢ text "HTTPRoute") =
      λ k a b c. (a, b, c) in
    let policy = idle "NetworkPolicy" (λ h. cc) (λ h. cc) (λ h. cc) in
    (
      idle "PersistentVolumeClaim" (λ h. cc) (λ h. cc) (λ h. cc),
      (
        idle "ReferenceGrant" (λ h. cc) (λ h. cc) (λ h. cc),
        (policy, (policy, (policy, volume_snapshots-IsIdle w ss))),
      ),
    )

Row-volume_snapshots :
    (w : Workspace) (s : Snapshot) (ss : List Snapshot)
    → is_failed s.state ≡ false
    → Row s ss
    → Row (volume_snapshot w s) (volume_snapshots w ss)
unfolding volume_snapshots
Row-volume_snapshots w s [] good m = absurd m
Row-volume_snapshots w s (x ∷ ss) good (inl e) =
    subst (λ (y : Snapshot). Row (volume_snapshot w s) (volume_snapshots w (y ∷ ss))) (sym e)
      (rw good (inl refl))
Row-volume_snapshots w s (x ∷ ss) good (inr m) =
    let below = Row-volume_snapshots w s ss good m in
    elim (Bool-cases (is_failed x.state)) [ inl t ↦ rw t below | inr t ↦ rw t (inr below) ]

-- The volume, what keeps the workspace apart, and the pictures that were asked for and have not failed.
pub record IsLasting (w : Workspace) (ss : List Snapshot) (js : List Json) : Type 0 where
  pub volume : Row (volume_claim w) js
  pub grant : Row (reference_grant w) js
  pub closed : Row (default_deny w) js
  pub internal : Row (allow_internal w) js
  pub names : Row (allow_dns w) js
  pub pictures :
      (s : Snapshot) → Row s ss → is_failed s.state ≡ false → Row (volume_snapshot w s) js

lasting_objects-IsLasting :
    (w : Workspace) (ss : List Snapshot) (more : List Json)
    → IsLasting w ss (lasting_objects w ss ++ more)
lasting_objects-IsLasting w ss more = record {
  volume = inl refl;
  grant = inr (inl refl);
  closed = inr (inr (inl refl));
  internal = inr (inr (inr (inl refl)));
  names = inr (inr (inr (inr (inl refl))));
  pictures = λ s m good. inr (
      inr (
        inr (
          inr (
            inr (
              append-Row (volume_snapshot w s) (volume_snapshots w ss) more
                (Row-volume_snapshots w s ss good m))))));
}

manifests-of :
    (w : Workspace) (ss : List Snapshot) (d : String)
    → w.desired_state ≡ d
    → manifests w ss ≡ (
        (if str_eq d desired_terminated then [] else lasting_objects w ss)
        ++ (if str_eq d desired_running then serving_objects w else []))
unfolding lasting serving
manifests-of w ss d e =
    ap
      (λ x.
        (if str_eq x desired_terminated then [] else lasting_objects w ss)
        ++ (if str_eq x desired_running then serving_objects w else []))
      e

-- A workspace that is to run has its workload and the service of it, its volume, grant and policies and
-- its snapshots that have not failed; one that is to stop keeps the volume, grant, policies and
-- snapshots, and has no workload, service or route; one that is to end has no objects at all.
pub manifests_follow_state :
    (w : Workspace) (ss : List Snapshot)
    → (w.desired_state ≡ desired_running
        → Row (stateful_set w) (manifests w ss)
          × Row (service w) (manifests w ss)
          × IsLasting w ss (manifests w ss))
      × (w.desired_state ≡ desired_stopped
          → IsLasting w ss (manifests w ss) × All IsIdle (manifests w ss))
      × (w.desired_state ≡ desired_terminated → manifests w ss ≡ [])
manifests_follow_state w ss =
    let lasts = lasting_objects-IsLasting w ss in
    (
      λ e.
          let all : manifests w ss ≡ lasting_objects w ss ++ serving_objects w =
            manifests-of w ss desired_running e in
          subst (λ js. Row (stateful_set w) js × Row (service w) js × IsLasting w ss js) (sym all)
            (
              Row-behind (stateful_set w) (lasting_objects w ss) (serving_objects w) (inl refl),
              Row-behind (service w) (lasting_objects w ss) (serving_objects w) (inr (inl refl)),
              lasts (serving_objects w),
            ),
      λ e.
          let all : manifests w ss ≡ lasting_objects w ss ++ [] =
            manifests-of w ss desired_stopped e in
          subst (λ js. IsLasting w ss js × All IsIdle js) (sym all)
            (
              lasts [],
              All-append IsIdle (lasting_objects w ss) [] (lasting_objects-IsIdle w ss) tt,
            ),
      λ e. manifests-of w ss desired_terminated e,
    )
