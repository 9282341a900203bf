-- ===== src/Workspace/Manifest.antt =====
-- `BuildWork` of internal/workspace/manifest.go: the Kubernetes objects of a workspace.
use gpu_rental_platform.Common.{
  ℕ, String, Bool, true, false, ◌||◌, ◌==◌, List, [], ◌∷◌, ◌++◌, if◌then◌else◌, str_eq, Outcome, ok,
  failure, fail_if, ◌>>◌,
}
use gpu_rental_platform.Common.Json.{Json, text, number, array, obj, itoa}
use gpu_rental_platform.Common.Text.{◌+++◌}
use gpu_rental_platform.Workspace.{
  Workspace, Snapshot, SnapshotState, desired_running, desired_terminated, work_name,
}

-- `ManifestInput`; the snapshots are a field of the source's `Workspace`
pub record ManifestInput : Type 0 where
  pub workspace : Workspace
  pub snapshots : List Snapshot
  pub operation_id : String

-- `ports.WorkRequest`, with the manifest before it is encoded
pub record WorkRequest : Type 0 where
  pub operation_id : String
  pub cluster_id : String
  pub work_id : String
  pub manifest : Json

abbrev pub labels : Workspace → Json
labels w = obj (
    ("app.kubernetes.io/managed-by", text "gpu-cloud-control-plane")
    ∷ ("gpu.platform.nyaacat.dev/workspace-id", text w.id)
    ∷ [])

abbrev pub metadata : String → String → Workspace → Json
metadata name namespace w =
    obj (("name", text name) ∷ ("namespace", text namespace) ∷ ("labels", labels w) ∷ [])

abbrev pub manifest : String → String → Json → Json → Json
manifest version kind meta spec =
    obj (
      ("apiVersion", text version) ∷ ("kind", text kind) ∷ ("metadata", meta) ∷ ("spec", spec) ∷ [])

abbrev pub match_labels : Json → Json
match_labels ls = obj (("matchLabels", ls) ∷ [])

abbrev pub volume_claim : Workspace → Json
volume_claim w =
    manifest "v1" "PersistentVolumeClaim" (metadata (work_name w.id +++ "-data") w.namespace_name w)
      (obj (
        ("accessModes", array (text "ReadWriteOnce" ∷ []))
        ∷ (
          "resources",
          obj (("requests", obj (("storage", text (itoa w.storage_gib +++ "Gi")) ∷ [])) ∷ []),
        )
        ∷ []))

abbrev pub reference_grant : Workspace → Json
reference_grant w =
    manifest "gateway.networking.k8s.io/v1beta1" "ReferenceGrant"
      (metadata (work_name w.id +++ "-gateway") "gateway-system" w)
      (obj (
        (
          "from",
          array (
              obj (
                ("group", text "gateway.networking.k8s.io")
                ∷ ("kind", text "HTTPRoute")
                ∷ ("namespace", text w.namespace_name)
                ∷ [])
              ∷ []),
        )
        ∷ (
          "to",
          array (
              obj (("group", text "gateway.networking.k8s.io") ∷ ("kind", text "Gateway") ∷ [])
              ∷ []),
        )
        ∷ []))

abbrev pub default_deny : Workspace → Json
default_deny w =
    manifest "networking.k8s.io/v1" "NetworkPolicy"
      (metadata (work_name w.id +++ "-default-deny") w.namespace_name w)
      (obj (
        ("podSelector", match_labels (labels w))
        ∷ ("policyTypes", array (text "Ingress" ∷ text "Egress" ∷ []))
        ∷ []))

abbrev pub allow_internal : Workspace → Json
allow_internal w =
    manifest "networking.k8s.io/v1" "NetworkPolicy"
      (metadata (work_name w.id +++ "-allow-internal") w.namespace_name w)
      (obj (
        ("podSelector", match_labels (labels w))
        ∷ ("policyTypes", array (text "Ingress" ∷ []))
        ∷ (
          "ingress",
          array (
              obj (("from", array (obj (("podSelector", match_labels (labels w)) ∷ []) ∷ [])) ∷ [])
              ∷ []),
        )
        ∷ []))

abbrev pub allow_dns : Workspace → Json
allow_dns w =
    manifest "networking.k8s.io/v1" "NetworkPolicy"
      (metadata (work_name w.id +++ "-allow-dns") w.namespace_name w)
      (obj (
        ("podSelector", match_labels (labels w))
        ∷ ("policyTypes", array (text "Egress" ∷ []))
        ∷ (
          "egress",
          array (
              obj (
                (
                  "to",
                  array (
                      obj (
                        (
                          "namespaceSelector",
                          match_labels
                              (obj (("kubernetes.io/metadata.name", text "kube-system") ∷ [])),
                        )
                        ∷ ("podSelector", match_labels (obj (("k8s-app", text "kube-dns") ∷ [])))
                        ∷ [])
                      ∷ []),
                )
                ∷ (
                  "ports",
                  array (
                      obj (("port", number 53) ∷ ("protocol", text "UDP") ∷ [])
                      ∷ obj (("port", number 53) ∷ ("protocol", text "TCP") ∷ [])
                      ∷ []),
                )
                ∷ [])
              ∷ []),
        )
        ∷ []))

abbrev pub volume_snapshot : Workspace → Snapshot → Json
volume_snapshot w s =
    manifest "snapshot.storage.k8s.io/v1" "VolumeSnapshot" (metadata s.name w.namespace_name w)
      (obj (("source", obj (("persistentVolumeClaimName", text s.source_pvc_name) ∷ [])) ∷ []))

abbrev pub is_failed : SnapshotState → Bool
is_failed SnapshotState.failed = true
is_failed _ = false

-- The loop over the snapshots
unfoldable pub volume_snapshots : Workspace → List Snapshot → List Json
volume_snapshots w [] = []
volume_snapshots w (s ∷ ss) =
    let rest = volume_snapshots w ss in
    if is_failed s.state then rest else volume_snapshot w s ∷ rest

abbrev pub gpu_resources : Workspace → Json
gpu_resources w = obj (
    ("requests", obj (("nvidia.com/gpu", text (itoa w.gpu_count)) ∷ []))
    ∷ ("limits", obj (("nvidia.com/gpu", text (itoa w.gpu_count)) ∷ []))
    ∷ [])

abbrev pub stateful_set : Workspace → Json
stateful_set w = manifest "apps/v1" "StatefulSet" (metadata (work_name w.id) w.namespace_name w) (
    obj (
      ("serviceName", text (work_name w.id))
      ∷ ("replicas", number 1)
      ∷ ("selector", match_labels (labels w))
      ∷ (
        "template",
        obj (
            ("metadata", obj (("labels", labels w) ∷ []))
            ∷ (
              "spec",
              obj (
                  (
                    "containers",
                    array (
                        obj (
                          ("name", text "workspace")
                          ∷ ("image", text "nvidia/cuda:12.6.3-base-ubuntu24.04")
                          ∷ ("command", array (text "sleep" ∷ text "infinity" ∷ []))
                          ∷ ("resources", gpu_resources w)
                          ∷ (
                            "volumeMounts",
                            array (
                                obj (
                                  ("name", text "workspace-data")
                                  ∷ ("mountPath", text "/workspace")
                                  ∷ [])
                                ∷ []),
                          )
                          ∷ [])
                        ∷ []),
                  )
                  ∷ (
                    "volumes",
                    array (
                        obj (
                          ("name", text "workspace-data")
                          ∷ (
                            "persistentVolumeClaim",
                            obj (("claimName", text (work_name w.id +++ "-data")) ∷ []),
                          )
                          ∷ [])
                        ∷ []),
                  )
                  ∷ []),
            )
            ∷ []),
      )
      ∷ []))

abbrev pub service_port : String → ℕ → Json
service_port name port = obj (
    ("name", text name)
    ∷ ("port", number port)
    ∷ ("protocol", text "TCP")
    ∷ ("targetPort", number port)
    ∷ [])

abbrev pub service : Workspace → Json
service w = manifest "v1" "Service" (metadata (work_name w.id) w.namespace_name w) (
    obj (
      ("clusterIP", text "None")
      ∷ ("selector", labels w)
      ∷ (
        "ports",
        array (
            service_port "ssh" 22
            ∷ service_port "web-terminal" 7681
            ∷ service_port "jupyter" 8888
            ∷ []),
      )
      ∷ []))

abbrev pub http_route : String → String → ℕ → Workspace → Json
http_route suffix path port w =
    manifest "gateway.networking.k8s.io/v1" "HTTPRoute"
      (metadata (work_name w.id +++ suffix) w.namespace_name w)
      (obj (
        (
          "parentRefs",
          array (
              obj
                (("name", text "gpu-platform-gateway") ∷ ("namespace", text "gateway-system") ∷ [])
              ∷ []),
        )
        ∷ (
          "rules",
          array (
              obj (
                (
                  "matches",
                  array (
                      obj (
                        ("path", obj (("type", text "PathPrefix") ∷ ("value", text path) ∷ []))
                        ∷ [])
                      ∷ []),
                )
                ∷ (
                  "backendRefs",
                  array (obj (("name", text (work_name w.id)) ∷ ("port", number port) ∷ []) ∷ []),
                )
                ∷ [])
              ∷ []),
        )
        ∷ []))

-- The objects of a workspace that is not terminated
abbrev pub lasting_objects : Workspace → List Snapshot → List Json
lasting_objects w snapshots =
    volume_claim w
    ∷ reference_grant w
    ∷ default_deny w
    ∷ allow_internal w
    ∷ allow_dns w
    ∷ volume_snapshots w snapshots

-- The objects of a workspace that is to run
abbrev pub serving_objects : Workspace → List Json
serving_objects w =
    stateful_set w
    ∷ service w
    ∷ http_route "-jupyter" "/jupyter" 8888 w
    ∷ http_route "-terminal" "/terminal" 7681 w
    ∷ []

unfoldable pub lasting : Workspace → List Snapshot → List Json
lasting w snapshots =
    if str_eq w.desired_state desired_terminated then [] else lasting_objects w snapshots

unfoldable pub serving : Workspace → List Json
serving w = if str_eq w.desired_state desired_running then serving_objects w else []

-- The objects of the work
abbrev pub manifests : Workspace → List Snapshot → List Json
manifests w snapshots = lasting w snapshots ++ serving w

-- `BuildWork`
unfoldable pub build_work : ManifestInput → Outcome WorkRequest
build_work input = do
  let w = input.workspace
  fail_if (str_eq w.id "" || str_eq w.cluster_id "" || str_eq w.namespace_name "")
      (failure "workspace identity and placement are required")
  fail_if (w.gpu_count == 0) (failure "workspace GPU count must be positive")
  fail_if (w.storage_gib == 0) (failure "workspace storage capacity must be positive")
  ok (record {
    operation_id = input.operation_id;
    cluster_id = w.cluster_id;
    work_id = work_name w.id;
    manifest = obj (
        ("apiVersion", text "work.open-cluster-management.io/v1")
        ∷ ("kind", text "ManifestWork")
        ∷ (
          "metadata",
          obj (
              ("name", text (work_name w.id))
              ∷ ("namespace", text w.cluster_id)
              ∷ ("labels", labels w)
              ∷ (
                "annotations",
                obj (("gpu.platform.nyaacat.dev/operation-id", text input.operation_id) ∷ []),
              )
              ∷ []),
        )
        ∷ (
          "spec",
          obj (("workload", obj (("manifests", array (manifests w input.snapshots)) ∷ [])) ∷ []),
        )
        ∷ []);
  })
