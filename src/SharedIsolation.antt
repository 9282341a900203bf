-- ===== src/SharedIsolation.antt =====
-- `BuildWork` of internal/sharedisolation/manifest.go: the objects that keep a project apart in a
-- cluster which it shares. A map is the list of its pairs; `Marshal` does not fail on such values, and
-- the manifest stands here before it is encoded.
pub mod Traffic
pub mod Laws
mod Tests
use gpu_rental_platform.Common.{
  ℕ, String, Bool, true, false, not, ◌||◌, List, [], ◌∷◌, ◌++◌, str_eq, any, select, Outcome, ok,
  failure, fail_if, ◌>>◌, ◌>>=◌,
}
use gpu_rental_platform.Common.Int.{ℤ, pos, pos_part, ltb_ℤ}
use gpu_rental_platform.Common.Json.{Json, text, number, array, obj, itoa}
use gpu_rental_platform.Common.Text.{is_blank, plain_prefix, ◌+++◌}
use gpu_rental_platform.Tenancy.{Project, IsolationClass, shared, isolation_text}
use gpu_rental_platform.Workspace.Manifest.{WorkRequest}

-- `ManifestInput`
pub record IsolationInput : Type 0 where
  pub project : Project
  pub operation_id : String
  pub cluster_id : String
  pub gpu_quota : ℤ
  pub addon_install_namespace : String
  pub addon_service_account : String

-- `WorkName`
unfoldable pub project_work_name : String → String
project_work_name id = "gpu-project-" +++ plain_prefix 12 id

-- `mergeMaps`: the second map stands over the first.
abbrev pub merge_maps : List (String × Json) → List (String × Json) → List (String × Json)
merge_maps first second =
    select (λ (p : String × Json). not (any (λ (q : String × Json). str_eq q.0 p.0) second)) first
    ++ second

abbrev pub texts : List String → Json
texts ss = array (each ss)
  where
    each : List String → List Json
    each [] = []
    each (s ∷ rest) = text s ∷ each rest

abbrev pub project_labels : Project → List (String × Json)
project_labels p =
    ("app.kubernetes.io/managed-by", text "gpu-cloud-control-plane")
    ∷ ("gpu.platform.nyaacat.dev/project-id", text p.id)
    ∷ ("gpu.platform.nyaacat.dev/tenant-id", text p.tenant_id)
    ∷ ("gpu.platform.nyaacat.dev/isolation", text (isolation_text p.isolation_class))
    ∷ []

-- `namespacedMetadata`
abbrev pub namespaced : Project → String → Json
namespaced p name = obj (
    ("name", text name)
    ∷ ("namespace", text p.namespace_name)
    ∷ ("labels", obj (project_labels p))
    ∷ [])

abbrev pub pod_security : List (String × Json)
pod_security =
    ("pod-security.kubernetes.io/enforce", text "restricted")
    ∷ ("pod-security.kubernetes.io/enforce-version", text "v1.34")
    ∷ ("pod-security.kubernetes.io/audit", text "restricted")
    ∷ ("pod-security.kubernetes.io/audit-version", text "v1.34")
    ∷ ("pod-security.kubernetes.io/warn", text "restricted")
    ∷ ("pod-security.kubernetes.io/warn-version", text "v1.34")
    ∷ []

abbrev pub namespace : Project → Json
namespace p = obj (
    ("apiVersion", text "v1")
    ∷ ("kind", text "Namespace")
    ∷ (
      "metadata",
      obj (
          ("name", text p.namespace_name)
          ∷ ("labels", obj (merge_maps (project_labels p) pod_security))
          ∷ []),
    )
    ∷ [])

abbrev pub rule : String → List String → Json
rule group resources = obj (
    ("apiGroups", texts (group ∷ []))
    ∷ ("resources", texts resources)
    ∷ ("verbs", texts ("get" ∷ "list" ∷ "watch" ∷ []))
    ∷ [])

abbrev pub observer_role : Project → Json
observer_role p = obj (
    ("apiVersion", text "rbac.authorization.k8s.io/v1")
    ∷ ("kind", text "Role")
    ∷ ("metadata", namespaced p "gpu-platform-project-observer")
    ∷ (
      "rules",
      array (
          rule "" ("events" ∷ "persistentvolumeclaims" ∷ "pods" ∷ "pods/log" ∷ "services" ∷ [])
          ∷ rule "apps" ("deployments" ∷ "replicasets" ∷ "statefulsets" ∷ [])
          ∷ rule "batch" ("jobs" ∷ [])
          ∷ []),
    )
    ∷ [])

abbrev pub observer_binding : IsolationInput → Json
observer_binding input = obj (
    ("apiVersion", text "rbac.authorization.k8s.io/v1")
    ∷ ("kind", text "RoleBinding")
    ∷ ("metadata", namespaced input.project "gpu-platform-project-observer")
    ∷ (
      "roleRef",
      obj (
          ("apiGroup", text "rbac.authorization.k8s.io")
          ∷ ("kind", text "Role")
          ∷ ("name", text "gpu-platform-project-observer")
          ∷ []),
    )
    ∷ (
      "subjects",
      array (
          obj (
            ("kind", text "ServiceAccount")
            ∷ ("name", text input.addon_service_account)
            ∷ ("namespace", text input.addon_install_namespace)
            ∷ [])
          ∷ []),
    )
    ∷ [])

abbrev pub with_spec : String → String → Project → String → Json → Json
with_spec version kind p name spec = obj (
    ("apiVersion", text version)
    ∷ ("kind", text kind)
    ∷ ("metadata", namespaced p name)
    ∷ ("spec", spec)
    ∷ [])

abbrev pub resource_quota : IsolationInput → Json
resource_quota input = with_spec "v1" "ResourceQuota" input.project "gpu-project-quota" (
    obj (
      ("hard", obj (("requests.nvidia.com/gpu", text (itoa (pos_part input.gpu_quota))) ∷ []))
      ∷ []))

abbrev pub network_policy : Project → String → List (String × Json) → Json
network_policy p name rest =
    with_spec "networking.k8s.io/v1" "NetworkPolicy" p name (obj (("podSelector", obj []) ∷ rest))

abbrev pub deny_all : Project → Json
deny_all p =
    network_policy p "default-deny" (("policyTypes", texts ("Ingress" ∷ "Egress" ∷ [])) ∷ [])

abbrev pub allow_within : Project → Json
allow_within p = network_policy p "allow-project-internal" (
    ("policyTypes", texts ("Ingress" ∷ []))
    ∷ ("ingress", array (obj (("from", array (obj (("podSelector", obj []) ∷ []) ∷ [])) ∷ []) ∷ []))
    ∷ [])

abbrev pub dns_rules : Json
dns_rules = array (
    obj (
      (
        "to",
        array (
            obj (
              (
                "namespaceSelector",
                obj (
                    ("matchLabels", obj (("kubernetes.io/metadata.name", text "kube-system") ∷ []))
                    ∷ []),
              )
              ∷ ("podSelector", obj (("matchLabels", obj (("k8s-app", text "kube-dns") ∷ [])) ∷ []))
              ∷ [])
            ∷ []),
      )
      ∷ (
        "ports",
        array (
            obj (("port", number 53) ∷ ("protocol", text "UDP") ∷ [])
            ∷ obj (("port", number 53) ∷ ("protocol", text "TCP") ∷ [])
            ∷ []),
      )
      ∷ [])
    ∷ [])

abbrev pub allow_names : Project → Json
allow_names p =
    network_policy p "allow-dns"
      (("policyTypes", texts ("Egress" ∷ [])) ∷ ("egress", dns_rules) ∷ [])

-- `manifests`
abbrev pub isolation_manifests : IsolationInput → List Json
isolation_manifests input =
    namespace input.project
    ∷ observer_role input.project
    ∷ observer_binding input
    ∷ resource_quota input
    ∷ deny_all input.project
    ∷ allow_within input.project
    ∷ allow_names input.project
    ∷ []

abbrev pub isolation_work : IsolationInput → Json
isolation_work input = obj (
    ("apiVersion", text "work.open-cluster-management.io/v1")
    ∷ ("kind", text "ManifestWork")
    ∷ (
      "metadata",
      obj (
          ("name", text (project_work_name input.project.id))
          ∷ ("namespace", text input.cluster_id)
          ∷ ("labels", obj (project_labels input.project))
          ∷ (
            "annotations",
            obj (
                ("gpu.platform.nyaacat.dev/operation-id", text input.operation_id)
                ∷ (
                  "gpu.platform.nyaacat.dev/project-generation",
                  text (itoa input.project.generation),
                )
                ∷ []),
          )
          ∷ []),
    )
    ∷ ("spec", obj (("workload", obj (("manifests", array (isolation_manifests input)) ∷ [])) ∷ []))
    ∷ [])

abbrev pub is_shared : IsolationClass → Bool
is_shared shared = true
is_shared _ = false

-- `BuildWork`
unfoldable pub build_isolation : IsolationInput → Outcome WorkRequest
build_isolation input = do
  let p = input.project
  fail_if (str_eq p.id "" || str_eq p.tenant_id "" || str_eq p.namespace_name "")
      (failure "project identity and namespace are required")
  fail_if (not (is_shared p.isolation_class))
      (failure "shared isolation renderer requires a shared project")
  fail_if (ltb_ℤ input.gpu_quota (pos 0)) (failure "GPU quota must be non-negative")
  fail_if
      (is_blank input.cluster_id
        || is_blank input.addon_install_namespace
        || is_blank input.addon_service_account)
      (failure "cluster and Add-on identities are required")
  ok (record {
    operation_id = input.operation_id;
    cluster_id = input.cluster_id;
    work_id = project_work_name p.id;
    manifest = isolation_work input;
  })
