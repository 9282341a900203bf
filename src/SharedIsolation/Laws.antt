-- ===== src/SharedIsolation/Laws.antt =====
-- What keeps a project apart: the objects that `BuildWork` of internal/sharedisolation applies.
use gpu_rental_platform.Common.{String, ◌≡◌, ◌⊎◌, ◌↔◌, ℕ, some, true, All, Row}
use gpu_rental_platform.Common.Int.{pos, pos_part}
use gpu_rental_platform.Common.Json.{Json, text, array, at_key, itoa}
use gpu_rental_platform.Tenancy.{Project}
use gpu_rental_platform.Workspace.Manifest.{WorkRequest}
use gpu_rental_platform.SharedIsolation.Traffic.{
  Peer, is_value, any_item, matches, match_labels, selects, is_peer, some_of, rule_allows,
  is_policy_for, some_rule, lets, lets_in, lets_out,
}
use gpu_rental_platform.SharedIsolation.{IsolationInput, namespace, isolation_manifests, is_shared}

-- The namespace of the project, or an object in it.
abbrev pub IsInside : Project → Json → Type 0
IsInside p j =
    ((at_key "kind" j ≡ text "Namespace")
      × (at_key "name" (at_key "metadata" j) ≡ text p.namespace_name))
    ⊎ (at_key "namespace" (at_key "metadata" j) ≡ text p.namespace_name)

semantics : Unit {0}
unfolding is_value any_item matches match_labels selects is_peer some_of rule_allows is_policy_for
    some_rule lets lets_in lets_out
semantics = tt

-- A name server of the cluster, asked for names
abbrev pub IsNameServer : Peer → ℕ → String → Type 0
IsNameServer peer port protocol =
    (peer.namespace ≡ "kube-system")
    × (peer.labels "k8s-app" ≡ some "kube-dns")
    × (port ≡ 53)
    × ((protocol ≡ "UDP") ⊎ (protocol ≡ "TCP"))

pub record IsIsolating (input : IsolationInput) (work : WorkRequest) : Type 0 where
  pub for_shared : is_shared input.project.isolation_class ≡ true
  pub applied :
      at_key "manifests" (at_key "workload" (at_key "spec" work.manifest))
      ≡ array (isolation_manifests input)
  pub inside : All (IsInside input.project) (isolation_manifests input)
  pub receives :
      (peer : Peer) (port : ℕ) (protocol : String)
      → (lets_in (isolation_manifests input) input.project.namespace_name peer port protocol ≡ true)
        ↔ (peer.namespace ≡ input.project.namespace_name)
  pub sends :
      (peer : Peer) (port : ℕ) (protocol : String)
      → (lets_out (isolation_manifests input) input.project.namespace_name peer port protocol
          ≡ true)
        ↔ IsNameServer peer port protocol
  pub restricted :
      (j : Json) × Row j (isolation_manifests input)
      × (at_key "kind" j ≡ text "Namespace")
      × (at_key "pod-security.kubernetes.io/enforce" (at_key "labels" (at_key "metadata" j))
          ≡ text "restricted")
  pub limited :
      (j : Json) × Row j (isolation_manifests input)
      × (at_key "kind" j ≡ text "ResourceQuota")
      × (at_key "requests.nvidia.com/gpu" (at_key "hard" (at_key "spec" j))
          ≡ text (itoa (pos_part input.gpu_quota)))
  pub quota_is : pos (pos_part input.gpu_quota) ≡ input.gpu_quota
