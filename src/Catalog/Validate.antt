-- ===== src/Catalog/Validate.antt =====
-- internal/catalog/validate.go. A Go map from keys to nothing is the list of its keys, and the entries
-- of a map of traits have different keys.
use gpu_rental_platform.Common.{
  ℕ, String, Bool, true, false, not, ◌&&◌, ◌||◌, ◌==◌, Option, none, some, List, [], ◌∷◌, ltb, leb,
  str_eq, any, all, length, Outcome, ok, invalid, fail_if, ◌>>=◌, ◌>>◌,
}
use gpu_rental_platform.Common.Int.{ℤ, pos, ltb_ℤ, leb_ℤ, max_int64}
use gpu_rental_platform.Common.Text.{codes, len, rune_count, is_blank, to_lower}
use gpu_rental_platform.Catalog.{
  ManagementState, HealthState, AcceleratorMode, GpuDeviceSnapshot, NodeSnapshot, NodePoolSnapshot,
  ReplaceInventoryParams, ObserveClusterHeartbeatParams, CreateAcceleratorProfileParams,
}

-- [a-z0-9]
is_plain : ℕ → Bool
is_plain c = (leb 97 c && leb c 122) || (leb 48 c && leb c 57)

-- The codes behind the first one: those of `inner` and plain ones, and a plain one at the end.
label_tail : (ℕ → Bool) → List ℕ → Bool
unfolding is_plain
label_tail inner [] = true
label_tail inner (c ∷ []) = is_plain c
label_tail inner (c ∷ d ∷ cs) = (is_plain c || inner c) && label_tail inner (d ∷ cs)

label_codes : (ℕ → Bool) → List ℕ → Bool
unfolding is_plain label_tail
label_codes inner [] = false
label_codes inner (c ∷ cs) = is_plain c && label_tail inner cs

-- `dnsSubdomainPattern`: ^[a-z0-9]([-a-z0-9.]*[a-z0-9])?$
unfoldable pub is_dns_subdomain : String → Bool
unfolding label_codes
is_dns_subdomain s = label_codes (λ c. c == 45 || c == 46) (codes s)

-- `dnsLabelPattern`: ^[a-z0-9]([-a-z0-9]*[a-z0-9])?$
unfoldable pub is_dns_label : String → Bool
unfolding label_codes
is_dns_label s = label_codes (λ c. c == 45) (codes s)

trait_codes : List ℕ → Bool
unfolding is_plain
trait_codes [] = false
trait_codes (c ∷ cs) =
    is_plain c
    && all (λ d. is_plain d || d == 46 || d == 95 || d == 47 || d == 45) cs
    && leb (length cs) 127

-- `traitKeyPattern`: ^[a-z0-9][a-z0-9._/-]{0,127}$
unfoldable pub is_trait_key : String → Bool
unfolding trait_codes
is_trait_key s = trait_codes (codes s)

-- `slugPattern`: ^[a-z0-9][a-z0-9-]{1,61}[a-z0-9]$
unfoldable pub is_catalog_slug : String → Bool
unfolding label_codes
is_catalog_slug s =
    label_codes (λ c. c == 45) (codes s) && leb 3 (rune_count s) && leb (rune_count s) 63

-- `hex.DecodeString` accepts digits and letters of both cases, an even number of them.
is_hex : ℕ → Bool
is_hex c = (leb 48 c && leb c 57) || (leb 97 c && leb c 102) || (leb 65 c && leb c 70)

unfoldable pub is_hex_text : String → Bool
unfolding is_hex
is_hex_text s = all is_hex (codes s)

-- `validDNSLabel`
unfoldable pub valid_dns_label : String → Bool
unfolding is_dns_label
valid_dns_label s = not (str_eq s "") && leb (len s) 63 && is_dns_label s

abbrev pub valid_management_state : ManagementState → Bool
valid_management_state (ManagementState.other _) = false
valid_management_state _ = true

abbrev pub valid_health_state : HealthState → Bool
valid_health_state (HealthState.other _) = false
valid_health_state _ = true

abbrev pub is_whole : AcceleratorMode → Bool
is_whole AcceleratorMode.whole = true
is_whole _ = false

abbrev pub whole_gpu_class : String
whole_gpu_class = "gpu.nvidia.full"

unfoldable pub validate_opaque_key : String → Outcome (Unit {0})
validate_opaque_key key = fail_if (is_blank key || ltb 128 (len key)) invalid

unfoldable pub trait_ok : String × String → Bool
unfolding is_trait_key
trait_ok (key, value) = is_trait_key key && not (is_blank value) && leb (len value) 255

unfoldable pub validate_traits : List (String × String) → Outcome (Unit {0})
unfolding trait_ok
validate_traits traits = do
  fail_if (ltb 64 (length traits)) invalid
  fail_if (not (all trait_ok traits)) invalid

-- The checks that a heartbeat and an inventory share
unfoldable pub validate_report : String → ℕ → String → Bool → Outcome (Unit {0})
validate_report epoch sequence token fencing = do
  fail_if (ltb (len epoch) 8 || ltb 128 (len epoch)) invalid
  fail_if (sequence == 0 || ltb max_int64 sequence) invalid
  fail_if (ltb 255 (len token)) invalid
  fail_if (fencing && is_blank token) invalid

-- `ValidateHeartbeat`
unfoldable pub validate_heartbeat : ObserveClusterHeartbeatParams → Outcome (Unit {0})
unfolding validate_report
validate_heartbeat params = do
  validate_report params.agent_epoch params.report_sequence params.fencing_token
      params.fencing_enabled
  fail_if (params.observed_at == 0) invalid

-- The loop over the devices of a node: `seen` are the keys of the earlier ones.
unfoldable pub validate_devices : List String → List GpuDeviceSnapshot → Outcome (Unit {0})
unfolding validate_opaque_key validate_traits
validate_devices seen [] = ok tt
validate_devices seen (d ∷ ds) = do
  validate_opaque_key d.opaque_key
  fail_if (any (str_eq d.opaque_key) seen) invalid
  fail_if (not (str_eq d.resource_class whole_gpu_class) || not (is_whole d.accelerator_mode))
      invalid
  fail_if (is_blank d.model || ltb 120 (len d.model) || leb_ℤ d.memory_mib (pos 0)) invalid
  fail_if (not (valid_health_state d.health_state)) invalid
  validate_traits d.traits
  validate_devices (d.opaque_key ∷ seen) ds

-- The loop over the nodes of a pool: the keys that are seen behind it.
unfoldable pub validate_nodes : List String → List NodeSnapshot → Outcome (List String)
unfolding validate_opaque_key validate_traits validate_devices
validate_nodes seen [] = ok seen
validate_nodes seen (n ∷ ns) = do
  validate_opaque_key n.opaque_key
  fail_if (any (str_eq n.opaque_key) seen) invalid
  fail_if
      (not (valid_management_state n.management_state) || not (valid_health_state n.health_state))
      invalid
  validate_traits n.traits
  validate_devices [] n.gpu_devices
  validate_nodes (n.opaque_key ∷ seen) ns

-- The loop over the pools
unfoldable pub validate_pools :
    List String → List String → List NodePoolSnapshot → Outcome (Unit {0})
unfolding valid_dns_label validate_nodes
validate_pools names keys [] = ok tt
validate_pools names keys (p ∷ ps) = do
  fail_if (not (valid_dns_label p.name)) invalid
  fail_if (not (valid_management_state p.management_state)) invalid
  fail_if (any (str_eq p.name) names) invalid
  keys' ← validate_nodes keys p.nodes
  validate_pools (p.name ∷ names) keys' ps

-- `ValidateInventory`; `to_lower` is the lower case of the letters of ASCII, all that a digest may have.
unfoldable pub validate_inventory : ReplaceInventoryParams → Outcome (Unit {0})
unfolding validate_report validate_pools is_hex_text
validate_inventory params = do
  fail_if (ltb_ℤ params.expected_generation (pos 0)) invalid
  validate_report params.agent_epoch params.report_sequence params.fencing_token
      params.fencing_enabled
  fail_if (not (len params.source_generation == 64)) invalid
  fail_if (not (str_eq params.source_generation (to_lower params.source_generation))) invalid
  fail_if (not (is_hex_text params.source_generation)) invalid
  fail_if (params.observed_at == 0) invalid
  validate_pools [] [] params.node_pools

-- `ValidateCluster`
unfoldable pub validate_cluster : String → String → Outcome (Unit {0})
unfolding is_dns_subdomain
validate_cluster managed_cluster_name display_name = do
  fail_if
      (str_eq managed_cluster_name ""
        || ltb 253 (len managed_cluster_name)
        || not (is_dns_subdomain managed_cluster_name))
      invalid
  fail_if (is_blank display_name || ltb 120 (len display_name)) invalid

abbrev pub is_positive_memory : Option ℤ → Bool
is_positive_memory none = true
is_positive_memory (some n) = ltb_ℤ (pos 0) n

-- `ValidateAcceleratorProfile`
unfoldable pub validate_accelerator_profile : CreateAcceleratorProfileParams → Outcome (Unit {0})
unfolding is_catalog_slug validate_traits
validate_accelerator_profile params = do
  fail_if (is_blank params.name || ltb 120 (len params.name) || not (is_catalog_slug params.slug))
      invalid
  fail_if
      (not (is_whole params.accelerator_mode) || not (str_eq params.resource_class whole_gpu_class))
      invalid
  fail_if (leb_ℤ params.gpu_count (pos 0) || ltb_ℤ (pos 64) params.gpu_count) invalid
  fail_if (not (is_positive_memory params.memory_mib)) invalid
  validate_traits params.traits
