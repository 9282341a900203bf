-- ===== src/Catalog/Tests.antt =====
-- An inventory with one pool, one node and two devices.
use gpu_rental_platform.Common.{◌≡◌, refl, true, false, [], ◌∷◌, ok, err, invalid, Unique, All}
use gpu_rental_platform.Common.Int.{pos}
use gpu_rental_platform.Common.Text.{is_blank, trim_space, to_lower}
use gpu_rental_platform.Catalog.{
  ManagementState, HealthState, AcceleratorMode, GpuDeviceSnapshot, NodeSnapshot, NodePoolSnapshot,
  ReplaceInventoryParams,
}
use gpu_rental_platform.Catalog.Validate.{
  validate_inventory, validate_report, validate_pools, validate_nodes, validate_devices,
  validate_traits, trait_ok, is_trait_key, validate_opaque_key, valid_dns_label, is_dns_label,
  is_hex_text,
}
use gpu_rental_platform.Catalog.Laws.{
  validate_inventory_accepts, pool_name, node_key, nodes_of, IsNode,
}

code : Unit {0}
unfolding is_blank trim_space to_lower validate_inventory validate_report validate_pools
    validate_nodes validate_devices validate_traits trait_ok is_trait_key validate_opaque_key
    valid_dns_label is_dns_label is_hex_text
code = tt

abbrev device : GpuDeviceSnapshot
device = record {
  opaque_key = "gpu-0";
  resource_class = "gpu.nvidia.full";
  model = "A100";
  memory_mib = pos 40960;
  accelerator_mode = AcceleratorMode.whole;
  health_state = HealthState.healthy;
  allocatable = true;
  traits = ("driver/version", "550") ∷ [];
}

abbrev node : NodeSnapshot
node = record {
  opaque_key = "node-0";
  management_state = ManagementState.enabled;
  health_state = HealthState.healthy;
  schedulable = true;
  traits = [];
  gpu_devices = device ∷ record device { opaque_key = "gpu-1" } ∷ [];
}

abbrev pool : NodePoolSnapshot
pool = record { name = "a100"; management_state = ManagementState.enabled; nodes = node ∷ [] }

abbrev inventory : ReplaceInventoryParams
inventory = record {
  mutation = record {
    principal_id = "u1";
    request_id = "r1";
    idempotency_key = "key-0001";
    request_hash = "h1";
  };
  cluster_id = "11111111-1111-4111-9111-111111111111";
  expected_generation = pos 0;
  source_generation = "0123456789abcdef0123456789abcdef0123456789abcdef0123456789abcdef";
  agent_epoch = "epoch-01";
  report_sequence = 1;
  fencing_token = "t";
  fencing_enabled = true;
  execution_healthy = true;
  fenced = false;
  observed_at = 5;
  node_pools = pool ∷ [];
}

accepted : validate_inventory inventory ≡ ok tt
unfolding code
accepted = refl

-- The same node in two pools
twice_refused :
    validate_inventory (record inventory { node_pools = pool ∷ record pool { name = "h100" } ∷ [] })
    ≡ err invalid
unfolding code
twice_refused = refl

validate_inventory_accepts_example :
    Unique pool_name inventory.node_pools
    × Unique node_key (nodes_of inventory.node_pools)
    × All IsNode (nodes_of inventory.node_pools)
validate_inventory_accepts_example = validate_inventory_accepts inventory accepted
