-- ===== src/Catalog/Laws.antt =====
-- What an accepted inventory is: `ValidateInventory` of internal/catalog/validate.go.
use gpu_rental_platform.Storage.Creation.Rows.{All-weaken}
use gpu_rental_platform.Common.{
  ◌==◌, ◌≡◌, ◌≢◌, ◌<◌, sym, String, true, false, not, ◌||◌, List, [], ◌∷◌, ◌++◌, str_eq, any, All,
  All-append, Unique, arith, eq_iff, eq_refl, ok, invalid, fail_if, >>=-eq-ok, fail_if-ok,
  fail_if-eq-ok, ok-injective, ltb,
}
use gpu_rental_platform.Common.Text.{to_lower, len, is_blank}
use gpu_rental_platform.Common.Int.{ltb_ℤ, pos, leb_ℤ, pos_part}
use gpu_rental_platform.Catalog.{
  AcceleratorMode, GpuDeviceSnapshot, NodeSnapshot, NodePoolSnapshot, ReplaceInventoryParams,
}
use gpu_rental_platform.Catalog.Validate.{
  validate_devices, validate_nodes, validate_pools, validate_inventory, validate_opaque_key,
  validate_traits, validate_report, whole_gpu_class, is_whole, valid_health_state,
  valid_management_state, valid_dns_label, is_hex_text,
}

-- A text that is none of those.
abbrev Fresh : List String → String → Type 0
Fresh seen x = any (str_eq x) seen ≡ false

Fresh-apart :
    (k : String) (seen : List String) (x : String) → Fresh (k ∷ seen) x → (x ≢ k) × Fresh seen x
Fresh-apart k seen x h = ground (arith, eq_refl k)

module _ {A : Type 0} (key : A → String) where
  -- Behind a key that was seen, the keys differ from it and from those before.
  Fresh-behind :
      (k : String) (seen : List String) (xs : List A)
      → All (λ x. Fresh (k ∷ seen) (key x)) xs
      → All (λ x. key x ≢ k) xs × All (λ x. Fresh seen (key x)) xs
  Fresh-behind k seen [] h = (tt, tt)
  Fresh-behind k seen (x ∷ xs) h =
      let (apart, fresh) = Fresh-apart k seen (key x) h.0 in
      let (aparts, freshs) = Fresh-behind k seen xs h.1 in ((apart, aparts), (fresh, freshs))

  Unique-join :
      (xs ys : List A)
      → Unique key xs
      → Unique key ys
      → All (λ y. All (λ x. key x ≢ key y) xs) ys
      → Unique key (xs ++ ys)
  Unique-join [] ys u v apart = v
  Unique-join (x ∷ xs) ys u v apart = (
    All-append (λ y. key y ≢ key x) xs ys u.0 (heads ys apart),
    Unique-join xs ys u.1 v (tails ys apart),
  )
    where
      heads :
          (zs : List A)
          → All (λ y. All (λ x'. key x' ≢ key y) (x ∷ xs)) zs
          → All (λ y. key y ≢ key x) zs
      heads [] h = tt
      heads (z ∷ zs) h = ((λ e. h.0.0 (sym e)), heads zs h.1)

      tails :
          (zs : List A)
          → All (λ y. All (λ x'. key x' ≢ key y) (x ∷ xs)) zs
          → All (λ y. All (λ x'. key x' ≢ key y) xs) zs
      tails [] h = tt
      tails (z ∷ zs) h = (h.0.1, tails zs h.1)

abbrev device_key : GpuDeviceSnapshot → String
device_key d = d.opaque_key

abbrev pub node_key : NodeSnapshot → String
node_key n = n.opaque_key

abbrev pub pool_name : NodePoolSnapshot → String
pool_name p = p.name

-- A whole GPU of the class for whole GPUs, with some memory.
abbrev IsWholeGpu : GpuDeviceSnapshot → Type 0
IsWholeGpu d =
    (d.resource_class ≡ whole_gpu_class)
    × (d.accelerator_mode ≡ AcceleratorMode.whole)
    × (0 < pos_part d.memory_mib)

-- The devices of a node are whole GPUs with different keys.
abbrev pub IsNode : NodeSnapshot → Type 0
IsNode n = Unique (λ d. d.opaque_key) n.gpu_devices × All IsWholeGpu n.gpu_devices

-- All nodes of the pools
abbrev pub nodes_of : List NodePoolSnapshot → List NodeSnapshot
nodes_of [] = []
nodes_of (p ∷ ps) = p.nodes ++ nodes_of ps

is_whole-eq : (m : AcceleratorMode) → is_whole m ≡ true → m ≡ AcceleratorMode.whole
is_whole-eq m h = ground arith

validate_devices-ok :
    (seen : List String) (ds : List GpuDeviceSnapshot)
    → validate_devices seen ds ≡ ok tt
    → Unique device_key ds × All IsWholeGpu ds × All (λ d. Fresh seen (device_key d)) ds
unfolding validate_devices
validate_devices-ok seen [] h = (tt, tt, tt)
validate_devices-ok seen (d ∷ ds) h =
    let (_, _, h₁) = >>=-eq-ok (validate_opaque_key d.opaque_key) _ h in
    let (_, c₁, h₂) = >>=-eq-ok (fail_if (any (str_eq d.opaque_key) seen) invalid) _ h₁ in
    let new = fail_if-eq-ok (any (str_eq d.opaque_key) seen) _ c₁ in
    let odd = not (str_eq d.resource_class whole_gpu_class) || not (is_whole d.accelerator_mode) in
    let (_, c₂, h₃) = >>=-eq-ok (fail_if odd invalid) _ h₂ in
    let usual = fail_if-eq-ok odd _ c₂ in
    let bare = is_blank d.model || ltb 120 (len d.model) || leb_ℤ d.memory_mib (pos 0) in
    let (_, c₃, h₄) = >>=-eq-ok (fail_if bare invalid) _ h₃ in
    let full = fail_if-eq-ok bare _ c₃ in
    let h₅ = fail_if-ok (not (valid_health_state d.health_state)) _ _ h₄ in
    let (_, _, h₆) = >>=-eq-ok (validate_traits d.traits) _ h₅ in
    let (unique, wholes, fresh) = validate_devices-ok (d.opaque_key ∷ seen) ds h₆ in
    let (apart, before) = Fresh-behind device_key d.opaque_key seen ds fresh in
    let whole : is_whole d.accelerator_mode ≡ true = ground arith in
    (
      (apart, unique),
      (
        (
          ground (arith, eq_iff d.resource_class whole_gpu_class),
          is_whole-eq d.accelerator_mode whole,
          ground arith,
        ),
        wholes,
      ),
      (new, before),
    )

validate_nodes-ok :
    (seen seen' : List String) (ns : List NodeSnapshot)
    → validate_nodes seen ns ≡ ok seen'
    → Unique node_key ns
      × All IsNode ns
      × All (λ n. Fresh seen (node_key n)) ns
      × ((x : String) → Fresh seen' x → Fresh seen x × All (λ n. node_key n ≢ x) ns)
unfolding validate_nodes
validate_nodes-ok seen seen' [] h =
    (tt, tt, tt, λ x f. (let same = ok-injective h in rw same f, tt))
validate_nodes-ok seen seen' (n ∷ ns) h =
    let (_, _, h₁) = >>=-eq-ok (validate_opaque_key n.opaque_key) _ h in
    let (_, c₁, h₂) = >>=-eq-ok (fail_if (any (str_eq n.opaque_key) seen) invalid) _ h₁ in
    let new = fail_if-eq-ok (any (str_eq n.opaque_key) seen) _ c₁ in
    let h₃ =
      fail_if-ok
        (not (valid_management_state n.management_state) || not (valid_health_state n.health_state))
        _ _ h₂ in
    let (_, _, h₄) = >>=-eq-ok (validate_traits n.traits) _ h₃ in
    let (_, c₂, h₅) = >>=-eq-ok (validate_devices [] n.gpu_devices) _ h₄ in
    let (unique_devices, wholes, _) = validate_devices-ok [] n.gpu_devices c₂ in
    let (unique, nodes, fresh, later) = validate_nodes-ok (n.opaque_key ∷ seen) seen' ns h₅ in
    let (apart, before) = Fresh-behind node_key n.opaque_key seen ns fresh in
    (
      (apart, unique),
      ((unique_devices, wholes), nodes),
      (new, before),
      λ x f.
          let (g, rest) = later x f in
          let (ne, old) = Fresh-apart n.opaque_key seen x g in (old, ((λ e. ne (sym e)), rest)),
    )

validate_pools-ok :
    (names keys : List String) (ps : List NodePoolSnapshot)
    → validate_pools names keys ps ≡ ok tt
    → Unique pool_name ps
      × All (λ p. Fresh names (pool_name p)) ps
      × Unique node_key (nodes_of ps)
      × All IsNode (nodes_of ps)
      × All (λ n. Fresh keys (node_key n)) (nodes_of ps)
unfolding validate_pools
validate_pools-ok names keys [] h = (tt, tt, tt, tt, tt)
validate_pools-ok names keys (p ∷ ps) h =
    let h₁ = fail_if-ok (not (valid_dns_label p.name)) _ _ h in
    let h₂ = fail_if-ok (not (valid_management_state p.management_state)) _ _ h₁ in
    let (_, c₁, h₃) = >>=-eq-ok (fail_if (any (str_eq p.name) names) invalid) _ h₂ in
    let new = fail_if-eq-ok (any (str_eq p.name) names) _ c₁ in
    let (keys', c₂, h₄) = >>=-eq-ok (validate_nodes keys p.nodes) _ h₃ in
    let (unique, nodes, fresh, later) = validate_nodes-ok keys keys' p.nodes c₂ in
    let (unique', fresh', unique_nodes, nodes', fresh_nodes) =
      validate_pools-ok (p.name ∷ names) keys' ps h₄ in
    let (apart, before) = Fresh-behind pool_name p.name names ps fresh' in
    (
      (apart, unique'),
      (new, before),
      Unique-join node_key p.nodes (nodes_of ps) unique unique_nodes (
          All-weaken (λ n. Fresh keys' (node_key n))
            (λ y. All (λ x. node_key x ≢ node_key y) p.nodes) (nodes_of ps)
            (λ n f. (later (node_key n) f).1) fresh_nodes),
      All-append IsNode p.nodes (nodes_of ps) nodes nodes',
      All-append (λ n. Fresh keys (node_key n)) p.nodes (nodes_of ps) fresh
          (All-weaken (λ n. Fresh keys' (node_key n)) (λ n. Fresh keys (node_key n)) (nodes_of ps)
            (λ n f. (later (node_key n) f).0) fresh_nodes),
    )

-- In an inventory that is accepted, no two pools have one name, no two nodes of the cluster have one
-- key, and the devices of each node have different keys and are whole GPUs with some memory.
pub validate_inventory_accepts :
    (params : ReplaceInventoryParams)
    → validate_inventory params ≡ ok tt
    → Unique pool_name params.node_pools
      × Unique node_key (nodes_of params.node_pools)
      × All IsNode (nodes_of params.node_pools)
unfolding validate_inventory
validate_inventory_accepts params h =
    let h₁ = fail_if-ok (ltb_ℤ params.expected_generation (pos 0)) _ _ h in
    let (_, _, h₂) =
      >>=-eq-ok
        (validate_report params.agent_epoch params.report_sequence params.fencing_token
          params.fencing_enabled)
        _ h₁ in
    let source = params.source_generation in
    let h₃ = fail_if-ok (not (len source == 64)) _ _ h₂ in
    let h₄ = fail_if-ok (not (str_eq source (to_lower source))) _ _ h₃ in
    let h₅ = fail_if-ok (not (is_hex_text source)) _ _ h₄ in
    let h₆ = fail_if-ok (params.observed_at == 0) _ _ h₅ in
    let (unique, _, unique_nodes, nodes, _) = validate_pools-ok [] [] params.node_pools h₆ in
    (unique, unique_nodes, nodes)
