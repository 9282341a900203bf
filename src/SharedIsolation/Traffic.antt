-- ===== src/SharedIsolation/Traffic.antt =====
-- What network policies let through, read off their JSON as the API of Kubernetes documents it: a pod
-- that policies of a direction select is closed in it but for what some rule of them allows, an empty
-- selector selects all, a rule without peers or ports is for all of them, and a peer without a namespace
-- selector is in the namespace of the policy.
use gpu_rental_platform.Common.{
  ℕ, String, Bool, true, false, not, ◌&&◌, ◌||◌, ◌==◌, Option, none, some, List, str_eq, any,
  if◌then◌else◌,
}
use gpu_rental_platform.Common.Json.{
  Json, text, number, list, object, nothing, Items, no_items, item, Fields, no_fields, field,
  at_key,
}

-- The other end of a connection; its labels by their keys.
pub record Peer : Type 0 where
  pub namespace : String
  pub labels : String → Option String

unfoldable pub is_value : Option String → Json → Bool
is_value (some v) (text w) = str_eq v w
is_value _ _ = false

abbrev is_text : String → Json → Bool
is_text s (text t) = str_eq s t
is_text s _ = false

abbrev is_number : ℕ → Json → Bool
is_number n (number m) = n == m
is_number n _ = false

unfoldable pub any_item : (Json → Bool) → Items → Bool
any_item f no_items = false
any_item f (item j rest) = let more = any_item f rest in f j || more

unfoldable pub matches : Fields → (String → Option String) → Bool
unfolding is_value
matches no_fields labels = true
matches (field k v rest) labels = let more = matches rest labels in is_value (labels k) v && more

-- `matchLabels` of a selector
unfoldable pub match_labels : Json → (String → Option String) → Bool
unfolding matches
match_labels nothing labels = true
match_labels (object fs) labels = matches fs labels
match_labels _ labels = false

-- A selector, and `otherwise` where there is none
unfoldable pub selects : Json → (String → Option String) → Bool → Bool
unfolding match_labels
selects nothing labels otherwise = otherwise
selects selector labels otherwise = match_labels (at_key "matchLabels" selector) labels

-- The label that every namespace has
abbrev of_namespace : String → String → Option String
of_namespace name k = if str_eq k "kubernetes.io/metadata.name" then some name else none

unfoldable pub is_peer : String → Peer → Json → Bool
unfolding selects
is_peer home peer j =
    selects (at_key "namespaceSelector" j) (of_namespace peer.namespace)
      (str_eq peer.namespace home)
    && selects (at_key "podSelector" j) peer.labels true

-- Some of a list of a rule, or all where it has none
unfoldable pub some_of : (Json → Bool) → Json → Bool
unfolding any_item
some_of f nothing = true
some_of f (list js) = any_item f js
some_of f _ = false

unfoldable pub rule_allows : String → String → Peer → ℕ → String → Json → Bool
unfolding is_peer some_of
rule_allows peers home peer port protocol rule =
    some_of (is_peer home peer) (at_key peers rule)
    && some_of (λ p. is_number port (at_key "port" p) && is_text protocol (at_key "protocol" p))
        (at_key "ports" rule)

unfoldable pub is_policy_for : String → Json → Bool
unfolding some_of any_item
is_policy_for direction j =
    is_text "NetworkPolicy" (at_key "kind" j)
    && some_of (is_text direction) (at_key "policyTypes" (at_key "spec" j))

-- The rules of a policy for a direction: without them nothing is allowed
unfoldable pub some_rule : (Json → Bool) → Json → Bool
unfolding any_item
some_rule f (list js) = any_item f js
some_rule f _ = false

-- Whether the objects let through what the pods of their namespace receive, or send.
unfoldable pub lets : String → String → String → List Json → String → Peer → ℕ → String → Bool
unfolding is_policy_for rule_allows some_rule
lets direction rules peers js home peer port protocol =
    not (any (is_policy_for direction) js)
    || any
        (λ j.
          is_policy_for direction j
          && some_rule (rule_allows peers home peer port protocol) (at_key rules (at_key "spec" j)))
        js

unfoldable pub lets_in : List Json → String → Peer → ℕ → String → Bool
unfolding lets
lets_in js = lets "Ingress" "ingress" "from" js

unfoldable pub lets_out : List Json → String → Peer → ℕ → String → Bool
unfolding lets
lets_out js = lets "Egress" "egress" "to" js
