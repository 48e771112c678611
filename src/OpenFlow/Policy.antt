-- ===== src/OpenFlow/Policy.antt =====
-- `flowsForIngressNetworkPolicy` and `flowsForEgressNetworkPolicy` of
-- controllers/openflow/flows.go. The two differ in which end of a packet is the pod's.
pub mod Flows
pub mod Sorts
pub mod Permits
pub mod Matching
pub mod Verdict
pub mod Table
use k_vswitch.Prelude.{
  ℤ, pos, String, Bool, true, false, Option, none, some, List, [], ◌∷◌, map, is_empty, str_eq,
  if◌then◌else◌,
}
use k_vswitch.Text.{non_empty, to_lower}
use k_vswitch.Result.{Result, ok, panic}
use k_vswitch.Exec.{Exec, ◌>>=◌, ◌>>◌, lift, skip, for_each}
use k_vswitch.Flows.{
  Flow, new_flow, ◌▸◌, with_table, with_priority, with_protocol, with_ip_dest, with_ip_src,
  with_tcp_dest_port, with_udp_dest_port, with_action_resubmit, with_action_drop,
}
use k_vswitch.Flows.Buffer.{FlowsBuffer, add_flow}
use k_vswitch.OpenFlow.Config.{table_network_policies, table_classification}
use k_vswitch.OpenFlow.Kube.{
  Pod, Namespace, Labels, Selector, everything, from_set, IntOrString, PolicyPort, IpBlock, Peer,
  PolicyRule, NetworkPolicy, Listing, listed, failed,
}

-- The listers that the policies read, and intstr.IntOrString.IntValue.
pub record Lookup : Type 0 where
  pub list_pods_in : String → Selector → Listing Pod
  pub list_namespaces : Selector → Listing Namespace
  pub int_value : IntOrString → ℤ

-- a nil pointer is read
abbrev pub deref {ℓ} : {A : Type ℓ} → Option A → Result A
deref none = panic
deref (some a) = ok a

-- `getPodIPs`: the pods that have no address yet are left out
unfoldable pub get_pod_ips : List Pod → List String
get_pod_ips [] = []
get_pod_ips (pod ∷ pods) =
    let rest = get_pod_ips pods in if non_empty pod.pod_ip then pod.pod_ip ∷ rest else rest

-- Which end of the packets that a rule allows is the pod's, and which is the peer's.
pub data Direction : Type 0 where
  ingress egress : Direction

abbrev pub with_pod : Direction → String → Flow → Flow
with_pod ingress ip = with_ip_dest ip
with_pod egress ip = with_ip_src ip

abbrev pub with_peer : Direction → String → Flow → Flow
with_peer ingress ip = with_ip_src ip
with_peer egress ip = with_ip_dest ip

-- the flow that drops what no rule allows
abbrev pub default_drop : Direction → String → Flow
default_drop d pod_ip =
    new_flow
    ▸ with_table table_network_policies
    ▸ with_priority (pos 100)
    ▸ with_protocol "ip"
    ▸ with_pod d pod_ip
    ▸ with_action_drop

-- A flow that lets packets of one protocol go on; `narrow` adds the tests of ports and addresses.
abbrev pub allow : String → (Flow → Flow) → Flow
allow protocol narrow =
    new_flow
    ▸ with_table table_network_policies
    ▸ with_priority (pos 1000)
    ▸ with_protocol protocol
    ▸ narrow
    ▸ with_action_resubmit table_classification

abbrev pub when : Bool → Exec FlowsBuffer (Unit {0}) → Exec FlowsBuffer (Unit {0})
when test m = if test then m else skip

-- the flow that lets packets between a block and a pod go on, and the one that drops them
abbrev pub allow_block : Direction → String → String → Flow
allow_block d cidr pod_ip = allow "ip" (λ f. f ▸ with_peer d cidr ▸ with_pod d pod_ip)

abbrev pub drop_block : Direction → String → String → Flow
drop_block d cidr pod_ip =
    new_flow
    ▸ with_table table_network_policies
    ▸ with_priority (pos 1100)
    ▸ with_protocol "ip"
    ▸ with_peer d cidr
    ▸ with_pod d pod_ip
    ▸ with_action_drop

-- an empty set of labels selects every pod
abbrev pub peer_selector : Labels → Selector
peer_selector match_labels = if is_empty match_labels then everything else from_set match_labels

module _ (env : Lookup) where
  -- the body of `for _, port := range ing.Ports`; `narrow` adds the tests of addresses
  pub allow_port : (Flow → Flow) → PolicyPort → Exec FlowsBuffer (Unit {0})
  allow_port narrow p = do
    port ← lift (deref p.port)
    let port_num = env.int_value port
    name ← lift (deref p.protocol)
    let protocol = to_lower name
    when (str_eq protocol "tcp")
        (add_flow (allow "tcp" (λ f. f ▸ with_tcp_dest_port port_num ▸ narrow)))
    when (str_eq protocol "udp")
        (add_flow (allow "udp" (λ f. f ▸ with_udp_dest_port port_num ▸ narrow)))

  -- with no ports, all traffic; else the traffic of each port
  pub allow_ports : List PolicyPort → (Flow → Flow) → Exec FlowsBuffer (Unit {0})
  unfolding allow_port for_each
  allow_ports ports narrow =
      if is_empty ports then add_flow (allow "ip" narrow) else for_each ports (allow_port narrow)

  -- a rule with no peers: the peer's address is ignored
  pub allow_all_peers : Direction → List String → PolicyRule → Exec FlowsBuffer (Unit {0})
  unfolding allow_ports for_each
  allow_all_peers d local_pod_ips rule =
      for_each local_pod_ips (λ pod_ip. allow_ports rule.ports (with_pod d pod_ip))

  -- a peer with an `ipBlock`: the ports of the rule are not looked at
  pub ip_block_flows : Direction → List String → IpBlock → Exec FlowsBuffer (Unit {0})
  unfolding for_each
  ip_block_flows d local_pod_ips block = do
    for_each local_pod_ips (λ pod_ip. add_flow (allow_block d block.cidr pod_ip))
    for_each block.except
        (λ cidr. for_each local_pod_ips (λ pod_ip. add_flow (drop_block d cidr pod_ip)))

  -- The namespaces of a peer, `none` where the lister fails. If no namespace has the labels, the
  -- policy's own namespace stays.
  unfoldable pub peer_namespaces : NetworkPolicy → Peer → Option (List String)
  peer_namespaces np peer = elim peer.namespace_selector [
    | none ↦ some (np.namespace ∷ [])
    | some match_labels ↦ found (env.list_namespaces (from_set match_labels))
  ]
    where
      found : Listing Namespace → Option (List String)
      found (failed e) = none
      found (listed []) = some (np.namespace ∷ [])
      found (listed (ns ∷ rest)) = some (map (λ (n : Namespace). n.name) (ns ∷ rest))

  -- the pods of one namespace, an error of the lister being logged
  unfoldable pub peer_ips : Labels → String → List String
  unfolding get_pod_ips
  peer_ips match_labels namespace = elim (env.list_pods_in namespace (peer_selector match_labels)) [
    | listed pods ↦ get_pod_ips pods
    | failed e ↦ []
  ]

  -- the body of `for _, namespace := range namespaces`
  pub namespace_flows :
      Direction → List String → List PolicyPort → Labels → String → Exec FlowsBuffer (Unit {0})
  unfolding for_each allow_ports peer_ips
  namespace_flows d local_pod_ips ports match_labels namespace = for_each local_pod_ips (λ pod_ip.
      for_each (peer_ips match_labels namespace)
        (λ peer_ip. allow_ports ports (λ f. f ▸ with_peer d peer_ip ▸ with_pod d pod_ip)))

  abbrev each_namespace :
      Direction
      → List String
      → List PolicyPort
      → Labels
      → Option (List String)
      → Exec FlowsBuffer (Unit {0})
  unfolding namespace_flows for_each
  each_namespace d local_pod_ips ports match_labels none = skip
  each_namespace d local_pod_ips ports match_labels (some namespaces) =
      for_each namespaces (namespace_flows d local_pod_ips ports match_labels)

  -- a peer with selectors, ignored where the pod selector is nil
  pub selector_flows :
      Direction → NetworkPolicy → List String → List PolicyPort → Peer → Exec FlowsBuffer (Unit {0})
  unfolding each_namespace peer_namespaces
  selector_flows d np local_pod_ips ports peer = elim peer.pod_selector [
    | none ↦ skip
    | some match_labels ↦
        each_namespace d local_pod_ips ports match_labels (peer_namespaces np peer)
  ]

  -- the body of `for _, from := range ing.From` and of `for _, to := range eg.To`
  pub peer_flows :
      Direction → NetworkPolicy → List String → List PolicyPort → Peer → Exec FlowsBuffer (Unit {0})
  unfolding ip_block_flows selector_flows
  peer_flows d np local_pod_ips ports peer = elim peer.ip_block [
    | some block ↦ ip_block_flows d local_pod_ips block
    | none ↦ selector_flows d np local_pod_ips ports peer
  ]

  -- the body of the loop over the rules
  pub rule_flows :
      Direction → NetworkPolicy → List String → PolicyRule → Exec FlowsBuffer (Unit {0})
  unfolding allow_all_peers peer_flows for_each
  rule_flows d np local_pod_ips rule =
      if is_empty rule.peers
      then allow_all_peers d local_pod_ips rule
      else for_each rule.peers (peer_flows d np local_pod_ips rule.ports)

  -- the flows for one direction: the drops, then those of the rules
  pub direction_flows :
      Direction → List PolicyRule → NetworkPolicy → List String → Exec FlowsBuffer (Unit {0})
  unfolding rule_flows for_each
  direction_flows d rules np local_pod_ips = do
    for_each local_pod_ips (λ pod_ip. add_flow (default_drop d pod_ip))
    for_each rules (rule_flows d np local_pod_ips)

  unfoldable pub flows_for_ingress_network_policy :
      NetworkPolicy → List String → Exec FlowsBuffer (Unit {0})
  unfolding direction_flows
  flows_for_ingress_network_policy np = direction_flows ingress np.ingress np

  unfoldable pub flows_for_egress_network_policy :
      NetworkPolicy → List String → Exec FlowsBuffer (Unit {0})
  unfolding direction_flows
  flows_for_egress_network_policy np = direction_flows egress np.egress np
