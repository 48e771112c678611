-- ===== src/OpenFlow/Policy/Flows.antt =====
-- The flows of a network policy as lists, and that the loops of
-- controllers/openflow/flows.go add exactly these.
use k_vswitch.Prelude.{
  ◌≡◌, String, Option, none, some, List, [], ◌∷◌, ◌++◌, is_empty, All, str_eq, if◌then◌else◌,
}
use k_vswitch.Text.{to_lower}
use k_vswitch.Exec.{Exec, for_each, skip}
use k_vswitch.Flows.{Flow, ◌▸◌, with_tcp_dest_port, with_udp_dest_port}
use k_vswitch.Flows.Buffer.{FlowsBuffer, add_flow}
use k_vswitch.Flows.Buffer.Emits.{
  Emits, Emits-skip, Emits-add_flow, Emits-seq, Emits-if, Emits-for_each, flat_map,
}
use k_vswitch.OpenFlow.Kube.{
  Labels, IntOrString, PolicyPort, IpBlock, Peer, PolicyRule, NetworkPolicy,
}
use k_vswitch.OpenFlow.Policy.{
  Lookup, Direction, with_pod, with_peer, default_drop, allow, allow_port, allow_ports,
  allow_all_peers, allow_block, drop_block, ip_block_flows, peer_namespaces, peer_ips,
  namespace_flows, each_namespace, selector_flows, peer_flows, rule_flows, direction_flows,
}

-- The pointers of a port are not nil, as the API server's defaults ensure for the protocol.
abbrev pub IsFilled : PolicyPort → Type 0
IsFilled p =
    (port : IntOrString) × (name : String) × (p.port ≡ some port) × (p.protocol ≡ some name)

-- So are those of all ports of a rule.
abbrev pub HasPorts : PolicyRule → Type 0
HasPorts rule = All IsFilled rule.ports

-- a true proposition for each element, where a loop's body needs none
All-trivial {ℓ} : {X : Type ℓ} (xs : List X) → All (λ x. Unit {0}) xs
All-trivial [] = tt
All-trivial (x ∷ xs) = (tt, All-trivial xs)

Emits-for_all {ℓ} :
    {X : Type ℓ} (xs : List X) (body : X → Exec FlowsBuffer (Unit {0})) (spec : X → List Flow)
    → ((x : X) → Emits (body x) (spec x))
    → Emits (for_each xs body) (flat_map spec xs)
Emits-for_all xs body spec each =
    Emits-for_each (λ x. Unit) xs body spec (λ x h. each x) (All-trivial xs)

module _ (env : Lookup) where
  abbrev pub tcp_flows : (Flow → Flow) → IntOrString → String → List Flow
  tcp_flows narrow port name =
      if str_eq (to_lower name) "tcp"
      then allow "tcp" (λ f. f ▸ with_tcp_dest_port (env.int_value port) ▸ narrow) ∷ []
      else []

  abbrev pub udp_flows : (Flow → Flow) → IntOrString → String → List Flow
  udp_flows narrow port name =
      if str_eq (to_lower name) "udp"
      then allow "udp" (λ f. f ▸ with_udp_dest_port (env.int_value port) ▸ narrow) ∷ []
      else []

  abbrev pub port_list : (Flow → Flow) → Option IntOrString → Option String → List Flow
  port_list narrow (some port) (some name) =
      tcp_flows narrow port name ++ udp_flows narrow port name
  port_list narrow _ _ = []

  allow_port-Emits :
      (narrow : Flow → Flow) (p : PolicyPort)
      → IsFilled p
      → Emits (allow_port env narrow p) (port_list narrow p.port p.protocol)
  unfolding allow_port
  allow_port-Emits narrow p (port, name, is_port, is_name) =
      rw (is_port, is_name)
        (Emits-seq
          (Emits-if (str_eq (to_lower name) "tcp")
            (Emits-add_flow
              (allow "tcp" (λ f. f ▸ with_tcp_dest_port (env.int_value port) ▸ narrow)))
            Emits-skip)
          (Emits-if (str_eq (to_lower name) "udp")
            (Emits-add_flow
              (allow "udp" (λ f. f ▸ with_udp_dest_port (env.int_value port) ▸ narrow)))
            Emits-skip))

  abbrev pub ports_list : List PolicyPort → (Flow → Flow) → List Flow
  ports_list ports narrow =
      if is_empty ports
      then allow "ip" narrow ∷ []
      else flat_map (λ (p : PolicyPort). port_list narrow p.port p.protocol) ports

  allow_ports-Emits :
      (ports : List PolicyPort) (narrow : Flow → Flow)
      → All IsFilled ports
      → Emits (allow_ports env ports narrow) (ports_list ports narrow)
  unfolding allow_ports
  allow_ports-Emits ports narrow set =
      Emits-if (is_empty ports) (Emits-add_flow (allow "ip" narrow)) (
        Emits-for_each IsFilled ports (allow_port env narrow)
          (λ p. port_list narrow p.port p.protocol) (allow_port-Emits narrow) set)

  abbrev pub all_peers_list : Direction → List String → PolicyRule → List Flow
  all_peers_list d local_pod_ips rule =
      flat_map (λ pod_ip. ports_list rule.ports (with_pod d pod_ip)) local_pod_ips

  all_peers-Emits :
      (d : Direction) (ips : List String) (rule : PolicyRule)
      → HasPorts rule
      → Emits (allow_all_peers env d ips rule) (all_peers_list d ips rule)
  unfolding allow_all_peers
  all_peers-Emits d ips rule set =
      Emits-for_all ips (λ ip. allow_ports env rule.ports (with_pod d ip))
        (λ ip. ports_list rule.ports (with_pod d ip))
        (λ ip. allow_ports-Emits rule.ports (with_pod d ip) set)

  abbrev pub block_list : Direction → List String → IpBlock → List Flow
  block_list d local_pod_ips block =
      flat_map (λ pod_ip. allow_block d block.cidr pod_ip ∷ []) local_pod_ips
      ++ flat_map (λ cidr. flat_map (λ pod_ip. drop_block d cidr pod_ip ∷ []) local_pod_ips)
          block.except

  block-Emits :
      (d : Direction) (ips : List String) (block : IpBlock)
      → Emits (ip_block_flows env d ips block) (block_list d ips block)
  unfolding ip_block_flows
  block-Emits d ips block =
      Emits-seq
        (Emits-for_all ips (λ ip. add_flow (allow_block d block.cidr ip))
          (λ ip. allow_block d block.cidr ip ∷ [])
          (λ ip. Emits-add_flow (allow_block d block.cidr ip)))
        (Emits-for_all block.except (λ cidr. for_each ips (λ ip. add_flow (drop_block d cidr ip)))
          (λ cidr. flat_map (λ ip. drop_block d cidr ip ∷ []) ips)
          (λ cidr.
            Emits-for_all ips (λ ip. add_flow (drop_block d cidr ip))
              (λ ip. drop_block d cidr ip ∷ []) (λ ip. Emits-add_flow (drop_block d cidr ip))))

  abbrev pub pair_list : Direction → List PolicyPort → String → String → List Flow
  pair_list d ports pod_ip peer_ip =
      ports_list ports (λ f. f ▸ with_peer d peer_ip ▸ with_pod d pod_ip)

  abbrev pub namespace_list :
      Direction → List String → List PolicyPort → Labels → String → List Flow
  namespace_list d local_pod_ips ports match_labels namespace =
      flat_map (λ pod_ip. flat_map (pair_list d ports pod_ip) (peer_ips env match_labels namespace))
        local_pod_ips

  namespace-Emits :
      (d : Direction) (ips : List String) (ports : List PolicyPort) (match_labels : Labels)
      (namespace : String)
      → All IsFilled ports
      → Emits
          (namespace_flows env d ips ports match_labels namespace)
          (namespace_list d ips ports match_labels namespace)
  unfolding namespace_flows
  namespace-Emits d ips ports match_labels namespace set =
      Emits-for_all ips
        (λ ip.
          for_each (peer_ips env match_labels namespace)
            (λ peer_ip. allow_ports env ports (λ f. f ▸ with_peer d peer_ip ▸ with_pod d ip)))
        (λ ip. flat_map (pair_list d ports ip) (peer_ips env match_labels namespace))
        (λ ip.
          Emits-for_all (peer_ips env match_labels namespace)
            (λ peer_ip. allow_ports env ports (λ f. f ▸ with_peer d peer_ip ▸ with_pod d ip))
            (pair_list d ports ip)
            (λ peer_ip. allow_ports-Emits ports (λ f. f ▸ with_peer d peer_ip ▸ with_pod d ip) set))

  abbrev pub namespaces_list :
      Direction → List String → List PolicyPort → Labels → Option (List String) → List Flow
  namespaces_list d ips ports match_labels none = []
  namespaces_list d ips ports match_labels (some namespaces) =
      flat_map (namespace_list d ips ports match_labels) namespaces

  namespaces-Emits :
      (d : Direction) (ips : List String) (ports : List PolicyPort) (match_labels : Labels)
      (found : Option (List String))
      → All IsFilled ports
      → Emits
          (each_namespace env d ips ports match_labels found)
          (namespaces_list d ips ports match_labels found)
  unfolding each_namespace
  namespaces-Emits d ips ports match_labels none set = Emits-skip
  namespaces-Emits d ips ports match_labels (some namespaces) set =
      Emits-for_all namespaces (namespace_flows env d ips ports match_labels)
        (namespace_list d ips ports match_labels)
        (λ namespace. namespace-Emits d ips ports match_labels namespace set)

  -- for a peer, by its `ipBlock` and its pod selector
  abbrev pub peer_list_of :
      Direction
      → NetworkPolicy
      → List String
      → List PolicyPort
      → Peer
      → Option IpBlock
      → Option Labels
      → List Flow
  peer_list_of d np ips ports peer (some block) _ = block_list d ips block
  peer_list_of d np ips ports peer none none = []
  peer_list_of d np ips ports peer none (some match_labels) =
      namespaces_list d ips ports match_labels (peer_namespaces env np peer)

  abbrev pub peer_list :
      Direction → NetworkPolicy → List String → List PolicyPort → Peer → List Flow
  peer_list d np ips ports peer = peer_list_of d np ips ports peer peer.ip_block peer.pod_selector

  peer-Emits :
      (d : Direction) (np : NetworkPolicy) (ips : List String) (ports : List PolicyPort)
      (peer : Peer)
      → All IsFilled ports
      → Emits (peer_flows env d np ips ports peer) (peer_list d np ips ports peer)
  unfolding peer_flows selector_flows
  peer-Emits d np ips ports peer set = by_parts peer.ip_block peer.pod_selector
    where
      by_parts :
          (b : Option IpBlock) (sel : Option Labels)
          → Emits
              (elim b [
                | some block ↦ ip_block_flows env d ips block
                | none ↦ elim sel [
                  | none ↦ skip
                  | some match_labels ↦
                      each_namespace env d ips ports match_labels (peer_namespaces env np peer)
                ]
              ])
              (peer_list_of d np ips ports peer b sel)
      by_parts (some block) sel = block-Emits d ips block
      by_parts none none = Emits-skip
      by_parts none (some match_labels) =
          namespaces-Emits d ips ports match_labels (peer_namespaces env np peer) set

  abbrev pub rule_list : Direction → NetworkPolicy → List String → PolicyRule → List Flow
  rule_list d np ips rule =
      if is_empty rule.peers
      then all_peers_list d ips rule
      else flat_map (peer_list d np ips rule.ports) rule.peers

  rule-Emits :
      (d : Direction) (np : NetworkPolicy) (ips : List String) (rule : PolicyRule)
      → HasPorts rule
      → Emits (rule_flows env d np ips rule) (rule_list d np ips rule)
  unfolding rule_flows
  rule-Emits d np ips rule set = Emits-if (is_empty rule.peers) (all_peers-Emits d ips rule set) (
      Emits-for_all rule.peers (peer_flows env d np ips rule.ports) (peer_list d np ips rule.ports)
        (λ peer. peer-Emits d np ips rule.ports peer set))

  -- the drops of the pods, then the flows of each rule
  abbrev pub direction_list : Direction → List PolicyRule → NetworkPolicy → List String → List Flow
  direction_list d rules np ips =
      flat_map (λ ip. default_drop d ip ∷ []) ips ++ flat_map (rule_list d np ips) rules

  -- If no port of a rule has a nil pointer, the loops neither panic nor fail, and add exactly the
  -- flows of the list, in its order.
  pub direction_flows-Emits :
      (d : Direction) (rules : List PolicyRule) (np : NetworkPolicy) (ips : List String)
      → All HasPorts rules
      → Emits (direction_flows env d rules np ips) (direction_list d rules np ips)
  unfolding direction_flows
  direction_flows-Emits d rules np ips set =
      Emits-seq
        (Emits-for_all ips (λ ip. add_flow (default_drop d ip)) (λ ip. default_drop d ip ∷ [])
          (λ ip. Emits-add_flow (default_drop d ip)))
        (Emits-for_each HasPorts rules (rule_flows env d np ips) (rule_list d np ips)
          (rule-Emits d np ips) set)
