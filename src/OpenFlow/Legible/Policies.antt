-- ===== src/OpenFlow/Legible/Policies.antt =====
-- The flows of the network policies of controllers/openflow/flows.go can be read back.
use k_vswitch.Prelude.{
  ◌≡◌, refl, String, Bool, true, false, Option, none, some, List, [], ◌∷◌, is_empty, All,
  All-append, str_eq, if◌then◌else◌,
}
use k_vswitch.Text.{non_empty, to_lower}
use k_vswitch.Text.Decimal.RoundTrip.{FitsInt}
use k_vswitch.Flows.{Flow}
use k_vswitch.Flows.Buffer.Emits.{flat_map}
use k_vswitch.Flows.Reader.Plain.{IsPlain-with_tcp_dest_port, IsPlain-with_udp_dest_port}
use k_vswitch.Flows.Reader.Lines.{IsLegible}
use k_vswitch.OpenFlow.Kube.{
  Pod, Labels, Selector, IntOrString, PolicyPort, IpBlock, Peer, PolicyRule, NetworkPolicy, Listing,
  listed, failed,
}
use k_vswitch.OpenFlow.Policy.{
  Lookup, get_pod_ips, Direction, default_drop, allow_block, drop_block, peer_selector,
  peer_namespaces, peer_ips,
}
use k_vswitch.OpenFlow.Policy.Flows.{
  tcp_flows, udp_flows, port_list, ports_list, all_peers_list, block_list, namespace_list,
  namespaces_list, peer_list_of, peer_list, rule_list, direction_list,
}
use k_vswitch.OpenFlow.Legible.{IsText, All-flat_map}
use k_vswitch.OpenFlow.Legible.Pods.{IsPlainPod}
use k_vswitch.OpenFlow.Legible.Narrow.{
  Narrows, pod-Narrows, pair-Narrows, allow-IsLegible, default_drop-IsLegible, drop_block-IsLegible,
}

-- one flow for each address
each-IsLegible :
    (f : String → Flow)
    → ((ip : String) → IsText ip → IsLegible (f ip))
    → (ips : List String) → All IsText ips
    → All IsLegible (flat_map (λ ip. f ip ∷ []) ips)
each-IsLegible f each ips h =
    All-flat_map IsText IsLegible (λ ip. f ip ∷ []) (λ ip k. (each ip k, tt)) ips h

get_pod_ips-All : (pods : List Pod) → All IsPlainPod pods → All IsText (get_pod_ips pods)
unfolding get_pod_ips
get_pod_ips-All [] h = tt
get_pod_ips-All (pod ∷ pods) h = by_test (non_empty pod.pod_ip) (get_pod_ips-All pods h.1)
  where
    by_test :
        (b : Bool)
        → All IsText (get_pod_ips pods)
        → All IsText (if b then pod.pod_ip ∷ get_pod_ips pods else get_pod_ips pods)
    by_test true more = (h.0, more)
    by_test false more = more

module _ (env : Lookup) where
  -- the pods that the listers answer with
  abbrev pub ListsPlain : Type 0
  ListsPlain =
      (namespace : String) (sel : Selector) (pods : List Pod)
      → env.list_pods_in namespace sel ≡ listed pods
      → All IsPlainPod pods

  abbrev pub IsPlainPort : PolicyPort → Type 0
  IsPlainPort p = (i : IntOrString) → p.port ≡ some i → FitsInt (env.int_value i)

  abbrev pub IsPlainPeer : Peer → Type 0
  IsPlainPeer peer =
      (block : IpBlock) → peer.ip_block ≡ some block → IsText block.cidr × All IsText block.except

  abbrev pub IsPlainRule : PolicyRule → Type 0
  IsPlainRule rule = All IsPlainPort rule.ports × All IsPlainPeer rule.peers

  abbrev pub IsPlainPolicy : NetworkPolicy → Type 0
  IsPlainPolicy np = All IsPlainRule np.ingress × All IsPlainRule np.egress

  peer_ips-All :
      ListsPlain → (l : Labels) (namespace : String) → All IsText (peer_ips env l namespace)
  unfolding peer_ips
  peer_ips-All h l namespace = by_answer (env.list_pods_in namespace (peer_selector l)) refl
    where
      by_answer :
          (a : Listing Pod)
          → env.list_pods_in namespace (peer_selector l) ≡ a
          → All IsText
              (elim a as (λ x. List String) [ listed pods ↦ get_pod_ips pods | failed e ↦ [] ])
      by_answer (listed pods) e = get_pod_ips-All pods (h namespace (peer_selector l) pods e)
      by_answer (failed e) k = tt

  if-IsLegible : (b : Bool) (f : Flow) → IsLegible f → All IsLegible (if b then f ∷ [] else [])
  if-IsLegible true f h = (h, tt)
  if-IsLegible false f h = tt

  module _ (narrow : Flow → Flow) (k : Narrows narrow) where
    port-IsLegible :
        (port : Option IntOrString) (name : Option String)
        → ((i : IntOrString) → port ≡ some i → FitsInt (env.int_value i))
        → All IsLegible (port_list env narrow port name)
    port-IsLegible none name h = tt
    port-IsLegible (some port) none h = tt
    port-IsLegible (some port) (some name) h =
        All-append IsLegible (tcp_flows env narrow port name) (udp_flows env narrow port name)
          (if-IsLegible (str_eq (to_lower name) "tcp") _ (
            allow-IsLegible "tcp" _ refl
              (λ f p. k _ (IsPlain-with_tcp_dest_port f p (env.int_value port) (h port refl)))))
          (if-IsLegible (str_eq (to_lower name) "udp") _ (
            allow-IsLegible "udp" _ refl
              (λ f p. k _ (IsPlain-with_udp_dest_port f p (env.int_value port) (h port refl)))))

    ports-IsLegible :
        (ports : List PolicyPort)
        → All IsPlainPort ports
        → All IsLegible (ports_list env ports narrow)
    ports-IsLegible [] h = (allow-IsLegible "ip" narrow refl k, tt)
    ports-IsLegible (p ∷ ports) h =
        All-flat_map IsPlainPort IsLegible _ (λ q. port-IsLegible q.port q.protocol) (p ∷ ports) h

  module _ (d : Direction) (ips : List String) (h : All IsText ips) where
    block-IsLegible :
        (block : IpBlock)
        → IsText block.cidr × All IsText block.except
        → All IsLegible (block_list env d ips block)
    block-IsLegible block (cidr, except) =
        All-append IsLegible _ _
          (each-IsLegible (allow_block d block.cidr)
            (λ ip k. allow-IsLegible "ip" _ refl (pair-Narrows d block.cidr ip cidr k)) ips h)
          (All-flat_map IsText IsLegible (λ other. flat_map (λ ip. drop_block d other ip ∷ []) ips)
            (λ other k.
              each-IsLegible (drop_block d other) (λ ip l. drop_block-IsLegible d other ip k l) ips
                h)
            block.except except)

    module _ (plain_pods : ListsPlain) (ports : List PolicyPort) (k : All IsPlainPort ports) where
      namespace-IsLegible :
          (l : Labels) (namespace : String)
          → All IsLegible (namespace_list env d ips ports l namespace)
      namespace-IsLegible l namespace =
          All-flat_map IsText IsLegible _
            (λ ip p.
              All-flat_map IsText IsLegible _
                (λ peer q. ports-IsLegible _ (pair-Narrows d peer ip q p) ports k)
                (peer_ips env l namespace) (peer_ips-All plain_pods l namespace))
            ips h

      namespaces-IsLegible :
          (l : Labels) (found : Option (List String))
          → All IsLegible (namespaces_list env d ips ports l found)
      namespaces-IsLegible l none = tt
      namespaces-IsLegible l (some []) = tt
      namespaces-IsLegible l (some (n ∷ ns)) =
          All-append IsLegible (namespace_list env d ips ports l n) _ (namespace-IsLegible l n)
            (namespaces-IsLegible l (some ns))

      peer-IsLegible :
          (np : NetworkPolicy) (peer : Peer)
          → IsPlainPeer peer
          → All IsLegible (peer_list env d np ips ports peer)
      peer-IsLegible np peer p = by_parts peer.ip_block peer.pod_selector p
        where
          by_parts :
              (b : Option IpBlock) (sel : Option Labels)
              → ((block : IpBlock) → b ≡ some block → IsText block.cidr × All IsText block.except)
              → All IsLegible (peer_list_of env d np ips ports peer b sel)
          by_parts (some block) sel q = block-IsLegible block (q block refl)
          by_parts none none q = tt
          by_parts none (some l) q = namespaces-IsLegible l (peer_namespaces env np peer)

    rule-IsLegible :
        (plain_pods : ListsPlain) (np : NetworkPolicy) (rule : PolicyRule)
        → IsPlainRule rule
        → All IsLegible (rule_list env d np ips rule)
    rule-IsLegible plain_pods np rule (ports, peers) = by_test (is_empty rule.peers)
      where
        by_test :
            (b : Bool)
            → All IsLegible (
                if b
                then all_peers_list env d ips rule
                else flat_map (peer_list env d np ips rule.ports) rule.peers)
        by_test true =
            All-flat_map IsText IsLegible _
              (λ ip k. ports-IsLegible _ (pod-Narrows d ip k) rule.ports ports) ips h
        by_test false =
            All-flat_map IsPlainPeer IsLegible _ (peer-IsLegible plain_pods rule.ports ports np)
              rule.peers peers

    pub direction-IsLegible :
        (plain_pods : ListsPlain) (np : NetworkPolicy) (rules : List PolicyRule)
        → All IsPlainRule rules
        → All IsLegible (direction_list env d rules np ips)
    direction-IsLegible plain_pods np rules k =
        All-append IsLegible _ _ (each-IsLegible (default_drop d) (default_drop-IsLegible d) ips h)
          (All-flat_map IsPlainRule IsLegible _ (rule-IsLegible plain_pods np) rules k)
