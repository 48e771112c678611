-- ===== src/OpenFlow/Policy/Permits.antt =====
-- What a network policy permits, read from its rules, with no flows and no priorities.
use k_vswitch.Prelude.{
  String, Bool, false, ◌&&◌, ◌||◌, Option, none, some, List, any, is_empty, str_eq, if◌then◌else◌,
}
use k_vswitch.Text.{to_lower}
use k_vswitch.OpenFlow.Kube.{
  Labels, IntOrString, PolicyPort, IpBlock, Peer, PolicyRule, NetworkPolicy,
}
use k_vswitch.OpenFlow.Policy.{Lookup, Direction, ingress, egress, peer_namespaces, peer_ips}
use k_vswitch.OpenFlow.Switch.{Packet, Transport, is_tcp, is_udp, tcp_port_is, udp_port_is, selects}

module _ {A : Type 0} where
  -- the end of a packet at which the policy's pod is, and the other end
  abbrev pub pod_end : Direction → Packet A → A
  pod_end ingress p = p.dst
  pod_end egress p = p.src

  abbrev pub peer_end : Direction → Packet A → A
  peer_end ingress p = p.src
  peer_end egress p = p.dst

module _ (env : Lookup) where
  -- a port allows the packets of its protocol that go to its number
  abbrev pub port_allows : Option IntOrString → Option String → Transport → Bool
  port_allows (some port) (some name) t =
      str_eq (to_lower name) "tcp" && (is_tcp t && tcp_port_is (env.int_value port) t)
      || str_eq (to_lower name) "udp" && (is_udp t && udp_port_is (env.int_value port) t)
  port_allows _ _ t = false

  -- no ports stand for all ports
  abbrev pub ports_allow : List PolicyPort → Transport → Bool
  ports_allow ports t =
      is_empty ports || any (λ (p : PolicyPort). port_allows p.port p.protocol t) ports

  module _ {A : Type 0} (covers : String → A → Bool) where
    -- the packet is sent to, or comes from, a pod that the policy selects on this node
    abbrev pub at_pod : Direction → List String → Packet A → Bool
    at_pod d local_pod_ips p = any (λ ip. selects covers ip (pod_end d p)) local_pod_ips

    -- the other end is a pod of one of the namespaces that the labels select
    abbrev pub selected_peer : Direction → Labels → Option (List String) → Packet A → Bool
    selected_peer d match_labels none p = false
    selected_peer d match_labels (some namespaces) p =
        any
          (λ namespace.
            any (λ ip. selects covers ip (peer_end d p)) (peer_ips env match_labels namespace))
          namespaces

    abbrev pub peer_allows_by :
        Direction
        → NetworkPolicy
        → List PolicyPort
        → Peer
        → Option IpBlock
        → Option Labels
        → Packet A
        → Bool
    peer_allows_by d np ports peer (some block) _ p = selects covers block.cidr (peer_end d p)
    peer_allows_by d np ports peer none none p = false
    peer_allows_by d np ports peer none (some match_labels) p =
        ports_allow ports p.transport
        && selected_peer d match_labels (peer_namespaces env np peer) p

    -- a block allows every port; a peer with selectors, the ports of its rule
    abbrev pub peer_allows : Direction → NetworkPolicy → List PolicyPort → Peer → Packet A → Bool
    peer_allows d np ports peer = peer_allows_by d np ports peer peer.ip_block peer.pod_selector

    abbrev pub peer_excepts_by : Direction → Option IpBlock → Packet A → Bool
    peer_excepts_by d none p = false
    peer_excepts_by d (some block) p = any (λ cidr. selects covers cidr (peer_end d p)) block.except

    abbrev pub peer_excepts : Direction → Peer → Packet A → Bool
    peer_excepts d peer = peer_excepts_by d peer.ip_block

    -- no peers stand for all peers
    abbrev pub rule_allows : Direction → NetworkPolicy → PolicyRule → Packet A → Bool
    rule_allows d np rule p =
        if is_empty rule.peers
        then ports_allow rule.ports p.transport
        else any (λ peer. peer_allows d np rule.ports peer p) rule.peers

    abbrev pub rule_excepts : Direction → PolicyRule → Packet A → Bool
    rule_excepts d rule p = any (λ peer. peer_excepts d peer p) rule.peers
