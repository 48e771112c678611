-- ===== src/OpenFlow/Policy/Matching.antt =====
-- Which packets the single flows of a policy, and those for the ports of a rule, match.
use k_vswitch.Prelude.{
  ℤ, pos, ◌≡◌, refl, String, Bool, true, false, ◌&&◌, ◌||◌, Option, none, some, List, [], ◌∷◌,
  arith, str_eq, if◌then◌else◌,
}
use k_vswitch.Text.{to_lower}
use k_vswitch.Flows.{Flow, ◌▸◌, with_tcp_dest_port, with_udp_dest_port}
use k_vswitch.OpenFlow.Kube.{IntOrString, PolicyPort}
use k_vswitch.OpenFlow.Policy.{
  Lookup, Direction, ingress, egress, with_pod, with_peer, default_drop, allow, drop_block,
}
use k_vswitch.OpenFlow.Policy.Flows.{port_list, ports_list}
use k_vswitch.OpenFlow.Policy.Permits.{pod_end, peer_end, port_allows, ports_allow}
use k_vswitch.OpenFlow.Policy.Sorts.{
  any-false, and-any, isolating, allowing, excepting, Sorts, Sorts-nil, Sorts-append,
  Sorts-flat_map, Sorts-eq,
}
use k_vswitch.OpenFlow.Switch.{Packet, is_tcp, is_udp, tcp_port_is, udp_port_is, selects, matches}

module _ {A : Type 0} (covers : String → A → Bool) (p : Packet A) where
  or-false : (b : Bool) → (b || false) ≡ b
  or-false b = ground arith

  -- one flow of each kind
  Sorts-allow :
      (f : Flow) (b : Bool)
      → f.table ≡ pos 10
      → f.priority ≡ pos 1000
      → f.drop ≡ false
      → f.resubmit ≡ pos 20
      → matches covers f p ≡ b
      → Sorts covers p (f ∷ []) false b false
  Sorts-allow f b t k d r m = record {
    kinds = (allowing t k d r, tt);
    drops = rw k refl;
    allows = rw (k, m) (or-false b);
    excepts = rw k refl;
  }

  pub Sorts-drop :
      (d : Direction) (ip : String)
      → Sorts covers p (default_drop d ip ∷ []) (selects covers ip (pod_end d p)) false false
  Sorts-drop ingress ip = record {
    kinds = (isolating refl refl refl refl, tt);
    drops = ground arith;
    allows = refl;
    excepts = refl;
  }
  Sorts-drop egress ip = record {
    kinds = (isolating refl refl refl refl, tt);
    drops = ground arith;
    allows = refl;
    excepts = refl;
  }

  pub Sorts-drop_block :
      (d : Direction) (cidr ip : String)
      → Sorts covers p
          (drop_block d cidr ip ∷ [])
          false
          false
          (selects covers ip (pod_end d p) && selects covers cidr (peer_end d p))
  Sorts-drop_block ingress cidr ip = record {
    kinds = (excepting refl refl refl refl, tt);
    drops = refl;
    allows = refl;
    excepts = ground arith;
  }
  Sorts-drop_block egress cidr ip = record {
    kinds = (excepting refl refl refl refl, tt);
    drops = refl;
    allows = refl;
    excepts = ground arith;
  }

  -- A way to narrow the flows of a rule by addresses, with the test that it adds.
  pub record Narrows (narrow : Flow → Flow) (b : Bool) : Type 0 where
    pub any_ip : Sorts covers p (allow "ip" narrow ∷ []) false b false
    pub tcp_to :
        (n : ℤ)
        → Sorts covers p
            (allow "tcp" (λ f. f ▸ with_tcp_dest_port n ▸ narrow) ∷ [])
            false
            (b && (is_tcp p.transport && tcp_port_is n p.transport))
            false
    pub udp_to :
        (n : ℤ)
        → Sorts covers p
            (allow "udp" (λ f. f ▸ with_udp_dest_port n ▸ narrow) ∷ [])
            false
            (b && (is_udp p.transport && udp_port_is n p.transport))
            false

  pub Narrows-pod :
      (d : Direction) (ip : String) → Narrows (with_pod d ip) (selects covers ip (pod_end d p))
  Narrows-pod ingress ip = record {
    any_ip = Sorts-allow _ _ refl refl refl refl (ground arith);
    tcp_to = λ n. Sorts-allow _ _ refl refl refl refl (ground arith);
    udp_to = λ n. Sorts-allow _ _ refl refl refl refl (ground arith);
  }
  Narrows-pod egress ip = record {
    any_ip = Sorts-allow _ _ refl refl refl refl (ground arith);
    tcp_to = λ n. Sorts-allow _ _ refl refl refl refl (ground arith);
    udp_to = λ n. Sorts-allow _ _ refl refl refl refl (ground arith);
  }

  pub Narrows-pair :
      (d : Direction) (peer_ip pod_ip : String)
      → Narrows
          (λ f. f ▸ with_peer d peer_ip ▸ with_pod d pod_ip)
          (selects covers peer_ip (peer_end d p) && selects covers pod_ip (pod_end d p))
  Narrows-pair ingress peer_ip pod_ip = record {
    any_ip = Sorts-allow _ _ refl refl refl refl (ground arith);
    tcp_to = λ n. Sorts-allow _ _ refl refl refl refl (ground arith);
    udp_to = λ n. Sorts-allow _ _ refl refl refl refl (ground arith);
  }
  Narrows-pair egress peer_ip pod_ip = record {
    any_ip = Sorts-allow _ _ refl refl refl refl (ground arith);
    tcp_to = λ n. Sorts-allow _ _ refl refl refl refl (ground arith);
    udp_to = λ n. Sorts-allow _ _ refl refl refl refl (ground arith);
  }

  module _ (env : Lookup) {narrow : Flow → Flow} {b : Bool} (n : Narrows narrow b) where
    -- a test of the protocol's word, in front of a flow
    Sorts-if :
        (t c : Bool) (f : Flow)
        → Sorts covers p (f ∷ []) false c false
        → Sorts covers p (if t then f ∷ [] else []) false (t && c) false
    Sorts-if true c f h = h
    Sorts-if false c f h = Sorts-nil covers p

    port-Sorts :
        (port : Option IntOrString) (name : Option String)
        → Sorts covers p
            (port_list env narrow port name)
            false
            (b && port_allows env port name p.transport)
            false
    port-Sorts none name = Sorts-eq covers p (Sorts-nil covers p) refl (ground arith) refl
    port-Sorts (some i) none = Sorts-eq covers p (Sorts-nil covers p) refl (ground arith) refl
    port-Sorts (some i) (some s) =
        Sorts-eq covers p
          (Sorts-append covers p
            (Sorts-if (str_eq (to_lower s) "tcp") _ _ (n.tcp_to (env.int_value i)))
            (Sorts-if (str_eq (to_lower s) "udp") _ _ (n.udp_to (env.int_value i))))
          refl (ground arith) refl

    pub ports-Sorts :
        (ports : List PolicyPort)
        → Sorts covers p
            (ports_list env ports narrow)
            false
            (b && ports_allow env ports p.transport)
            false
    ports-Sorts [] = Sorts-eq covers p n.any_ip refl (ground arith) refl
    ports-Sorts (x ∷ xs) =
        Sorts-eq covers p
          (Sorts-flat_map covers p (λ (q : PolicyPort). port_list env narrow q.port q.protocol)
            (λ q. false) (λ q. b && port_allows env q.port q.protocol p.transport) (λ q. false)
            (x ∷ xs) (λ q. port-Sorts q.port q.protocol))
          (any-false (x ∷ xs))
          (and-any b (λ (q : PolicyPort). port_allows env q.port q.protocol p.transport) (x ∷ xs))
          (any-false (x ∷ xs))
