-- ===== src/OpenFlow/Controller/Routes.antt =====
-- Table 30 of the bridge after one run of `syncFlows`: where packets for pods of other nodes go.
use mathlib.Core.List.{Memᴰ}
use mathlib.Core.Path.{subst}
use k_vswitch.Prelude.{
  pos, ◌≡◌, refl, sym, ap, ◌∙◌, ◌⊎◌, inl, inr, String, Bool, true, false, ◌&&◌, List, [], ◌∷◌,
  str_eq, arith,
}
use k_vswitch.Net.{IpNet}
use k_vswitch.Flows.{
  Flow, new_flow, ◌▸◌, with_table, with_priority, with_protocol, with_ip_dest,
  with_action_tunnel_dest, with_action_output_port,
}
use k_vswitch.Flows.Buffer.Emits.{flat_map}
use k_vswitch.VSwitchCfg.{VSwitchConfig}
use k_vswitch.OpenFlow.Kube.{Pod, NetworkPolicy}
use k_vswitch.OpenFlow.Config.{Config, table_l3_forwarding}
use k_vswitch.OpenFlow.Bridge.Flows.{vswitch_list, default_list}
use k_vswitch.OpenFlow.Ovs.{Ovs}
use k_vswitch.OpenFlow.PortCache.{PortCache}
use k_vswitch.OpenFlow.Switch.{
  Packet, Transport, tcp, udp, other_ip, int_eq, tcp_port_is, udp_port_is, selects, matches,
  Decides, in_table,
}
use k_vswitch.OpenFlow.Controller.{Env}
use k_vswitch.OpenFlow.Controller.Sync.{wanted}
use k_vswitch.OpenFlow.Controller.Members.{mem_left, mem_right, mem_in_table}
use k_vswitch.OpenFlow.Controller.Origins.{OfOrigins, table-All, not_in_table_10}

-- the flow for the pods of another node
abbrev pub route : Config → VSwitchConfig → Flow
route c w =
    new_flow
    ▸ with_table table_l3_forwarding
    ▸ with_priority (pos 150)
    ▸ with_protocol "ip"
    ▸ with_ip_dest w.spec.pod_cidr
    ▸ with_action_tunnel_dest w.spec.overlay_ip
    ▸ with_action_output_port c.overlay_ofport

module _ (c : Config) (vs : List VSwitchConfig) where
  -- a flow of table 30 is the route to a listed node, or of a lower priority
  abbrev Routed : Flow → Type 0
  Routed f = (f.priority ≡ pos 100) ⊎ ((w : VSwitchConfig) × (Memᴰ w vs × (f ≡ route c w)))

  origins-Routed :
      (ovs : Ovs) (before : PortCache) (pods : List Pod)
      → OfOrigins (λ f. int_eq f.table (pos 30) ≡ true → Routed f) ovs before c vs pods
  origins-Routed ovs before pods = record {
    defaults = (
      λ e. cc,
      (λ e. cc, (λ e. cc, (λ e. cc, (λ e. cc, (λ e. cc, (λ e. cc, (λ e. cc, (λ e. cc, tt)))))))),
    );
    this_node = λ v m here. (λ e. inl refl, (λ e. cc, (λ e. cc, tt)));
    other_nodes = λ v m there. (λ e. inr (v, (m, refl)), (λ e. cc, (λ e. inl refl, tt)));
    to_port = λ pod m info answer e. cc;
    to_arp = λ pod m e. cc;
    of_policy = λ f kind e. absurd (not_in_table_10 f kind 30 refl e);
  }

  -- the route to a remote node is listed
  route_of_remote :
      (v : VSwitchConfig) → str_eq v.name c.node_name ≡ false → Memᴰ (route c v) (vswitch_list c v)
  route_of_remote v remote = rw remote (Memᴰ.head refl)

  route_listed :
      (vs : List VSwitchConfig) (v : VSwitchConfig)
      → Memᴰ v vs
      → str_eq v.name c.node_name ≡ false
      → Memᴰ (route c v) (flat_map (vswitch_list c) vs)
  route_listed [] v m remote = elim m [ ]
  route_listed (w ∷ vs) v (Memᴰ.head e) remote =
      mem_left (vswitch_list c w) (flat_map (vswitch_list c) vs)
        (subst (λ x. Memᴰ (route c v) (vswitch_list c x)) e (route_of_remote v remote))
  route_listed (w ∷ vs) v (Memᴰ.tail m) remote =
      mem_right (vswitch_list c w) (flat_map (vswitch_list c) vs) (route_listed vs v m remote)

pub tests_nothing : (t : Transport) → (tcp_port_is (pos 0) t && udp_port_is (pos 0) t) ≡ true
tests_nothing (tcp port) = refl
tests_nothing (udp port) = refl
tests_nothing other_ip = refl

pub and_true : (b r : Bool) → r ≡ true → (b && r) ≡ b
and_true true r h = h
and_true false r h = refl

module _ {A : Type 0} (covers : String → A → Bool) (c : Config) (p : Packet A) where
  pub route-matches :
      (w : VSwitchConfig) → matches covers (route c w) p ≡ selects covers w.spec.pod_cidr p.dst
  route-matches w = and_true (selects covers w.spec.pod_cidr p.dst) _ (tests_nothing p.transport)

  module _ (env : Env) (net : IpNet) (vs : List VSwitchConfig) (pods : List Pod)
      (nps : List NetworkPolicy) (cache : PortCache) (v : VSwitchConfig) where
    pub route_in_table :
        Memᴰ v vs
        → str_eq v.name c.node_name ≡ false
        → Memᴰ (route c v) (in_table (pos 30) (wanted env c net vs pods nps cache).0)
    route_in_table is_listed remote =
        mem_in_table (pos 30) (wanted env c net vs pods nps cache).0 (route c v)
          (mem_right (default_list c) _
            (mem_left (flat_map (vswitch_list c) vs) _ (route_listed c vs vs v is_listed remote)))
          refl

    -- the flow that decides is the route to a node of the overlay address
    pub taken_route :
        (f : Flow)
        → Memᴰ v vs
        → str_eq v.name c.node_name ≡ false
        → selects covers v.spec.pod_cidr p.dst ≡ true
        → ((w : VSwitchConfig)
            → Memᴰ w vs
            → selects covers w.spec.pod_cidr p.dst ≡ true
            → w.spec.overlay_ip ≡ v.spec.overlay_ip)
        → Decides covers (in_table (pos 30) (wanted env c net vs pods nps cache).0) p f
        → (w : VSwitchConfig) × (w.spec.overlay_ip ≡ v.spec.overlay_ip) × (f ≡ route c w)
    taken_route f is_listed remote selected unique decides = by_kind (
        table-All (Routed c vs) (pos 30) env c net vs pods nps cache
          (origins-Routed c vs env.ovs cache pods) f decides.listed)
      where
        by_kind :
            Routed c vs f
            → (w : VSwitchConfig) × (w.spec.overlay_ip ≡ v.spec.overlay_ip) × (f ≡ route c w)
        by_kind (inl low) = absurd (
            omega (
              arith,
              decides.highest (route c v) (route_in_table is_listed remote)
                  (route-matches v ∙ selected) 150 100 refl low,
            ))
        by_kind (inr (w, (m, same))) = (
          w,
          unique w m
              (sym (route-matches w) ∙ ap (λ x. matches covers x p) (sym same) ∙ decides.matching),
          same,
        )
