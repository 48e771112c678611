-- ===== src/OpenFlow/Controller/Ways.antt =====
-- After one run of `syncFlows`, the way of a packet through the tables of the bridge ends.
use mathlib.Core.List.{Memᴰ}
use mathlib.Core.Path.{subst}
use k_vswitch.Prelude.{
  ℕ, suc, ℤ, pos, ◌≡◌, refl, sym, ap, ◌∙◌, inl, inr, String, Bool, true, false, ◌&&◌, List, [], ◌∷◌,
  str_eq,
}
use k_vswitch.Net.{IpNet}
use k_vswitch.Flows.{Flow}
use k_vswitch.VSwitchCfg.{VSwitchConfig}
use k_vswitch.OpenFlow.Kube.{Pod, NetworkPolicy}
use k_vswitch.OpenFlow.Config.{Config}
use k_vswitch.OpenFlow.PortCache.{PortCache}
use k_vswitch.OpenFlow.Switch.{Packet, in_table, selects, Decides, Delivers, stops, goes_on}
use k_vswitch.OpenFlow.Controller.{Env}
use k_vswitch.OpenFlow.Controller.Sync.{wanted}
use k_vswitch.OpenFlow.Controller.Routes.{route, taken_route}
use k_vswitch.OpenFlow.Controller.Classes.{next_table}
use k_vswitch.Result.{Result, ok, err, panic}
use k_vswitch.Text.{non_empty}
use k_vswitch.Net.{parse_ip, contains}
use k_vswitch.Flows.Buffer.Emits.{flat_map}
use k_vswitch.OpenFlow.Bridge.Flows.{default_list, vswitch_list}
use k_vswitch.OpenFlow.Switch.{matches, int_eq}
use k_vswitch.OpenFlow.Switch.Best.{decided}
use k_vswitch.OpenFlow.Ovs.{Ovs, PortInfo, port_info_of}
use k_vswitch.OpenFlow.PortCache.{get_port_info}
use k_vswitch.OpenFlow.PortCache.Laws.{get_port_info-known}
use k_vswitch.OpenFlow.Controller.{pod_port_flow}
use k_vswitch.OpenFlow.Controller.Adds.{each_of}
use k_vswitch.OpenFlow.Controller.Steps.{pod_list, of_answer}
use k_vswitch.OpenFlow.Controller.Routes.{route_in_table, route-matches, tests_nothing, and_true}
use k_vswitch.OpenFlow.Controller.Members.{mem_left, mem_right, mem_in_table}
use k_vswitch.OpenFlow.Controller.Paths.{entered, passed, class_of, at-IsPort}

of_answer-listed :
    (pod : Pod) (a : Result PortInfo × PortCache) (port : PortInfo)
    → a.0 ≡ ok port
    → Memᴰ (pod_port_flow pod.pod_ip port.ofport) (of_answer pod a).0
of_answer-listed pod (ok info, q) port h =
    Memᴰ.head (ap (λ (r : Result PortInfo). pod_port_flow pod.pod_ip (ofport_of r)) (sym h))
  where
    ofport_of : Result PortInfo → ℤ
    ofport_of (ok info) = info.ofport
    ofport_of _ = pos 0
of_answer-listed pod (err e, q) port h = cc
of_answer-listed pod (panic, q) port h = cc

module _ (ovs : Ovs) (net : IpNet) (pod : Pod) (info : PortInfo)
    (local : non_empty pod.pod_ip && contains net (parse_ip pod.pod_ip) ≡ true)
    (known : port_info_of ovs pod.namespace pod.name ≡ ok info) where
  -- the flow to the port of the pod
  abbrev PortFlowIn : List Flow → Type 0
  PortFlowIn fs = (port : PortInfo) × Memᴰ (pod_port_flow pod.pod_ip port.ofport) fs

  own_flow : (p : PortCache) → PortFlowIn (pod_list ovs net pod p).0
  own_flow p =
      let (port, h) = get_port_info-known ovs pod p info known in
      (port, rw local (of_answer-listed pod (get_port_info ovs pod p) port h))

  port_flow_listed :
      (pods : List Pod) (p : PortCache)
      → Memᴰ pod pods
      → PortFlowIn (each_of (pod_list ovs net) pods p).0
  port_flow_listed [] p m = elim m [ ]
  port_flow_listed (q ∷ pods) p (Memᴰ.head e) =
      let (port, m) = subst (λ x. PortFlowIn (pod_list ovs net x p).0) e (own_flow p) in
      (port, mem_left (pod_list ovs net q p).0 _ m)
  port_flow_listed (q ∷ pods) p (Memᴰ.tail m) =
      let (port, later) = port_flow_listed pods (pod_list ovs net q p).1 m in
      (port, mem_right (pod_list ovs net q p).0 _ later)

-- The way of a packet from a table on ends, and whatever flow ends it, the property holds of it.
pub record Delivered {A : Type 0} (covers : String → A → Bool) (fs : List Flow) (p : Packet A)
    (Q : Flow → Type 0) : Type 0 where
  pub ends : (f : Flow) × Delivers covers fs p (pos 0) f
  pub each : (f : Flow) → Delivers covers fs p (pos 0) f → Q f

module _ {A : Type 0} (covers : String → A → Bool) (p : Packet A) (env : Env) (c : Config)
    (net : IpNet) (vs : List VSwitchConfig) (pods : List Pod) (nps : List NetworkPolicy)
    (cache : PortCache) where
  abbrev fs : List Flow
  fs = (wanted env c net vs pods nps cache).0

  -- the way from a table on ends
  abbrev Ends : ℤ → Type 0
  Ends t = (f : Flow) × Delivers covers fs p t f

  -- a default flow that tests nothing decides, if no other one does
  default-Decides :
      (t : ℤ) (g : Flow)
      → Memᴰ g (default_list c)
      → int_eq g.table t ≡ true
      → matches covers g p ≡ true
      → (f : Flow) × Decides covers (in_table t fs) p f
  default-Decides t g m at h =
      decided covers p (in_table t fs) g (mem_in_table t fs g (mem_left (default_list c) _ m) at) h

  through_policies : Ends (pos 20) → Ends (pos 10)
  through_policies (f, way) =
      let (g, d) =
        default-Decides (pos 10) _ (Memᴰ.tail (Memᴰ.head refl)) refl (tests_nothing p.transport) in
      elim (passed covers p env c net vs pods nps cache g d) [
        | inl (dropped, last) ↦ (g, stops d last)
        | inr (kept, next) ↦ (f, goes_on g 19 d next way)
      ]

  from_entry : Ends (pos 20) → Ends (pos 0)
  from_entry rest =
      let (g, d) = default-Decides (pos 0) _ (Memᴰ.head refl) refl (tests_nothing p.transport) in
      let (f, way) = through_policies rest in
      (f, goes_on g 9 d (entered covers p env c net vs pods nps cache g d) way)

  module _
      (other : (w : VSwitchConfig)
        → Memᴰ w vs
        → selects covers w.spec.overlay_ip p.dst ≡ false) where
    through_classes :
        (n : ℕ) → next_table covers c p.dst ≡ pos (suc n) → Ends (pos (suc n)) → Ends (pos 20)
    through_classes n h (f, way) =
        let (g, d) =
          default-Decides (pos 20) _ (Memᴰ.tail (Memᴰ.tail (Memᴰ.head refl))) refl
            (tests_nothing p.transport) in
        (f, goes_on g n d ((class_of covers p env c net vs pods nps cache other g d).0 ∙ h) way)

    pub route-Ends :
        (v : VSwitchConfig)
        → next_table covers c p.dst ≡ pos 30
        → Memᴰ v vs
        → str_eq v.name c.node_name ≡ false
        → selects covers v.spec.pod_cidr p.dst ≡ true
        → ((w : VSwitchConfig)
            → Memᴰ w vs
            → selects covers w.spec.pod_cidr p.dst ≡ true
            → w.spec.overlay_ip ≡ v.spec.overlay_ip)
        → Ends (pos 0)
    route-Ends v h is_listed remote selected unique =
        let (f, d) =
          decided covers p (in_table (pos 30) fs) (route c v)
            (route_in_table covers c p env net vs pods nps cache v is_listed remote)
            (route-matches covers c p v ∙ selected) in
        let (w, address, same) =
          taken_route covers c p env net vs pods nps cache v f is_listed remote selected unique d in
        from_entry (through_classes 29 h (f, stops d (ap (λ (x : Flow). x.resubmit) same)))

    pub port-Ends :
        (pod : Pod) (info : PortInfo)
        → next_table covers c p.dst ≡ pos 60
        → Memᴰ pod pods
        → non_empty pod.pod_ip && contains net (parse_ip pod.pod_ip) ≡ true
        → port_info_of env.ovs pod.namespace pod.name ≡ ok info
        → selects covers pod.pod_ip p.dst ≡ true
        → Ends (pos 0)
    port-Ends pod info h is_listed local known selected =
        let (port, m) = port_flow_listed env.ovs net pod info local known pods cache is_listed in
        let flow : Flow = pod_port_flow pod.pod_ip port.ofport in
        let (f, d) =
          decided covers p (in_table (pos 60) fs) flow
            (mem_in_table (pos 60) fs flow
              (mem_right (default_list c) _ (
                mem_right (flat_map (vswitch_list c) vs) _
                  (mem_left (each_of (pod_list env.ovs net) pods cache).0 _ m)))
              refl)
            (and_true (selects covers pod.pod_ip p.dst) _ (tests_nothing p.transport) ∙ selected) in
        from_entry (
          through_classes 59 h
            (f, stops d (at-IsPort covers p env c net vs pods nps cache other f d).0.is_last))
