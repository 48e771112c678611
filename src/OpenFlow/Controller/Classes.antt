-- ===== src/OpenFlow/Controller/Classes.antt =====
-- Table 20 of the bridge after one run of `syncFlows`: which packets are for the host, which for
-- pods of this node, and which for other nodes.
use mathlib.Core.List.{Memᴰ}
use k_vswitch.Prelude.{
  ℕ, ℤ, pos, ◌<◌, ◌≡◌, refl, sym, ap, ◌∙◌, inl, inr, Bool-cases, String, Bool, true, false, List,
  if◌then◌else◌, arith,
}
use k_vswitch.Bools.{and_both, true_not_false}
use k_vswitch.Net.{IpNet}
use k_vswitch.Flows.{
  Flow, new_flow, ◌▸◌, with_table, with_priority, with_protocol, with_ip_dest, with_action_local,
  with_action_resubmit,
}
use k_vswitch.VSwitchCfg.{VSwitchConfig}
use k_vswitch.OpenFlow.Kube.{Pod, NetworkPolicy}
use k_vswitch.OpenFlow.Config.{Config, table_l2_rewrites, table_l3_forwarding, table_classification}
use k_vswitch.OpenFlow.Bridge.Flows.{default_list}
use k_vswitch.OpenFlow.Ovs.{Ovs}
use k_vswitch.OpenFlow.PortCache.{PortCache}
use k_vswitch.OpenFlow.Switch.{Packet, int_eq, in_table, protocol_is, selects, matches, Decides}
use k_vswitch.OpenFlow.Controller.{Env}
use k_vswitch.OpenFlow.Controller.Sync.{wanted}
use k_vswitch.OpenFlow.Controller.Members.{mem_left, mem_in_table}
use k_vswitch.OpenFlow.Controller.Origins.{OfOrigins, table-All, not_in_table_10}
use k_vswitch.OpenFlow.Controller.Routes.{and_true, tests_nothing}

-- the flows of table 20 for a block of addresses
abbrev class_flow : ℤ → String → Flow
class_flow priority block =
    new_flow
    ▸ with_table table_classification
    ▸ with_priority priority
    ▸ with_protocol "ip"
    ▸ with_ip_dest block

-- A flow of table 20: one for each class of packets, or one for a node's address.
data IsClass (c : Config) (vs : List VSwitchConfig) (f : Flow) : Type 0 where
  by_default : f.priority ≡ pos 0 → f.resubmit ≡ pos 0 → f.local ≡ true → IsClass c vs f
  to_gateway : f ≡ (class_flow (pos 500) c.gateway_ip ▸ with_action_local) → IsClass c vs f
  to_pods :
      f ≡ (class_flow (pos 300) c.pod_cidr ▸ with_action_resubmit table_l2_rewrites)
      → IsClass c vs f
  to_cluster :
      f ≡ (class_flow (pos 100) c.cluster_cidr ▸ with_action_resubmit table_l3_forwarding)
      → IsClass c vs f
  to_arp : f.protocol ≡ "arp" → IsClass c vs f
  to_node : (w : VSwitchConfig) → Memᴰ w vs → f.ip_dest ≡ w.spec.overlay_ip → IsClass c vs f

origins-IsClass :
    (c : Config) (vs : List VSwitchConfig) (ovs : Ovs) (before : PortCache) (pods : List Pod)
    → OfOrigins (λ f. int_eq f.table (pos 20) ≡ true → IsClass c vs f) ovs before c vs pods
origins-IsClass c vs ovs before pods = record {
  defaults = (
    λ e. cc,
    (
      λ e. cc,
      (
        λ e. by_default refl refl refl,
        (
          λ e. to_gateway refl,
          (λ e. to_pods refl, (λ e. to_cluster refl, (λ e. to_arp refl, (λ e. cc, (λ e. cc, tt))))),
        ),
      ),
    ),
  );
  this_node = λ v m here. (λ e. cc, (λ e. to_node v m refl, (λ e. to_node v m refl, tt)));
  other_nodes = λ v m there. (λ e. cc, (λ e. to_node v m refl, (λ e. cc, tt)));
  to_port = λ pod m info answer e. cc;
  to_arp = λ pod m e. cc;
  of_policy = λ f kind e. absurd (not_in_table_10 f kind 20 refl e);
}

-- The table that packets to an address go to: the pods' ports, the routes to other nodes, or
-- none, which is the host.
abbrev pub next_table : {A : Type 0} → (String → A → Bool) → Config → A → ℤ
next_table covers c dst =
    if selects covers c.gateway_ip dst
    then pos 0
    else if selects covers c.pod_cidr dst
    then pos 60
    else if selects covers c.cluster_cidr dst
    then pos 30
    else pos 0

abbrev pub for_host : {A : Type 0} → (String → A → Bool) → Config → A → Bool
for_host covers c dst =
    if selects covers c.gateway_ip dst
    then true
    else if selects covers c.pod_cidr dst
    then false
    else if selects covers c.cluster_cidr dst
    then false
    else true

pub next_table-for_host :
    {A : Type 0} (covers : String → A → Bool) (c : Config) (dst : A)
    → for_host covers c dst ≡ true
    → next_table covers c dst ≡ pos 0
next_table-for_host covers c dst =
    by_tests (selects covers c.gateway_ip dst) (selects covers c.pod_cidr dst)
      (selects covers c.cluster_cidr dst)
  where
    by_tests :
        (g o k : Bool)
        → (if g then true else if o then false else if k then false else true) ≡ true
        → (if g then pos 0 else if o then pos 60 else if k then pos 30 else pos 0) ≡ pos 0
    by_tests true o k h = refl
    by_tests false true k h = cc
    by_tests false false true h = cc
    by_tests false false false h = refl

module _ {A : Type 0} (covers : String → A → Bool) (p : Packet A) where
  matches-protocol :
      (f : Flow) → matches covers f p ≡ true → protocol_is f.protocol p.transport ≡ true
  matches-protocol f m = (and_both _ _ (and_both _ _ m).1).0

  pub matches-dest : (f : Flow) → matches covers f p ≡ true → selects covers f.ip_dest p.dst ≡ true
  matches-dest f m = (and_both _ _ (and_both _ _ (and_both _ _ m).1).1).0

  matches-block :
      (n : ℤ) (block : String) → matches covers (class_flow n block) p ≡ selects covers block p.dst
  matches-block n block = and_true (selects covers block p.dst) _ (tests_nothing p.transport)

  -- a flow that is listed, has a higher priority and does not decide does not match
  outranked :
      (fs : List Flow) (f g : Flow) (n m : ℕ)
      → Decides covers fs p f
      → Memᴰ g fs
      → g.priority ≡ pos n
      → f.priority ≡ pos m
      → m < n
      → matches covers g p ≡ false
  outranked fs f g n m decides is_listed gn fm lt = elim (Bool-cases (matches covers g p)) [
    | inr e ↦ e
    | inl e ↦ absurd (omega (arith, decides.highest g is_listed e n m gn fm, lt))
  ]

  module _ (env : Env) (c : Config) (net : IpNet) (vs : List VSwitchConfig) (pods : List Pod)
      (nps : List NetworkPolicy) (cache : PortCache) (f : Flow)
      (decides : Decides covers
        (in_table (pos 20) (wanted env c net vs pods nps cache).0)
        p
        f) where
    listed_default :
        (g : Flow)
        → Memᴰ g (default_list c)
        → int_eq g.table (pos 20) ≡ true
        → Memᴰ g (in_table (pos 20) (wanted env c net vs pods nps cache).0)
    listed_default g m t =
        mem_in_table (pos 20) (wanted env c net vs pods nps cache).0 g
          (mem_left (default_list c) _ m) t

    not_gateway : (m : ℕ) → f.priority ≡ pos m → m < 500 → selects covers c.gateway_ip p.dst ≡ false
    not_gateway m at lt =
        sym (matches-block (pos 500) c.gateway_ip)
        ∙ outranked _ f _ 500 m decides
            (listed_default _ (Memᴰ.tail (Memᴰ.tail (Memᴰ.tail (Memᴰ.head refl)))) refl) refl at lt

    not_pods : (m : ℕ) → f.priority ≡ pos m → m < 300 → selects covers c.pod_cidr p.dst ≡ false
    not_pods m at lt =
        sym (matches-block (pos 300) c.pod_cidr)
        ∙ outranked _ f _ 300 m decides
            (listed_default _ (Memᴰ.tail (Memᴰ.tail (Memᴰ.tail (Memᴰ.tail (Memᴰ.head refl))))) refl)
            refl at lt

    not_cluster :
        (m : ℕ) → f.priority ≡ pos m → m < 100 → selects covers c.cluster_cidr p.dst ≡ false
    not_cluster m at lt =
        sym (matches-block (pos 100) c.cluster_cidr)
        ∙ outranked _ f _ 100 m decides
            (listed_default _
              (Memᴰ.tail (Memᴰ.tail (Memᴰ.tail (Memᴰ.tail (Memᴰ.tail (Memᴰ.head refl)))))) refl)
            refl at lt

    own_block : {g : Flow} → f ≡ g → selects covers g.ip_dest p.dst ≡ true
    own_block e =
        ap (λ (x : Flow). selects covers x.ip_dest p.dst) (sym e) ∙ matches-dest f decides.matching

    by_class :
        ((w : VSwitchConfig) → Memᴰ w vs → selects covers w.spec.overlay_ip p.dst ≡ false)
        → IsClass c vs f
        → (f.resubmit ≡ next_table covers c p.dst) × (f.local ≡ for_host covers c p.dst)
    by_class other (by_default at r l) =
        rw
          (
            not_gateway 0 at (omega arith),
            not_pods 0 at (omega arith),
            not_cluster 0 at (omega arith),
          )
          (r, l)
    by_class other (to_gateway e) =
        rw (own_block e) (ap (λ (x : Flow). x.resubmit) e, ap (λ (x : Flow). x.local) e)
    by_class other (to_pods e) =
        rw (not_gateway 300 (ap (λ (x : Flow). x.priority) e) (omega arith), own_block e)
          (ap (λ (x : Flow). x.resubmit) e, ap (λ (x : Flow). x.local) e)
    by_class other (to_cluster e) =
        let at : f.priority ≡ pos 100 = ap (λ (x : Flow). x.priority) e in
        rw (not_gateway 100 at (omega arith), not_pods 100 at (omega arith), own_block e)
          (ap (λ (x : Flow). x.resubmit) e, ap (λ (x : Flow). x.local) e)
    by_class other (to_arp e) = absurd (
        true_not_false
          (sym (matches-protocol f decides.matching) ∙ ap (λ w. protocol_is w p.transport) e))
    by_class other (to_node w m e) = absurd (
        true_not_false
          (sym (matches-dest f decides.matching) ∙ ap (λ b. selects covers b p.dst) e ∙ other w m))

    -- Whatever flow of table 20 the switch takes, of those that one run is to install, for a packet
    -- to no node's address, it sends the packet where the packet's class says.
    pub classified :
        ((w : VSwitchConfig) → Memᴰ w vs → selects covers w.spec.overlay_ip p.dst ≡ false)
        → (f.resubmit ≡ next_table covers c p.dst) × (f.local ≡ for_host covers c p.dst)
    classified other = by_class other (
        table-All (IsClass c vs) (pos 20) env c net vs pods nps cache
          (origins-IsClass c vs env.ovs cache pods) f decides.listed)
