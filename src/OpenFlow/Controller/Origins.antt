-- ===== src/OpenFlow/Controller/Origins.antt =====
-- Where the flows of one run of `syncFlows` come from: what holds of the flows of each origin holds
-- of all of them; and the flows of one table.
use mathlib.Core.List.{Memᴰ}
use k_vswitch.Prelude.{
  ℕ, ℤ, pos, ◌==◌, ◌≡◌, refl, sym, ap, ◌∙◌, ◌⊎◌, inl, inr, String, Bool, true, false, ◌&&◌, List,
  [], ◌∷◌, All, All-append, str_eq, if◌then◌else◌,
}
use k_vswitch.Bools.{true_not_false}
use k_vswitch.Text.{non_empty}
use k_vswitch.Net.{IpNet, parse_ip, contains}
use k_vswitch.Result.{Result, ok, err, panic}
use k_vswitch.Flows.{Flow}
use k_vswitch.Flows.Buffer.Emits.{flat_map}
use k_vswitch.VSwitchCfg.{VSwitchConfig}
use k_vswitch.OpenFlow.Kube.{Pod, NetworkPolicy, from_set, Listing, listed, failed}
use k_vswitch.OpenFlow.Config.{Config, pod_mac_addr}
use k_vswitch.OpenFlow.Bridge.{arp_responder}
use k_vswitch.OpenFlow.Bridge.Flows.{
  default_list, current_node_list, remote_node_list, vswitch_list,
}
use k_vswitch.OpenFlow.Ovs.{Ovs, PortInfo, port_info_of}
use k_vswitch.OpenFlow.PortCache.{PortCache, get_port_info, port_cache_key_for_pod}
use k_vswitch.OpenFlow.PortCache.Entries.{OnOk, AllGood, get_port_info-Good}
use k_vswitch.OpenFlow.Policy.Sorts.{IsPolicyFlow}
use k_vswitch.OpenFlow.Policy.Table.{policy_list, applied-Sorts}
use k_vswitch.OpenFlow.Switch.{other_ip, int_eq, in_table}
use k_vswitch.OpenFlow.Controller.{Env, local_pod_ips, pod_port_flow}
use k_vswitch.OpenFlow.Controller.Adds.{each_of}
use k_vswitch.OpenFlow.Controller.Steps.{pod_list, of_answer, policy_list_of, network_policy_list}
use k_vswitch.OpenFlow.Controller.Sync.{wanted}
use k_vswitch.OpenFlow.Controller.Verdict.{table_of}
use k_vswitch.OpenFlow.Controller.Members.{All-map, All-each, mem_of_table, All-mem}

-- The port of a key was in the cache before the run, or ovs-vsctl answers it for a listed pod of
-- the key.
abbrev pub Known : Ovs → PortCache → List Pod → String → PortInfo → Type 0
Known ovs before pods key info =
    Memᴰ (key, info) before.store
    ⊎ ((pod : Pod) × Memᴰ pod pods
        × (port_cache_key_for_pod pod ≡ key)
        × (port_info_of ovs pod.namespace pod.name ≡ ok info))

-- What holds of the flows of every origin.
pub record OfOrigins (P : Flow → Type 0) (ovs : Ovs) (before : PortCache) (c : Config)
    (vs : List VSwitchConfig) (pods : List Pod) : Type 0 where
  pub defaults : All P (default_list c)
  pub this_node :
      (v : VSwitchConfig)
      → Memᴰ v vs
      → str_eq v.name c.node_name ≡ true
      → All P (current_node_list c v)
  pub other_nodes :
      (v : VSwitchConfig)
      → Memᴰ v vs
      → str_eq v.name c.node_name ≡ false
      → All P (remote_node_list c v)
  pub to_port :
      (pod : Pod)
      → Memᴰ pod pods
      → (info : PortInfo) → Known ovs before pods (port_cache_key_for_pod pod) info
      → P (pod_port_flow pod.pod_ip info.ofport)
  pub to_arp : (pod : Pod) → Memᴰ pod pods → P (arp_responder pod.pod_ip pod_mac_addr)
  pub of_policy : (f : Flow) → IsPolicyFlow f → P f

module _ (P : Flow → Type 0) (env : Env) (c : Config) (net : IpNet) where
  node-All :
      (v : VSwitchConfig)
      → (str_eq v.name c.node_name ≡ true → All P (current_node_list c v))
      → (str_eq v.name c.node_name ≡ false → All P (remote_node_list c v))
      → All P (vswitch_list c v)
  node-All v here there = by_test (str_eq v.name c.node_name) refl
    where
      by_test :
          (b : Bool)
          → str_eq v.name c.node_name ≡ b
          → All P (if b then current_node_list c v else remote_node_list c v)
      by_test true e = here e
      by_test false e = there e

  policy-All :
      ((f : Flow) → IsPolicyFlow f → P f)
      → (np : NetworkPolicy) → All P (network_policy_list env c np)
  policy-All k np = by_answer (env.lookup.list_pods_in np.namespace (from_set np.pod_selector))
    where
      by_answer : (l : Listing Pod) → All P (policy_list_of env c np l)
      by_answer (failed e) = tt
      by_answer (listed pods) =
          All-map k (policy_list env.lookup (np, local_pod_ips c pods))
            (applied-Sorts env.lookup (λ block (u : Unit {0}). true)
              (record { src = tt; dst = tt; transport = other_ip })
              (np, local_pod_ips c pods)).kinds

  module _ (before : PortCache) (all : List Pod) where
    abbrev AllKnown : PortCache → Type 0
    AllKnown p = AllGood (Known env.ovs before all) p.store

    -- what holds of the flow to each port that is known
    abbrev ToPort : Pod → Type 0
    ToPort pod =
        (info : PortInfo)
        → Known env.ovs before all (port_cache_key_for_pod pod) info
        → P (pod_port_flow pod.pod_ip info.ofport)

    abbrev ArePod : List Flow × PortCache → Type 0
    ArePod (fs, p) = All P fs × AllKnown p

    module _ (pod : Pod) (port : ToPort pod) (arp : P (arp_responder pod.pod_ip pod_mac_addr)) where
      answer-All :
          (a : Result PortInfo × PortCache)
          → OnOk (Known env.ovs before all (port_cache_key_for_pod pod)) a.0
          → AllKnown a.1
          → ArePod (of_answer pod a)
      answer-All (ok info, q) h k = ((port info h, (arp, tt)), k)
      answer-All (err e, q) h k = (tt, k)
      answer-All (panic, q) h k = (tt, k)

      asked :
          Memᴰ pod all
          → OnOk
              (Known env.ovs before all (port_cache_key_for_pod pod))
              (port_info_of env.ovs pod.namespace pod.name)
      asked m = by_answer (port_info_of env.ovs pod.namespace pod.name) refl
        where
          by_answer :
              (r : Result PortInfo)
              → port_info_of env.ovs pod.namespace pod.name ≡ r
              → OnOk (Known env.ovs before all (port_cache_key_for_pod pod)) r
          by_answer (ok info) e = inr (pod, m, refl, e)
          by_answer (err e) k = tt
          by_answer panic k = tt

      pod-All : Memᴰ pod all → (p : PortCache) → AllKnown p → ArePod (pod_list env.ovs net pod p)
      pod-All m p h = by_test (non_empty pod.pod_ip && contains net (parse_ip pod.pod_ip))
        where
          by_test :
              (b : Bool)
              → ArePod (if b then of_answer pod (get_port_info env.ovs pod p) else ([], p))
          by_test true =
              let (port_known, known) =
                get_port_info-Good (Known env.ovs before all) pod env.ovs p (asked m) h in
              answer-All (get_port_info env.ovs pod p) port_known known
          by_test false = (tt, h)

    pods-All :
        (pods : List Pod) (p : PortCache)
        → AllKnown p
        → ((pod : Pod)
            → Memᴰ pod pods
            → Memᴰ pod all × ToPort pod × P (arp_responder pod.pod_ip pod_mac_addr))
        → All P (each_of (pod_list env.ovs net) pods p).0
    pods-All [] p known h = tt
    pods-All (pod ∷ pods) p known h =
        let (m, port, arp) = h pod (Memᴰ.head refl) in
        let (here, later) = pod-All pod port arp m p known in
        All-append P (pod_list env.ovs net pod p).0
          (each_of (pod_list env.ovs net) pods (pod_list env.ovs net pod p).1).0 here
          (pods-All pods (pod_list env.ovs net pod p).1 later (λ q m. h q (Memᴰ.tail m)))

    -- what was in the cache is known
    old-AllKnown :
        (entries : List (String × PortInfo))
        → ((x : String × PortInfo) → Memᴰ x entries → Memᴰ x before.store)
        → AllGood (Known env.ovs before all) entries
    old-AllKnown [] h = tt
    old-AllKnown (x ∷ entries) h =
        (inl (h x (Memᴰ.head refl)), old-AllKnown entries (λ y m. h y (Memᴰ.tail m)))

  pub wanted-All :
      (vs : List VSwitchConfig) (pods : List Pod) (nps : List NetworkPolicy) (cache : PortCache)
      → OfOrigins P env.ovs cache c vs pods
      → All P (wanted env c net vs pods nps cache).0
  wanted-All vs pods nps cache h = All-append P (default_list c) _ h.defaults (
      All-append P (flat_map (vswitch_list c) vs) _
        (All-each P (vswitch_list c) vs (λ v m. node-All v (h.this_node v m) (h.other_nodes v m)))
        (All-append P (each_of (pod_list env.ovs net) pods cache).0 _
          (pods-All cache pods pods cache (old-AllKnown cache pods cache.store (λ x m. m))
            (λ pod m. (m, h.to_port pod m, h.to_arp pod m)))
          (All-each P (network_policy_list env c) nps (λ np m. policy-All h.of_policy np))))

-- Of the flows of a table, what holds of those of each origin.
pub table-All :
    (P : Flow → Type 0) (t : ℤ) (env : Env) (c : Config) (net : IpNet) (vs : List VSwitchConfig)
    (pods : List Pod) (nps : List NetworkPolicy) (cache : PortCache)
    → OfOrigins (λ f. int_eq f.table t ≡ true → P f) env.ovs cache c vs pods
    → (f : Flow) → Memᴰ f (in_table t (wanted env c net vs pods nps cache).0)
    → P f
table-All P t env c net vs pods nps cache h f m =
    let (is_listed, in_it) = mem_of_table t (wanted env c net vs pods nps cache).0 f m in
    All-mem (λ g. int_eq g.table t ≡ true → P g) (wanted env c net vs pods nps cache).0 f is_listed
      (wanted-All (λ g. int_eq g.table t ≡ true → P g) env c net vs pods nps cache h) in_it

-- the flows of policies are in table 10 only
pub not_in_table_10 :
    (f : Flow) → IsPolicyFlow f → (k : ℕ) → (10 == k) ≡ false → int_eq f.table (pos k) ≡ true → ⊥
not_in_table_10 f kind k other e =
    true_not_false (sym e ∙ ap (λ t. int_eq t (pos k)) (table_of f kind) ∙ other)
