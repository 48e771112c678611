-- ===== src/OpenFlow/Controller/Verdict.antt =====
-- Table 10 of the bridge after one run of `syncFlows`.
use mathlib.Core.List.{append-nil, append_assoc}
use k_vswitch.Prelude.{
  ℤ, pos, ◌≡◌, refl, sym, ap, ◌∙◌, inl, inr, Bool-cases, String, Bool, true, ◌&&◌, List, [], ◌∷◌,
  ◌++◌, All, str_eq, if◌then◌else◌,
}
use mathlib.Core.Path.{subst}
use k_vswitch.Text.{non_empty}
use k_vswitch.Net.{IpNet, parse_ip, contains}
use k_vswitch.Result.{Result, ok, err, panic}
use k_vswitch.Flows.{Flow}
use k_vswitch.Flows.Buffer.Emits.{flat_map}
use k_vswitch.VSwitchCfg.{VSwitchConfig}
use k_vswitch.OpenFlow.Kube.{Pod, NetworkPolicy, from_set, Listing, listed, failed}
use k_vswitch.OpenFlow.Config.{Config}
use k_vswitch.OpenFlow.Bridge.Flows.{vswitch_list}
use k_vswitch.OpenFlow.Ovs.{Ovs, PortInfo}
use k_vswitch.OpenFlow.PortCache.{PortCache, get_port_info}
use k_vswitch.OpenFlow.Policy.Sorts.{IsPolicyFlow, isolating, allowing, excepting}
use k_vswitch.OpenFlow.Policy.Table.{
  Applied, default_pass, policy_list, policy_table, applied-Sorts, forbidden, policy_verdict,
}
use k_vswitch.OpenFlow.Switch.{Packet, other_ip, int_eq, in_table, Decides}
use k_vswitch.OpenFlow.Controller.{Env, local_pod_ips}
use k_vswitch.OpenFlow.Controller.Adds.{each_of}
use k_vswitch.OpenFlow.Controller.Steps.{pod_list, of_answer, policy_list_of, network_policy_list}
use k_vswitch.OpenFlow.Controller.Sync.{wanted}

in_table-append :
    (t : ℤ) (fs gs : List Flow) → in_table t (fs ++ gs) ≡ in_table t fs ++ in_table t gs
in_table-append t [] gs = refl
in_table-append t (f ∷ fs) gs = elim (Bool-cases (int_eq f.table t)) [
  | inl e ↦ rw (e, in_table-append t fs gs) refl
  | inr e ↦ rw (e, in_table-append t fs gs) refl
]

flat_map-append :
    {X Y : Type 0} (f : X → List Y) (xs ys : List X)
    → flat_map f (xs ++ ys) ≡ flat_map f xs ++ flat_map f ys
flat_map-append f [] ys = refl
flat_map-append f (x ∷ xs) ys =
    ap (λ l. f x ++ l) (flat_map-append f xs ys)
    ∙ sym (append_assoc (f x) (flat_map f xs) (flat_map f ys))

pub table_of : (f : Flow) → IsPolicyFlow f → f.table ≡ pos 10
table_of f (isolating tab at d r) = tab
table_of f (allowing tab at d r) = tab
table_of f (excepting tab at d r) = tab

in_table_self : (fs : List Flow) → All IsPolicyFlow fs → in_table (pos 10) fs ≡ fs
in_table_self [] h = refl
in_table_self (f ∷ fs) (k, rest) =
    ap (λ t. if int_eq t (pos 10) then f ∷ in_table (pos 10) fs else in_table (pos 10) fs)
      (table_of f k)
    ∙ ap (λ l. f ∷ l) (in_table_self fs rest)

-- a policy's flows are all in the table
in_table-policy_list :
    (env : Env) (x : Applied)
    → in_table (pos 10) (policy_list env.lookup x) ≡ policy_list env.lookup x
in_table-policy_list env x =
    in_table_self (policy_list env.lookup x)
      (applied-Sorts env.lookup (λ block (u : Unit {0}). true)
        (record { src = tt; dst = tt; transport = other_ip }) x).kinds

-- the policies with the addresses of their local pods; a policy whose pods could not be listed is
-- not applied
abbrev applied_of : Config → NetworkPolicy → Listing Pod → List Applied
applied_of c np (listed pods) = (np, local_pod_ips c pods) ∷ []
applied_of c np (failed e) = []

abbrev pub applied_policies : Env → Config → List NetworkPolicy → List Applied
applied_policies env c nps =
    flat_map
      (λ (np : NetworkPolicy).
        applied_of c np (env.lookup.list_pods_in np.namespace (from_set np.pod_selector)))
      nps

in_table-policy_list_of :
    (env : Env) (c : Config) (np : NetworkPolicy) (l : Listing Pod)
    → in_table (pos 10) (policy_list_of env c np l)
      ≡ flat_map (policy_list env.lookup) (applied_of c np l)
in_table-policy_list_of env c np (failed e) = refl
in_table-policy_list_of env c np (listed pods) =
    in_table-policy_list env (np, local_pod_ips c pods)
    ∙ sym (append-nil (policy_list env.lookup (np, local_pod_ips c pods)))

in_table-policies :
    (env : Env) (c : Config) (nps : List NetworkPolicy)
    → in_table (pos 10) (flat_map (network_policy_list env c) nps)
      ≡ flat_map (policy_list env.lookup) (applied_policies env c nps)
in_table-policies env c [] = refl
in_table-policies env c (np ∷ nps) =
    let pods = env.lookup.list_pods_in np.namespace (from_set np.pod_selector) in
    in_table-append (pos 10) (network_policy_list env c np)
      (flat_map (network_policy_list env c) nps)
    ∙ ap (λ l. l ++ in_table (pos 10) (flat_map (network_policy_list env c) nps))
        (in_table-policy_list_of env c np pods)
    ∙ ap (λ l. flat_map (policy_list env.lookup) (applied_of c np pods) ++ l)
        (in_table-policies env c nps)
    ∙ sym (
        flat_map-append (policy_list env.lookup) (applied_of c np pods)
          (applied_policies env c nps))

in_table-vswitches :
    (c : Config) (vs : List VSwitchConfig) → in_table (pos 10) (flat_map (vswitch_list c) vs) ≡ []
in_table-vswitches c [] = refl
in_table-vswitches c (v ∷ vs) = elim (Bool-cases (str_eq v.name c.node_name)) [
  | inl e ↦ rw e (in_table-vswitches c vs)
  | inr e ↦ rw e (in_table-vswitches c vs)
]

in_table-of_answer :
    (pod : Pod) (a : Result PortInfo × PortCache) → in_table (pos 10) (of_answer pod a).0 ≡ []
in_table-of_answer pod (ok info, q) = refl
in_table-of_answer pod (err e, q) = refl
in_table-of_answer pod (panic, q) = refl

in_table-pod_list :
    (ovs : Ovs) (net : IpNet) (pod : Pod) (p : PortCache)
    → in_table (pos 10) (pod_list ovs net pod p).0 ≡ []
in_table-pod_list ovs net pod p =
    elim (Bool-cases (non_empty pod.pod_ip && contains net (parse_ip pod.pod_ip))) [
      | inl e ↦ rw e (in_table-of_answer pod (get_port_info ovs pod p))
      | inr e ↦ rw e refl
    ]

in_table-pods :
    (ovs : Ovs) (net : IpNet) (pods : List Pod) (p : PortCache)
    → in_table (pos 10) (each_of (pod_list ovs net) pods p).0 ≡ []
in_table-pods ovs net [] p = refl
in_table-pods ovs net (pod ∷ pods) p =
    let (fs, q) = pod_list ovs net pod p in
    in_table-append (pos 10) (pod_list ovs net pod p).0
      (each_of (pod_list ovs net) pods (pod_list ovs net pod p).1).0
    ∙ ap
        (λ l. l ++ in_table (pos 10) (each_of (pod_list ovs net) pods (pod_list ovs net pod p).1).0)
        (in_table-pod_list ovs net pod p)
    ∙ in_table-pods ovs net pods (pod_list ovs net pod p).1

pub in_table-wanted :
    (env : Env) (c : Config) (net : IpNet) (vs : List VSwitchConfig) (pods : List Pod)
    (nps : List NetworkPolicy) (p : PortCache)
    → in_table (pos 10) (wanted env c net vs pods nps p).0
      ≡ policy_table env.lookup (applied_policies env c nps)
in_table-wanted env c net vs pods nps p =
    let fs = (each_of (pod_list env.ovs net) pods p).0 in
    let policies = flat_map (network_policy_list env c) nps in
    ap (λ l. default_pass ∷ l)
      (in_table-append (pos 10) (flat_map (vswitch_list c) vs) (fs ++ policies)
        ∙ ap (λ l. l ++ in_table (pos 10) (fs ++ policies)) (in_table-vswitches c vs)
        ∙ in_table-append (pos 10) fs policies
        ∙ ap (λ l. l ++ in_table (pos 10) policies) (in_table-pods env.ovs net pods p)
        ∙ in_table-policies env c nps)

-- Of the flows that one run of `syncFlows` is to install, take those of table 10. Whatever one of
-- them the switch takes for a packet drops the packet exactly if the listed network policies,
-- applied to the local pods that they select, forbid it.
pub wanted_verdict :
    (env : Env) (c : Config) (net : IpNet) (vs : List VSwitchConfig) (pods : List Pod)
    (nps : List NetworkPolicy) (cache : PortCache) {A : Type 0} (covers : String → A → Bool)
    (p : Packet A) (f : Flow)
    → Decides covers (in_table (pos 10) (wanted env c net vs pods nps cache).0) p f
    → f.drop ≡ forbidden env.lookup covers p (applied_policies env c nps)
wanted_verdict env c net vs pods nps cache covers p f decides =
    policy_verdict env.lookup covers p (applied_policies env c nps) f
      (subst (λ fs. Decides covers fs p f) (in_table-wanted env c net vs pods nps cache) decides)
