-- ===== src/OpenFlow/Controller/Steps.antt =====
-- `flowsForPod` and `flowsForNetworkPolicy` of controllers/openflow/flows.go: the flows of one pod
-- and of one policy.
use k_vswitch.Prelude.{
  ◌≡◌, refl, ap, ◌≢◌, inl, inr, Bool-cases, String, true, false, ◌&&◌, List, [], ◌∷◌, All,
  if◌then◌else◌,
}
use k_vswitch.Text.{non_empty}
use k_vswitch.Net.{IpNet, parse_ip, parse_cidr, contains}
use k_vswitch.Result.{Result, ok, err, panic, context}
use k_vswitch.Exec.{logged_result, ◌>>=◌, ◌>>◌, logged, lift, continue}
use k_vswitch.Flows.{Flow}
use k_vswitch.Flows.Buffer.{add_flow, FlowsBuffer, Command}
use k_vswitch.Flows.Buffer.Emits.{put_flows}
use k_vswitch.OpenFlow.Kube.{Pod, NetworkPolicy, from_set, Listing, listed, failed}
use k_vswitch.OpenFlow.Config.{pod_mac_addr, Config}
use k_vswitch.OpenFlow.Bridge.{arp_responder}
use k_vswitch.OpenFlow.Policy.{
  ingress, egress, flows_for_ingress_network_policy, flows_for_egress_network_policy,
}
use k_vswitch.OpenFlow.Policy.Flows.{HasPorts, direction_flows-Emits}
use k_vswitch.OpenFlow.Policy.Table.{policy_list}
use k_vswitch.OpenFlow.Ovs.{Ovs, PortInfo, port_info_of}
use k_vswitch.OpenFlow.PortCache.{PortCache, get_port_info}
use k_vswitch.OpenFlow.PortCache.Laws.{get_port_info-panics}
use k_vswitch.OpenFlow.Controller.{
  listing, Env, on_flows, is_local_ip, local_pod_ips, pod_port_flow, local_pod, flows_for_pod,
  flows_for_network_policy,
}
use k_vswitch.OpenFlow.Controller.Adds.{controller, Adds, Adds-skip, Adds-on_flows, Adds-seq}

-- the flows of a pod, by the answer about its port
abbrev pub of_answer : Pod → Result PortInfo × PortCache → List Flow × PortCache
of_answer pod (ok info, q) =
    (pod_port_flow pod.pod_ip info.ofport ∷ arp_responder pod.pod_ip pod_mac_addr ∷ [], q)
of_answer pod (err e, q) = ([], q)
of_answer pod (panic, q) = ([], q)

-- A pod with an address of the node's block has a flow to its port and one for ARP; a pod whose
-- port is not known has none.
abbrev pub pod_list : Ovs → IpNet → Pod → PortCache → List Flow × PortCache
pod_list ovs net pod p =
    if non_empty pod.pod_ip && contains net (parse_ip pod.pod_ip)
    then of_answer pod (get_port_info ovs pod p)
    else ([], p)

-- The policy's flows, for those of its pods that are on the node.
abbrev pub policy_list_of : Env → Config → NetworkPolicy → Listing Pod → List Flow
policy_list_of env c np (listed pods) = policy_list env.lookup (np, local_pod_ips c pods)
policy_list_of env c np (failed e) = []

abbrev pub network_policy_list : Env → Config → NetworkPolicy → List Flow
network_policy_list env c np =
    policy_list_of env c np (env.lookup.list_pods_in np.namespace (from_set np.pod_selector))

-- no output of ovs-vsctl decodes to a row with no column
abbrev pub Answers : Ovs → Type 0
Answers ovs = (namespace name : String) → port_info_of ovs namespace name ≢ panic

abbrev pub IsComplete : NetworkPolicy → Type 0
IsComplete np = All HasPorts np.ingress × All HasPorts np.egress

module _ (env : Env) (c : Config) (net : IpNet) (is_net : parse_cidr c.pod_cidr ≡ ok net) where
  pub is_local_ip_lem : (ip : String) → is_local_ip c ip ≡ ok (contains net (parse_ip ip))
  unfolding is_local_ip
  is_local_ip_lem ip = rw (is_local_ip, is_net) refl

  answer_lem :
      (pod : Pod) (a : Result PortInfo × PortCache) (b : FlowsBuffer) (i : List Command)
      → a.0 ≢ panic
      → logged_result (
          continue
            (context "error checking port info for pod" a.0)
            (λ info.
              on_flows (add_flow (pod_port_flow pod.pod_ip info.ofport))
              >> on_flows (add_flow (arp_responder pod.pod_ip pod_mac_addr)))
            (controller c b a.1 i))
        ≡ (ok tt, controller c (put_flows (of_answer pod a).0 b) (of_answer pod a).1 i)
  answer_lem pod (ok info, q) b i h = refl
  answer_lem pod (err e, q) b i h = refl
  answer_lem pod (panic, q) b i h = absurd (h refl)

  answer-Adds :
      (pod : Pod) (p : PortCache)
      → Answers env.ovs
      → Adds c p
          (logged (local_pod env pod true))
          (of_answer pod (get_port_info env.ovs pod p)).0
          (of_answer pod (get_port_info env.ovs pod p)).1
  unfolding local_pod
  answer-Adds pod p answers = record {
    at = λ b i.
        answer_lem pod (get_port_info env.ovs pod p) b i
          (get_port_info-panics env.ovs pod p (answers pod.namespace pod.name));
  }

  skip-Adds : (pod : Pod) (p : PortCache) → Adds c p (logged (local_pod env pod false)) [] p
  unfolding local_pod
  skip-Adds pod p = Adds-skip p

  pub pod-Adds :
      (pod : Pod)
      → Answers env.ovs
      → (p : PortCache)
      → Adds c p
          (logged (flows_for_pod env pod))
          (pod_list env.ovs net pod p).0
          (pod_list env.ovs net pod p).1
  unfolding flows_for_pod
  pod-Adds pod answers p = record {
    at = λ b i. elim (Bool-cases (non_empty pod.pod_ip)) [
      | inr e ↦ rw e refl
      | inl e ↦ elim (Bool-cases (contains net (parse_ip pod.pod_ip))) [
        | inl l ↦ rw (e, is_local_ip_lem pod.pod_ip, l) ((answer-Adds pod p answers).at b i)
        | inr l ↦ rw (e, is_local_ip_lem pod.pod_ip, l) ((skip-Adds pod p).at b i)
      ]
    ];
  }

  listed-Adds :
      (np : NetworkPolicy) (l : Listing Pod) (p : PortCache)
      → IsComplete np
      → Adds c p
          (logged (
            lift (listing "error listing pods by pod selector" l) >>= λ pods.
            let ips = local_pod_ips c pods in
            logged (on_flows (flows_for_ingress_network_policy env.lookup np ips))
            >> logged (on_flows (flows_for_egress_network_policy env.lookup np ips))))
          (policy_list_of env c np l)
          p
  unfolding flows_for_ingress_network_policy flows_for_egress_network_policy
  listed-Adds np (failed e) p set = record { at = λ b i. refl }
  listed-Adds np (listed pods) p (inset, outset) =
      let ips = local_pod_ips c pods in
      record {
        at = λ b i. ap logged_result (
            (Adds-seq
                (Adds-on_flows p (direction_flows-Emits env.lookup ingress np.ingress np ips inset))
                (Adds-on_flows p
                  (direction_flows-Emits env.lookup egress np.egress np ips outset))).at
              b i);
      }

  pub policy-Adds :
      (np : NetworkPolicy)
      → IsComplete np
      → (p : PortCache)
      → Adds c p (logged (flows_for_network_policy env np)) (network_policy_list env c np) p
  unfolding flows_for_network_policy
  policy-Adds np set p = record {
    at =
        (listed-Adds np (env.lookup.list_pods_in np.namespace (from_set np.pod_selector)) p set).at;
  }
