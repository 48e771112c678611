-- ===== src/OpenFlow/Legible/Cluster.antt =====
-- Which clusters give flows, in one run of `syncFlows` of controllers/openflow/flows.go, that can be
-- read back.
use k_vswitch.Prelude.{◌≡◌, refl, List, All, All-append}
use k_vswitch.Net.{IpNet}
use k_vswitch.Flows.Buffer.Emits.{flat_map}
use k_vswitch.Flows.Reader.Lines.{IsLegible}
use k_vswitch.VSwitchCfg.{VSwitchConfig}
use k_vswitch.OpenFlow.Kube.{Pod, NetworkPolicy, from_set, Listing, listed, failed}
use k_vswitch.OpenFlow.Config.{Config}
use k_vswitch.OpenFlow.Bridge.Flows.{default_list, vswitch_list}
use k_vswitch.OpenFlow.Policy.{ingress, egress}
use k_vswitch.OpenFlow.PortCache.{PortCache}
use k_vswitch.OpenFlow.PortCache.Bounds.{AllFit}
use k_vswitch.OpenFlow.Legible.{IsText, IsPlainConfig, IsPlainNode, All-flat_map}
use k_vswitch.OpenFlow.Legible.Nodes.{default-IsLegible, node-IsLegible}
use k_vswitch.OpenFlow.Legible.Pods.{IsPlainPod, pods-AreFine}
use k_vswitch.OpenFlow.Legible.Policies.{ListsPlain, IsPlainPolicy, direction-IsLegible}
use k_vswitch.OpenFlow.Controller.{Env, local_pod_ips}
use k_vswitch.OpenFlow.Controller.Adds.{each_of}
use k_vswitch.OpenFlow.Controller.Local.{local_pod_ips-All}
use k_vswitch.OpenFlow.Controller.Steps.{pod_list, policy_list_of, network_policy_list}
use k_vswitch.OpenFlow.Controller.Sync.{wanted}

-- What the cluster and the node hold is written without spaces, commas and parentheses, and the
-- numbers are integers of 64 bits.
pub record IsPlainCluster (env : Env) (c : Config) (vs : List VSwitchConfig) (pods : List Pod)
    (nps : List NetworkPolicy) (cache : PortCache) : Type 0 where
  pub config : IsPlainConfig c
  pub nodes : All IsPlainNode vs
  pub addresses : All IsPlainPod pods
  pub policies : All (IsPlainPolicy env.lookup) nps
  pub lists : ListsPlain env.lookup
  pub ports : AllFit cache.store

policy-IsLegible :
    (env : Env) (c : Config) (np : NetworkPolicy)
    → ListsPlain env.lookup
    → IsPlainPolicy env.lookup np
    → All IsLegible (network_policy_list env c np)
policy-IsLegible env c np lists h =
    by_answer (env.lookup.list_pods_in np.namespace (from_set np.pod_selector)) refl
  where
    by_answer :
        (l : Listing Pod)
        → env.lookup.list_pods_in np.namespace (from_set np.pod_selector) ≡ l
        → All IsLegible (policy_list_of env c np l)
    by_answer (failed e) k = tt
    by_answer (listed pods) k =
        let ips =
          local_pod_ips-All IsText c pods (lists np.namespace (from_set np.pod_selector) pods k) in
        All-append IsLegible _ _
          (direction-IsLegible env.lookup ingress (local_pod_ips c pods) ips lists np np.ingress
            h.0)
          (direction-IsLegible env.lookup egress (local_pod_ips c pods) ips lists np np.egress h.1)

pub wanted-IsLegible :
    (env : Env) (c : Config) (net : IpNet) (vs : List VSwitchConfig) (pods : List Pod)
    (nps : List NetworkPolicy) (cache : PortCache)
    → IsPlainCluster env c vs pods nps cache
    → All IsLegible (wanted env c net vs pods nps cache).0
wanted-IsLegible env c net vs pods nps cache h =
    All-append IsLegible (default_list c) _ (default-IsLegible c h.config) (
      All-append IsLegible (flat_map (vswitch_list c) vs) _
        (All-flat_map IsPlainNode IsLegible (vswitch_list c) (node-IsLegible c h.config) vs h.nodes)
        (All-append IsLegible (each_of (pod_list env.ovs net) pods cache).0 _
          (pods-AreFine env.ovs net pods cache h.addresses h.ports)
          (All-flat_map (IsPlainPolicy env.lookup) IsLegible (network_policy_list env c)
            (λ np k. policy-IsLegible env c np h.lists k) nps h.policies)))
