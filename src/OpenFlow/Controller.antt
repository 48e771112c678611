-- ===== src/OpenFlow/Controller.antt =====
-- `controller` of controllers/openflow/controller.go and flows.go: its state, `syncFlows` and the
-- handlers of the informers. Each `sync` runs under one lock, so that a call is one step of the
-- state.
pub mod Adds
pub mod Steps
pub mod Sync
pub mod Classes
pub mod Installed
pub mod Local
pub mod Members
pub mod Origins
pub mod Paths
pub mod Tables
pub mod Verdict
pub mod Ways
pub mod Routes
pub mod Events
use k_vswitch.Prelude.{
  ℕ, ◌+◌, ℤ, String, Bool, true, false, Option, none, some, List, [], ◌∷◌, if◌then◌else◌, pos,
}
use k_vswitch.Text.{◌++◌, non_empty}
use k_vswitch.Net.{IpNet, parse_ip, parse_cidr, ip_string, contains}
use k_vswitch.Result.{Error, msg, wrap, Result, ok, err, panic, context}
use k_vswitch.Exec.{Exec, ◌>>=◌, ◌>>◌, pure, lift, gets, skip, modify, logged, for_each}
use k_vswitch.Flows.{
  Flow, new_flow, ◌▸◌, with_table, with_priority, with_protocol, with_ip_dest,
  with_action_mod_dl_dest, with_action_output_port,
}
use k_vswitch.Flows.Buffer.{
  FlowsBuffer, new_flows_buffer, add_flow, reset, Command, sync_flows_command,
}
use k_vswitch.VSwitchCfg.{VSwitchConfig}
use k_vswitch.OpenFlow.Kube.{
  Pod, NetworkPolicy, Selector, everything, from_set, Listing, listed, failed,
}
use k_vswitch.OpenFlow.Config.{table_l2_rewrites, pod_mac_addr, Config}
use k_vswitch.OpenFlow.Bridge.{arp_responder, default_flows, flows_for_vswitch}
use k_vswitch.OpenFlow.Policy.{
  Lookup, flows_for_ingress_network_policy, flows_for_egress_network_policy,
}
use k_vswitch.OpenFlow.Ovs.{Ovs, PortInfo, of_port_from_name}
use k_vswitch.OpenFlow.PortCache.{PortCache, new_port_cache, get_port_info, del_port_info}

-- `issued` records the commands that were run, the newest first.
pub record Controller : Type 0 where
  pub config : Config
  pub flows : FlowsBuffer
  pub port_cache : PortCache
  pub issued : List Command

-- What the controller asks of the cluster and of the host: the listers, ovs-vsctl, and the outcome
-- of a command.
pub record Env : Type 0 where
  pub lookup : Lookup
  pub list_vswitches : Listing VSwitchConfig
  pub list_pods : Listing Pod
  pub list_policies : Listing NetworkPolicy
  pub ovs : Ovs
  pub run : Command → Result String

abbrev pub M : Type 0 → Type 0
M A = Exec Controller A

-- code that only touches the buffer, or the port cache
abbrev pub on_flows : Exec FlowsBuffer (Unit {0}) → M (Unit {0})
on_flows m c = let (r, b) = m c.flows in (r, record c { flows = b })

abbrev pub on_cache : Exec PortCache PortInfo → M PortInfo
on_cache m c = let (r, p) = m c.port_cache in (r, record c { port_cache = p })

-- pods, err := lister.List(...); if err != nil { return fmt.Errorf("context: %v", err) }
abbrev pub listing : {A : Type 0} → String → Listing A → Result (List A)
listing text (listed xs) = ok xs
listing text (failed e) = err (wrap text e)

-- the error of `m` is wrapped
abbrev pub wrap_result : {A : Type 0} → String → Result A × Controller → Result A × Controller
wrap_result text (r, c) = (context text r, c)

abbrev pub wrapped : {A : Type 0} → String → M A → M A
wrapped text m c = wrap_result text (m c)

-- `isLocalIP`, for IPv4: `parse_cidr` and `parse_ip` read dotted texts only
unfoldable pub is_local_ip : Config → String → Result Bool
is_local_ip c ip = elim (parse_cidr c.pod_cidr) [
  | ok net ↦ ok (contains net (parse_ip ip))
  | err e ↦ err e
  | panic ↦ panic
]

-- the loop of `flowsForNetworkPolicy`: an address that is empty, not local or not decided is
-- skipped
abbrev is_true : Result Bool → Bool
is_true (ok b) = b
is_true (err e) = false
is_true panic = false

unfoldable pub local_pod_ips : Config → List Pod → List String
local_pod_ips c [] = []
local_pod_ips c (pod ∷ pods) =
    let rest = local_pod_ips c pods in
    if non_empty pod.pod_ip
    then (if is_true (is_local_ip c pod.pod_ip) then pod.pod_ip ∷ rest else rest)
    else rest

-- the flow that hands a packet to a pod's port, and the answer to ARP requests for the pod
abbrev pub pod_port_flow : String → ℤ → Flow
pod_port_flow pod_ip ofport =
    new_flow
    ▸ with_table table_l2_rewrites
    ▸ with_priority (pos 100)
    ▸ with_protocol "ip"
    ▸ with_ip_dest pod_ip
    ▸ with_action_mod_dl_dest pod_mac_addr
    ▸ with_action_output_port ofport

module _ (env : Env) where
  local_pod : Pod → Bool → M (Unit {0})
  unfolding get_port_info
  local_pod pod false = skip
  local_pod pod true = do
    info ← wrapped "error checking port info for pod" (on_cache (get_port_info env.ovs pod))
    on_flows (add_flow (pod_port_flow pod.pod_ip info.ofport))
    on_flows (add_flow (arp_responder pod.pod_ip pod_mac_addr))

  pub flows_for_pod : Pod → M (Unit {0})
  unfolding local_pod is_local_ip
  flows_for_pod pod =
      if non_empty pod.pod_ip
      then (do
        c ← gets (λ s. s.config)
        local ← lift (context "error checking if IP is local" (is_local_ip c pod.pod_ip))
        local_pod pod local)
      else skip

  pub flows_for_network_policy : NetworkPolicy → M (Unit {0})
  unfolding local_pod_ips is_local_ip flows_for_ingress_network_policy
      flows_for_egress_network_policy
  flows_for_network_policy np = do
    c ← gets (λ s. s.config)
    pods ← lift (
        listing "error listing pods by pod selector"
          (env.lookup.list_pods_in np.namespace (from_set np.pod_selector)))
    let ips = local_pod_ips c pods
    logged (on_flows (flows_for_ingress_network_policy env.lookup np ips))
    logged (on_flows (flows_for_egress_network_policy env.lookup np ips))

  -- FlowsBuffer.SyncFlows: the command is recorded, and its outcome returned
  install_flows : M (Unit {0})
  install_flows = do
    command ← gets (λ s. sync_flows_command s.config.bridge_name s.flows)
    modify (λ s. record s { issued = command ∷ s.issued })
    out ← lift (context "failed to sync flows" (env.run command))
    skip

  pub sync_flows : M (Unit {0})
  unfolding flows_for_pod flows_for_network_policy install_flows default_flows flows_for_vswitch
  sync_flows = do
    on_flows reset
    c ← gets (λ s. s.config)
    wrapped "error adding default flows" (on_flows (default_flows c))
    vswitch_cfgs ← lift (listing "error listing vswitch configs" env.list_vswitches)
    for_each vswitch_cfgs (λ v. logged (on_flows (flows_for_vswitch c v)))
    pods ← lift (listing "error listing pods" env.list_pods)
    for_each pods (λ pod. logged (flows_for_pod pod))
    net_pols ← lift (listing "error getting network policies" env.list_policies)
    for_each net_pols (λ np. logged (flows_for_network_policy np))
    wrapped "error syncing flows" install_flows

-- the controller that `NewController` returns
abbrev pub new_controller : Config → Controller
new_controller c = record {
  config = c;
  flows = new_flows_buffer;
  port_cache = new_port_cache;
  issued = [];
}
