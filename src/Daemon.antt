-- ===== src/Daemon.antt =====
-- cmd/k-vswitchd/main.go: the daemon of a node, which prepares the host and starts the controller.
-- Each call of the host, of the API server or of a library is an entry of a trace; `main` exits
-- with status 1 where it returns an error.
pub mod Outside
pub mod Wait
pub mod Plan
pub mod Setup
pub mod Rules
pub mod Tests
use k_vswitch.Prelude.{
  ℕ, zero, suc, ◌-◌, String, Bool, true, false, Option, none, some, List, [], ◌∷◌, ltb,
  if◌then◌else◌,
}
use k_vswitch.Text.{◌++◌, non_empty}
use k_vswitch.Net.{IpNet, parse_cidr}
use k_vswitch.Result.{Error, msg, wrap, Result, ok, err, panic, is_not_found}
use k_vswitch.Exec.{Exec, ◌>>=◌, ◌>>◌, lift, skip, annotated}
use k_vswitch.Trace.{Trace, call}
use k_vswitch.VSwitchCfg.{VSwitchConfig, Node}
use k_vswitch.Daemon.Outside.{
  in_cluster_config, new_kubernetes, new_kvswitch, Call, D, Host, Link, accept_in, accept_out,
  add_event_handlers, addr_replace, append_unique, bridge_name, cluster_comment, cluster_wide_port,
  cni_conf, cni_config_path, default_controller_target, get_node, get_vswitch_config,
  go_process_queue, go_run, go_serve, initialize, interface_by_name, link_by_name, link_set_up,
  masquerade_outside, masquerade_pods, modprobe, netlink_addr_for_local, netlink_route_for_cluster,
  new_controller, new_iptables, new_of_connect, overlay_port, poll_interval, route_replace,
  service_comment, sleep, start_informers, vsctl, wait_duration, wait_for_cache_sync, write_file,
}

module _ (host : Host) where
  -- a call that returns only an error
  abbrev pub perform : Call → D (Unit {0})
  perform c = call c (host.perform c)

  -- a call that returns nothing
  abbrev pub note : Call → D (Unit {0})
  note c = call c (λ t. ok tt)

  abbrev pub find_link : String → D Link
  find_link name = call (link_by_name name) (host.link name)

  -- exec.Command("ovs-vsctl", command...).CombinedOutput()
  abbrev pub run_vsctl : String → List String → D (Unit {0})
  run_vsctl text args = annotated text (perform (vsctl args))

  unfoldable pub install_cni_conf : String → D (Unit {0})
  unfolding cni_conf
  install_cni_conf pod_cidr = perform (write_file cni_config_path (cni_conf pod_cidr))

  unfoldable pub setup_ovs_bridge_if_not_exists : D (Unit {0})
  setup_ovs_bridge_if_not_exists = do
    run_vsctl "failed to setup OVS bridge" ("--may-exist" ∷ "add-br" ∷ bridge_name ∷ [])
    br ← annotated "could not lookup" (find_link bridge_name)
    annotated "failed to bring bridge up" (perform (link_set_up br))

  unfoldable pub setup_cluster_wide_internal_port : D (Unit {0})
  setup_cluster_wide_internal_port = do
    run_vsctl "failed to setup cluster-wide port" (
        "--may-exist" ∷ "add-port" ∷ bridge_name ∷ cluster_wide_port ∷ "--" ∷ "set" ∷ "Interface"
        ∷ cluster_wide_port ∷ "type=internal" ∷ [])
    cluster_wide ← annotated "could not lookup" (find_link cluster_wide_port)
    annotated "failed to bring bridge up" (perform (link_set_up cluster_wide))

  unfoldable pub setup_overlay_port : String → D (Unit {0})
  setup_overlay_port overlay_type = run_vsctl "failed to setup overlay port" (
      "--may-exist"
      ∷ "add-port"
      ∷ bridge_name
      ∷ overlay_port
      ∷ "--"
      ∷ "set"
      ∷ "Interface"
      ∷ overlay_port
      ∷ ("type=" ++ overlay_type)
      ∷ "option:remote_ip=flow"
      ∷ "option:key=flow"
      ∷ [])

  unfoldable pub set_secure_fail_mode : D (Unit {0})
  set_secure_fail_mode =
      run_vsctl "failed to set fail mode for bridge to 'secure'"
        ("set-fail-mode" ∷ bridge_name ∷ "secure" ∷ [])

  unfoldable pub set_controller_target : D (Unit {0})
  set_controller_target =
      run_vsctl "failed to set controller target for bridge"
        ("set-controller" ∷ bridge_name ∷ default_controller_target ∷ [])

  unfoldable pub setup_bridge_forwarding :
      (pod_cidr cluster_cidr service_cidr : String) → D (Unit {0})
  setup_bridge_forwarding pod_cidr cluster_cidr service_cidr = do
    perform new_iptables
    perform (append_unique "filter" "FORWARD" accept_out)
    perform (append_unique "filter" "FORWARD" accept_in)
    perform (append_unique "nat" "POSTROUTING" (masquerade_pods pod_cidr))
    perform (append_unique "nat" "POSTROUTING" (masquerade_outside cluster_cidr cluster_comment))
    perform (append_unique "nat" "POSTROUTING" (masquerade_outside service_cidr service_comment))

  unfoldable pub setup_modules_and_sysctls : D (Unit {0})
  setup_modules_and_sysctls = do
    annotated "failed to enable br_netfilter module" (perform (modprobe "br_netfilter"))
    annotated "failed to set /proc/sys/net/bridge/bridge-nf-call-iptables"
        (perform (write_file "/proc/sys/net/bridge/bridge-nf-call-iptables" "1"))
    annotated "failed to set /proc/sys/net/ipv4/ip_forward"
        (perform (write_file "/proc/sys/net/ipv4/ip_forward" "1"))

  -- the part of `main` that prepares the host, after the configuration was found
  unfoldable pub prepare : VSwitchConfig → D (Unit {0})
  unfolding setup_ovs_bridge_if_not_exists setup_cluster_wide_internal_port setup_overlay_port
      set_controller_target set_secure_fail_mode setup_modules_and_sysctls setup_bridge_forwarding
      netlink_addr_for_local netlink_route_for_cluster
  prepare cfg = do
    setup_ovs_bridge_if_not_exists
    setup_cluster_wide_internal_port
    setup_overlay_port cfg.spec.overlay_type
    bridge_link ← find_link bridge_name
    cluster_wide_link ← find_link cluster_wide_port
    addr ← lift (netlink_addr_for_local host.next_ip cfg.spec.pod_cidr)
    perform (addr_replace bridge_link addr)
    route ← lift (netlink_route_for_cluster cfg.spec.cluster_cidr)
    perform (route_replace cluster_wide_link.index route)
    set_controller_target
    set_secure_fail_mode
    setup_modules_and_sysctls
    setup_bridge_forwarding cfg.spec.pod_cidr cfg.spec.cluster_cidr cfg.spec.service_cidr

  -- the rest of `main`: the controller, its handlers, and what runs beside it
  unfoldable pub start : (node_name pod_cidr cluster_cidr : String) → D (Unit {0})
  start node_name pod_cidr cluster_cidr = do
    bridge_mac ← call (interface_by_name bridge_name) (host.hardware_addr bridge_name)
    cluster_wide_mac ←
        call (interface_by_name cluster_wide_port) (host.hardware_addr cluster_wide_port)
    perform new_of_connect
    perform (new_controller bridge_name bridge_mac cluster_wide_mac node_name pod_cidr cluster_cidr)
    note add_event_handlers
    perform initialize
    note wait_for_cache_sync
    note start_informers
    note go_process_queue
    note go_serve
    note go_run

  -- `for start := time.Now(); time.Since(start) < waitDuration; { ... }` on fuel, `none` where the
  -- fuel ran out
  unfoldable pub poll :
      ℕ → (since : ℕ) → String → Trace Call → Option (Result VSwitchConfig × Trace Call)
  poll zero since node_name t = none
  poll (suc fuel) since node_name t = elim (ltb (host.clock t - since) wait_duration) [
    | false ↦ some (err (msg "vswitch config not found"), t)
    | true ↦ elim (host.vswitch_config node_name t) [
      | ok cfg ↦ some (ok cfg, (get_vswitch_config node_name, true) ∷ t)
      | panic ↦ some (panic, (get_vswitch_config node_name, false) ∷ t)
      | err e ↦ elim (is_not_found e) [
        | false ↦ some (err e, (get_vswitch_config node_name, false) ∷ t)
        | true ↦
            poll fuel since node_name
              ((sleep poll_interval, true) ∷ (get_vswitch_config node_name, false) ∷ t)
      ]
    ]
  ]

  abbrev pub ended :
      Option (Result VSwitchConfig × Trace Call) → Trace Call → Result VSwitchConfig × Trace Call
  ended none t = (panic, t)
  ended (some x) t = x

  -- `waitForVSwitchConfig`; the fuel is one more than the polls that fit
  unfoldable pub wait_for_vswitch_config : String → D VSwitchConfig
  unfolding poll
  wait_for_vswitch_config node_name t = ended (poll 13 (host.clock t) node_name t) t

  -- if podCIDR == "" { exit }
  abbrev pub require : String → String → Result (Unit {0})
  require text value = if non_empty value then ok tt else err (msg text)

  unfoldable pub main : D (Unit {0})
  unfolding install_cni_conf wait_for_vswitch_config prepare start
  main = do
    perform in_cluster_config
    perform new_kubernetes
    perform new_kvswitch
    lift (require "env variable NODE_NAME is required" host.env_node_name)
    cur_node ← call (get_node host.env_node_name) (host.node host.env_node_name)
    lift (require "node has no pod CIDR assigned" cur_node.pod_cidr)
    install_cni_conf cur_node.pod_cidr
    cfg ← wait_for_vswitch_config cur_node.name
    prepare cfg
    start cur_node.name cfg.spec.pod_cidr cfg.spec.cluster_cidr
