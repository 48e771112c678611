-- ===== src/Daemon/Plan.antt =====
-- The calls by which the daemon prepares the host and starts the controller, in their order.
use k_vswitch.Prelude.{ℕ, ◌≡◌, String, List, [], ◌∷◌, ◌++◌}
use k_vswitch.Text.{◌++◌ as text_append}
use k_vswitch.Net.{IpNet}
use k_vswitch.Result.{Result, ok, err, panic}
use k_vswitch.Trace.{Trace, is_ok}
use k_vswitch.Trace.Plan.{Item, makes, checks}
use k_vswitch.VSwitchCfg.{VSwitchConfig}
use k_vswitch.Daemon.Outside.{
  Link, Call, write_file, vsctl, modprobe, link_by_name, link_set_up, addr_replace, route_replace,
  interface_by_name, new_iptables, append_unique, new_of_connect, new_controller,
  add_event_handlers, initialize, wait_for_cache_sync, start_informers, go_process_queue, go_serve,
  go_run, Host, bridge_name, cluster_wide_port, overlay_port, default_controller_target, accept_out,
  accept_in, masquerade_pods, masquerade_outside, cluster_comment, service_comment,
  netlink_addr_for_local, netlink_route_for_cluster,
}

-- The links and their hardware addresses do not change while the daemon starts.
pub record IsStable (host : Host) (links : String → Link) (macs : String → String) : Type 0 where
  pub link : (name : String) (t : Trace Call) (l : Link) → host.link name t ≡ ok l → l ≡ links name
  pub mac :
      (name : String) (t : Trace Call) (m : String)
      → host.hardware_addr name t ≡ ok m
      → m ≡ macs name

-- the value of a computation, or a default
abbrev pub value_or : {A : Type 0} → A → Result A → A
value_or d (ok a) = a
value_or d (err e) = d
value_or d panic = d

abbrev pub no_net : IpNet
no_net = record { ip = 0; ones = 0 }

abbrev pub Any : Unit {0} → Type 0
Any u = Unit

module _ (links : String → Link) where
  abbrev pub bridge_plan : List (Item Call)
  bridge_plan =
      makes (vsctl ("--may-exist" ∷ "add-br" ∷ bridge_name ∷ []))
      ∷ makes (link_by_name bridge_name)
      ∷ makes (link_set_up (links bridge_name))
      ∷ []

  abbrev pub cluster_wide_plan : List (Item Call)
  cluster_wide_plan =
      makes (
        vsctl (
          "--may-exist" ∷ "add-port" ∷ bridge_name ∷ cluster_wide_port ∷ "--" ∷ "set" ∷ "Interface"
          ∷ cluster_wide_port ∷ "type=internal" ∷ []))
      ∷ makes (link_by_name cluster_wide_port)
      ∷ makes (link_set_up (links cluster_wide_port))
      ∷ []

abbrev pub sysctl_plan : List (Item Call)
sysctl_plan =
    makes (modprobe "br_netfilter")
    ∷ makes (write_file "/proc/sys/net/bridge/bridge-nf-call-iptables" "1")
    ∷ makes (write_file "/proc/sys/net/ipv4/ip_forward" "1")
    ∷ []

abbrev pub forwarding_plan : (pod_cidr cluster_cidr service_cidr : String) → List (Item Call)
forwarding_plan pod_cidr cluster_cidr service_cidr =
    makes new_iptables
    ∷ makes (append_unique "filter" "FORWARD" accept_out)
    ∷ makes (append_unique "filter" "FORWARD" accept_in)
    ∷ makes (append_unique "nat" "POSTROUTING" (masquerade_pods pod_cidr))
    ∷ makes (append_unique "nat" "POSTROUTING" (masquerade_outside cluster_cidr cluster_comment))
    ∷ makes (append_unique "nat" "POSTROUTING" (masquerade_outside service_cidr service_comment))
    ∷ []

-- the calls of `prepare`
abbrev pub prepare_plan : (ℕ → ℕ) → (String → Link) → VSwitchConfig → List (Item Call)
prepare_plan next_ip links cfg =
    bridge_plan links
    ++ cluster_wide_plan links
    ++ makes (
        vsctl (
          "--may-exist"
          ∷ "add-port"
          ∷ bridge_name
          ∷ overlay_port
          ∷ "--"
          ∷ "set"
          ∷ "Interface"
          ∷ overlay_port
          ∷ text_append "type=" cfg.spec.overlay_type
          ∷ "option:remote_ip=flow"
          ∷ "option:key=flow"
          ∷ []))
      ∷ makes (link_by_name bridge_name)
      ∷ makes (link_by_name cluster_wide_port)
      ∷ checks (is_ok (netlink_addr_for_local next_ip cfg.spec.pod_cidr))
      ∷ makes (
          addr_replace (links bridge_name)
            (value_or no_net (netlink_addr_for_local next_ip cfg.spec.pod_cidr)))
      ∷ checks (is_ok (netlink_route_for_cluster cfg.spec.cluster_cidr))
      ∷ makes (
          route_replace (links cluster_wide_port).index
            (value_or no_net (netlink_route_for_cluster cfg.spec.cluster_cidr)))
      ∷ makes (vsctl ("set-controller" ∷ bridge_name ∷ default_controller_target ∷ []))
      ∷ makes (vsctl ("set-fail-mode" ∷ bridge_name ∷ "secure" ∷ []))
      ∷ sysctl_plan
    ++ forwarding_plan cfg.spec.pod_cidr cfg.spec.cluster_cidr cfg.spec.service_cidr

-- the calls of `start`
abbrev pub start_plan :
    (String → String) → (node_name pod_cidr cluster_cidr : String) → List (Item Call)
start_plan macs node_name pod_cidr cluster_cidr =
    makes (interface_by_name bridge_name)
    ∷ makes (interface_by_name cluster_wide_port)
    ∷ makes new_of_connect
    ∷ makes (
        new_controller bridge_name (macs bridge_name) (macs cluster_wide_port) node_name pod_cidr
          cluster_cidr)
    ∷ makes add_event_handlers
    ∷ makes initialize
    ∷ makes wait_for_cache_sync
    ∷ makes start_informers
    ∷ makes go_process_queue
    ∷ makes go_serve
    ∷ makes go_run
    ∷ []
