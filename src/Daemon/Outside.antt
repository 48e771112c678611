-- ===== src/Daemon/Outside.antt =====
-- The outside of cmd/k-vswitchd/main.go: its constants, what it calls and what the calls answer, and
-- the texts and addresses that it computes.
use k_vswitch.Prelude.{ℕ, String, List, [], ◌∷◌}
use k_vswitch.Text.{◌++◌}
use k_vswitch.Net.{IpNet, parse_cidr}
use k_vswitch.Result.{Result, ok, err, panic}
use k_vswitch.Exec.{Exec}
use k_vswitch.Trace.{Trace}
use k_vswitch.VSwitchCfg.{VSwitchConfig, Node}

abbrev pub cni_config_path : String
cni_config_path = "/etc/cni/net.d/10-k-vswitch.json"

abbrev pub bridge_name : String
bridge_name = "k-vswitch0"

abbrev pub cluster_wide_port : String
cluster_wide_port = "cluster-wide"

abbrev pub overlay_port : String
overlay_port = "overlay0"

abbrev pub default_controller_target : String
default_controller_target = "tcp:127.0.0.1:6653"

-- time.Minute and 5 * time.Second, in nanoseconds
abbrev pub wait_duration : ℕ
wait_duration = 60_000_000_000

abbrev pub poll_interval : ℕ
poll_interval = 5_000_000_000

-- netlink.Link, by what the daemon reads of it
pub record Link : Type 0 where
  pub name : String
  pub index : ℕ

pub data Call : Type 0 where
  -- the API server and its clients
  in_cluster_config new_kubernetes new_kvswitch : Call
  get_node get_vswitch_config : String → Call
  sleep : ℕ → Call
  -- files and commands
  write_file : (path content : String) → Call
  vsctl : List String → Call
  modprobe : String → Call
  -- netlink; a route has the index of its link
  link_by_name : String → Call
  link_set_up : Link → Call
  addr_replace : Link → IpNet → Call
  route_replace : ℕ → IpNet → Call
  interface_by_name : String → Call
  -- iptables, with a table and a chain
  new_iptables : Call
  append_unique : (table chain : String) → List String → Call
  -- the controller and what runs beside it; the handlers of all three informers are one call, and so
  -- are the waits for, and the starts of, the two informer factories
  new_of_connect : Call
  new_controller : (bridge bridge_mac cluster_wide_mac node pod_cidr cluster_cidr : String) → Call
  add_event_handlers initialize : Call
  wait_for_cache_sync start_informers : Call
  go_process_queue go_serve go_run : Call

-- What the calls answer, after the calls that were made before. `perform` answers those that return
-- only an error; `clock` is the time, in nanoseconds.
pub record Host : Type 0 where
  pub env_node_name : String
  pub next_ip : ℕ → ℕ
  pub clock : Trace Call → ℕ
  pub node : String → Trace Call → Result Node
  pub vswitch_config : String → Trace Call → Result VSwitchConfig
  pub link : String → Trace Call → Result Link
  pub hardware_addr : String → Trace Call → Result String
  pub perform : Call → Trace Call → Result (Unit {0})

abbrev pub D : Type 0 → Type 0
D A = Exec (Trace Call) A

-- `netlinkRouteForCluster`, of whose route the destination is computed
unfoldable pub netlink_route_for_cluster : String → Result IpNet
unfolding parse_cidr
netlink_route_for_cluster cluster_cidr = parse_cidr cluster_cidr

-- `netlinkAddrForLocal`: the address after the first of the block, with the mask of the block. The
-- first address is masked already.
unfoldable pub netlink_addr_for_local : (ℕ → ℕ) → String → Result IpNet
unfolding parse_cidr
netlink_addr_for_local next_ip pod_cidr = elim (parse_cidr pod_cidr) [
  | ok pod_ip_net ↦ ok (record { ip = next_ip pod_ip_net.ip; ones = pod_ip_net.ones })
  | err e ↦ err e
  | panic ↦ panic
]

-- the file that `installCNIConf` writes
unfoldable pub cni_conf : String → String
cni_conf pod_cidr =
    "{\n\t\"name\": \"k-vswitch-cni\",\n\t\"type\": \"k-vswitch-cni\",\n\t\"bridge\": \"k-vswitch0\",\n\t\"isGateway\": true,\n\t\"isDefaultGateway\": true,\n\t\"ipam\": {\n\t\t\"type\": \"host-local\",\n\t\t\"subnet\": \""
    ++ pod_cidr ++ "\"\n\t}\n}"

-- the rules of `setupBridgeForwarding`
abbrev pub accept_out : List String
accept_out = "-o" ∷ bridge_name ∷ "-j" ∷ "ACCEPT" ∷ []

abbrev pub accept_in : List String
accept_in = "-i" ∷ bridge_name ∷ "-j" ∷ "ACCEPT" ∷ []

abbrev pub masquerade_pods : String → List String
masquerade_pods pod_cidr = "-s" ∷ pod_cidr ∷ "!" ∷ "-o" ∷ bridge_name ∷ "-j" ∷ "MASQUERADE" ∷ []

abbrev pub masquerade_outside : (cidr comment : String) → List String
masquerade_outside cidr comment =
    "!" ∷ "-d" ∷ cidr ∷ "-m" ∷ "comment" ∷ "--comment" ∷ comment ∷ "-m" ∷ "addrtype" ∷ "!"
    ∷ "--dst-type" ∷ "LOCAL" ∷ "-j" ∷ "MASQUERADE" ∷ []

abbrev pub cluster_comment : String
cluster_comment = "k-vswitch: SNAT for outbound traffic from cluster CIDR"

abbrev pub service_comment : String
service_comment = "k-vswitch: SNAT for outbound traffic from service CIDR"
