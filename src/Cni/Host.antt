-- ===== src/Cni/Host.antt =====
-- The outside of cmd/k-vswitch-cni/plugin.go: what a command of the plugin calls, and what the
-- calls answer. A command is a process of its own, so its trace starts empty.
use k_vswitch.Prelude.{ℕ, String, List}
use k_vswitch.Result.{Result}
use k_vswitch.Exec.{Exec, ◌>>◌, skip, deferred, annotated}
use k_vswitch.Trace.{Trace, call, attempt}
use k_vswitch.OpenFlow.Ovs.{Ovs}
use k_vswitch.Cni.Network.{Family, Ip, Net, IpConfig, Route, NetConf}

-- skel.CmdArgs
pub record CmdArgs : Type 0 where
  pub container_id : String
  pub netns : String
  pub if_name : String
  pub stdin : String

-- current.Interface; of a link of netlink, the name and the hardware address
pub record Interface : Type 0 where
  pub name : String
  pub mac : String
  pub sandbox : String

-- current.Result
pub record CniResult : Type 0 where
  pub cni_version : String
  pub interfaces : List Interface
  pub ips : List IpConfig
  pub routes : List Route
  pub dns : String

pub data Call : Type 0 where
  -- network namespaces
  get_ns enter_ns : String → Call
  close_ns leave_ns : Call
  -- links
  link_by_name interface_by_name : String → Call
  create_veth : (if_name : String) (mtu : ℕ) → Call
  link_set_hardware_addr : (name mac : String) → Call
  link_set_up del_link : String → Call
  -- ovs-vsctl
  add_ovs_port find_ovs_port del_ovs_port : (bridge_name port : String) → Call
  -- the IPAM plugin, and the variable CNI_COMMAND that it reads
  ipam_add ipam_del : (type stdin : String) → Call
  set_cni_command : String → Call
  -- addresses, and what stands under /proc
  read_file : String → Call
  write_file : (path content : String) → Call
  configure_iface : String → List IpConfig → List Route → Call
  gratuitous_arp : Ip → Call
  addr_list : String → Family → Call
  addr_add addr_del : String → Net → Call
  enable_ip4_forward enable_ip6_forward : Call
  setup_ip_masq teardown_ip_masq : Net → (chain comment : String) → Call
  -- the result, on standard output
  print_result : CniResult → Call

-- What the calls answer, after the calls that were made before. `perform` answers those that return
-- only an error. ENOENT and ip.ErrLinkNotFound are the error `not_found`.
pub record Host : Type 0 where
  pub unmarshal : String → NetConf → Result NetConf
  pub cni_args : String
  pub next_ip : Ip → Ip
  pub network : Net → Net
  pub format_chain_name : (name container_id : String) → String
  pub format_comment : (name container_id : String) → String
  pub ovs : Trace Call → Ovs
  pub link : String → Trace Call → Result Interface
  pub veth : String → Trace Call → Result (Interface × Interface)
  pub ipam_result : Trace Call → Result String
  pub new_result : String → Result (List IpConfig × List Route)
  pub file : String → Trace Call → Result String
  pub addrs : String → Family → Trace Call → Result (List Net)
  pub del_link : String → Trace Call → Result (List Net)
  pub perform : Call → Trace Call → Result (Unit {0})

abbrev pub C : Type 0 → Type 0
C A = Exec (Trace Call) A

module _ (host : Host) where
  -- a call that returns only an error
  abbrev pub perform : Call → C (Unit {0})
  perform c = call c (host.perform c)

  -- a call that returns nothing, or whose error is dropped
  abbrev pub note : Call → C (Unit {0})
  note c = attempt c (host.perform c) >> skip

  abbrev pub find_link : String → C Interface
  find_link name = call (link_by_name name) (host.link name)

  -- netns.Do
  abbrev pub do_in : {A : Type 0} → String → C A → C A
  do_in netns body = perform (enter_ns netns) >> deferred (note leave_ns) body

  unfoldable pub bridge_by_name : String → C Interface
  bridge_by_name name = annotated "could not lookup" (find_link name)
