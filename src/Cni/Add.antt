-- ===== src/Cni/Add.antt =====
-- `cmdAdd` of cmd/k-vswitch-cni/plugin.go and what it calls: a pod's interface, its port on the
-- bridge, and its addresses.
use k_vswitch.Prelude.{
  String, Bool, true, false, ◌&&◌, ◌||◌, none, some, List, [], ◌∷◌, any, str_eq, if◌then◌else◌,
}
use k_vswitch.Text.{◌++◌, non_empty}
use k_vswitch.Result.{msg, Result, ok, err, panic, context}
use k_vswitch.Exec.{◌>>=◌, ◌>>◌, pure, lift, skip, annotated, deferred, unless_ok, for_each}
use k_vswitch.Trace.{call, attempt}
use k_vswitch.Cni.{get_pod_info, add_port}
use k_vswitch.Cni.Network.{
  family_v4, family_v6, Net, IpConfig, Route, GwInfo, NetConf, calc_gateways,
}
use k_vswitch.Cni.Host.{
  CmdArgs, Interface, CniResult, get_ns, close_ns, create_veth, interface_by_name,
  link_set_hardware_addr, link_set_up, add_ovs_port, ipam_add, ipam_del, set_cni_command, read_file,
  write_file, configure_iface, gratuitous_arp, enable_ip4_forward, enable_ip6_forward,
  setup_ip_masq, print_result, Host, C, perform, note, find_link, do_in, bridge_by_name,
}
use k_vswitch.Cni.BridgeAddr.{ensure_bridge_addr}

abbrev pub default_bridge_name : String
default_bridge_name = "k-vswitch0"

abbrev pub pod_mac_addr : String
pod_mac_addr = "aa:bb:cc:dd:ee:ff"

-- what json.Unmarshal starts from
abbrev pub default_conf : NetConf
default_conf = record {
  name = "";
  cni_version = "";
  ipam_type = "";
  bridge_name = default_bridge_name;
  is_gw = false;
  is_default_gw = false;
  ip_masq = false;
  hairpin_mode = false;
  promisc_mode = false;
  dns = "";
}

-- string(enh) == "1\n", of a file that was read
abbrev pub is_enhanced : Result String → Bool
is_enhanced (ok enh) = str_eq enh "1\n"
is_enhanced (err e) = false
is_enhanced panic = false

-- the family of the gateways; its zero value is not that of IPv4
abbrev pub enables_v4 : GwInfo → Bool
enables_v4 gws = elim gws.family [
  | none ↦ false
  | some f ↦ (elim f [ family_v4 ↦ true | family_v6 ↦ false ])
]

abbrev pub dad_file : (if_name setting : String) → String
dad_file if_name setting = "/proc/sys/net/ipv6/conf/" ++ if_name ++ "/" ++ setting

-- gws.gws != nil
abbrev pub non_nil : List Net → Bool
non_nil [] = false
non_nil (gw ∷ gws) = true

abbrev pub empty_result : NetConf → CniResult
empty_result conf = record {
  cni_version = conf.cni_version;
  interfaces = [];
  ips = [];
  routes = [];
  dns = "";
}

module _ (host : Host) where
  unfoldable pub load_net_conf : String → Result NetConf
  load_net_conf bytes = context "failed to load netconf" (host.unmarshal bytes default_conf)

  unfoldable pub get_bridge_interface : C Interface
  unfolding bridge_by_name
  get_bridge_interface = do
    br ← annotated "failed to fetch bridge" (bridge_by_name host default_bridge_name)
    pure (record { name = br.name; mac = br.mac; sandbox = "" })

  -- the interface of the host and that of the container
  unfoldable pub setup_veth : (netns if_name : String) → C (Interface × Interface)
  setup_veth netns if_name = do
    pair ← do_in host netns (call (create_veth if_name 1500) (host.veth if_name))
    host_veth ← annotated "failed to lookup" (find_link host pair.0.name)
    pure (
      record { name = pair.0.name; mac = host_veth.mac; sandbox = "" },
      record { name = pair.1.name; mac = pair.1.mac; sandbox = netns },
    )

  unfoldable pub disable_ipv6_dad : String → C (Unit {0})
  disable_ipv6_dad if_name = do
    enh ←
        attempt (read_file (dad_file if_name "enhanced_dad"))
          (host.file (dad_file if_name "enhanced_dad"))
    if is_enhanced enh then skip else perform host (write_file (dad_file if_name "accept_dad") "0")

  unfoldable pub enable_ip_forward : GwInfo → C (Unit {0})
  enable_ip_forward gws =
      if enables_v4 gws then perform host enable_ip4_forward else perform host enable_ip6_forward

  -- the override of the container's hardware address
  unfoldable pub override_mac : CmdArgs → C (Unit {0})
  override_mac args = annotated "failed to override pod MAC address" (
      do_in host args.netns (do
        link ← find_link host args.if_name
        perform host (link_set_hardware_addr link.name pod_mac_addr)))

  -- the port of the bridge, with the pod that CNI_ARGS names
  unfoldable pub plug :
      NetConf → CmdArgs → (host_interface container_interface : Interface) → C (Unit {0})
  unfolding get_pod_info add_port
  plug conf args host_interface container_interface = do
    pod ← lift (get_pod_info host.cni_args)
    call (add_ovs_port conf.bridge_name host_interface.name) (λ t.
        add_port (host.ovs t) conf.bridge_name host_interface.name container_interface.mac
          args.netns pod.0 pod.1)
    host_link ← find_link host host_interface.name
    perform host (link_set_up host_link.name)

  -- the configuration of the container's interface
  unfoldable pub configure_container : NetConf → CmdArgs → List IpConfig → List Route → C (Unit {0})
  unfolding disable_ipv6_dad for_each
  configure_container conf args ips routes = annotated "failed to configure container addresses" (
      do_in host args.netns (do
        perform host (interface_by_name args.if_name)
        (if any (λ ipc. str_eq ipc.version "6" && (conf.hairpin_mode || conf.promisc_mode)) ips
            then disable_ipv6_dad args.if_name
            else skip)
        perform host (configure_iface args.if_name ips routes)
        for_each ips (λ ipc.
            if str_eq ipc.version "4" then note host (gratuitous_arp ipc.address.ip) else skip)))

  -- the addresses of one family on the bridge, whose gateways have a family where there is one
  unfoldable pub set_gateways : NetConf → GwInfo → C (Unit {0})
  unfolding bridge_by_name ensure_bridge_addr enable_ip_forward for_each
  set_gateways conf gws = do
    for_each gws.gws (λ gw. do
      br ← annotated "failed to get bridge link" (bridge_by_name host conf.bridge_name)
      annotated "failed to set bridge addr"
          (ensure_bridge_addr host br (if enables_v4 gws then family_v4 else family_v6) gw true))
    if non_nil gws.gws
        then annotated "failed to enable forwarding" (enable_ip_forward gws)
        else skip

  unfoldable pub masquerade : NetConf → CmdArgs → List IpConfig → C (Unit {0})
  unfolding for_each
  masquerade conf args ips =
      if conf.ip_masq
      then for_each ips (λ ipc. perform host (
          setup_ip_masq (host.network ipc.address)
            (host.format_chain_name conf.name args.container_id)
            (host.format_comment conf.name args.container_id)))
      else skip

  -- what follows the call of the IPAM plugin and needs its result
  unfoldable pub configure : NetConf → CmdArgs → (r : String) → CniResult → C CniResult
  unfolding calc_gateways configure_container set_gateways masquerade
  configure conf args r result = do
    ipam_result ← lift (host.new_result r)
    calc ← lift (elim ipam_result.0 [
      | [] ↦ err (msg "IPAM plugin returned missing IP config")
      | ipc ∷ ips ↦ calc_gateways host.next_ip conf ipam_result.0 ipam_result.1
    ])
    configure_container conf args calc.ips calc.routes
    (if conf.is_gw then set_gateways conf calc.gws_v4 >> set_gateways conf calc.gws_v6 else skip)
    masquerade conf args calc.ips
    pure (record result { ips = calc.ips; routes = calc.routes })

  -- the bridge, fetched again, and the DNS settings
  unfoldable pub finish : NetConf → Interface → List Interface → CniResult → C CniResult
  unfolding bridge_by_name
  finish conf bridge interfaces result = do
    br ← bridge_by_name host conf.bridge_name
    pure
        (record result { interfaces = record bridge { mac = br.mac } ∷ interfaces; dns = conf.dns })

  -- release IP in case of failure
  unfoldable pub release : NetConf → CmdArgs → C (Unit {0})
  release conf args = do
    note host (set_cni_command "DEL")
    note host (ipam_del conf.ipam_type args.stdin)
    note host (set_cni_command "ADD")

  -- the part of `cmdAdd` from the call of the IPAM plugin to the result
  unfoldable pub with_ipam : NetConf → CmdArgs → Interface → List Interface → C CniResult
  unfolding configure finish release
  with_ipam conf args bridge interfaces = do
    r ← call (ipam_add conf.ipam_type args.stdin) host.ipam_result
    λ t.
        unless_ok (release conf args)
          ((configure conf args r (empty_result conf) >>= finish conf bridge interfaces) t)

  unfoldable pub assign : NetConf → CmdArgs → Interface → List Interface → C CniResult
  unfolding with_ipam finish
  assign conf args bridge interfaces =
      if non_empty conf.ipam_type
      then with_ipam conf args bridge interfaces
      else finish conf bridge interfaces (empty_result conf)

  unfoldable pub cmd_add : CmdArgs → C (Unit {0})
  unfolding load_net_conf get_bridge_interface setup_veth override_mac plug assign
  cmd_add args = do
    conf ← lift (load_net_conf args.stdin)
    bridge ← annotated "failed to setup bridge" (get_bridge_interface)
    annotated "failed to open netns" (perform host (get_ns args.netns))
    deferred (note host close_ns) (do
      veths ← setup_veth args.netns args.if_name
      override_mac args
      plug conf args veths.0 veths.1
      result ← assign conf args bridge (veths.0 ∷ veths.1 ∷ [])
      perform host (print_result result))
