-- ===== src/Cni/Tests.antt =====
-- Arguments of the kubelet, and whole commands of the plugin.
use k_vswitch.Prelude.{
  ◌+◌, ◌≡◌, refl, String, Bool, true, false, none, some, List, [], ◌∷◌, if◌then◌else◌,
}
use k_vswitch.Result.{Error, msg, ok, err}
use k_vswitch.Trace.{Trace, is_ok}
use k_vswitch.Cni.{get_pod_info, normalized_net_ns, find_port_in}
use mathlib.Core.List.{Memᴰ}
use k_vswitch.Text.{join, contains, has_prefix}
use k_vswitch.Text.Laws.{Lacks-of_test}
use k_vswitch.Cni.PodInfo.{says_namespace, says_name, says_other, get_pod_info_lem}
use k_vswitch.Cni.Network.{
  family_v4, Ip, v4, v6, malformed, Net, IpConfig, NetConf, new_gw_info, calc_gateways,
}
use k_vswitch.Cni.Network.Gateways.{has_default, calc_gateways-has_default}
use k_vswitch.Cni.Host.{CmdArgs, Interface, Call, configure_iface, ipam_del, Host}
use k_vswitch.Cni.BridgeAddr.{ensure_bridge_addr}
use k_vswitch.Cni.BridgeAddr.Addresses.{has, bridge_addrs}
use k_vswitch.Cni.BridgeAddr.Laws.{ensure_bridge_addr-keeps, ensure_bridge_addr-has}
use k_vswitch.Cni.Add.{load_net_conf, cmd_add}
use k_vswitch.Cni.Del.{cmd_del}
use k_vswitch.Cni.Leases.{Settled, cmd_add-Settled}
use k_vswitch.Cni.Quiet.{held}
use k_vswitch.Cni.Releases.{given_up, returned, unplugged, retry, cmd_del-gives_up, cmd_del_again}

-- what the kubelet sets
abbrev kubelet_args : List String
kubelet_args = "K8S_POD_NAMESPACE=shop" ∷ "K8S_POD_NAME=db" ∷ "K8S_POD_INFRA_CONTAINER_ID=4f0c" ∷ []

get_pod_info_lem_example :
    get_pod_info (join ";" ("IgnoreUnknown=1" ∷ kubelet_args)) ≡ ok ("shop", "db")
unfolding contains has_prefix
get_pod_info_lem_example =
    get_pod_info_lem "shop" "db" (refl, (refl, tt)) "IgnoreUnknown=1" kubelet_args
      (
        Lacks-of_test ";" "IgnoreUnknown=1" refl,
        (
          Lacks-of_test ";" "K8S_POD_NAMESPACE=shop" refl,
          (
            Lacks-of_test ";" "K8S_POD_NAME=db" refl,
            (Lacks-of_test ";" "K8S_POD_INFRA_CONTAINER_ID=4f0c" refl, tt),
          ),
        ),
      )
      (says_other refl refl, (says_namespace refl, (says_name refl, (says_other refl refl, tt))))
      (Memᴰ.tail (Memᴰ.head refl)) (Memᴰ.tail (Memᴰ.tail (Memᴰ.head refl)))

net_ns_test : normalized_net_ns "/var/run/netns/cni-1" ≡ "varrunnetnscni-1"
unfolding normalized_net_ns
net_ns_test = refl

-- the configuration that the daemon writes
abbrev shop_conf : NetConf
shop_conf = record {
  name = "k-vswitch-cni";
  cni_version = "0.3.1";
  ipam_type = "host-local";
  bridge_name = "k-vswitch0";
  is_gw = true;
  is_default_gw = true;
  ip_masq = false;
  hairpin_mode = false;
  promisc_mode = false;
  dns = "";
}

abbrev next : Ip → Ip
next (v4 n) = v4 (n + 1)
next (v6 n) = v6 (n + 1)
next malformed = malformed

abbrev pod_ip : IpConfig
pod_ip = record { version = "4"; address = record { ip = v4 167839493; ones = 24 }; gateway = none }

abbrev gateway_net : Net
gateway_net = record { ip = v4 167839489; ones = 24 }

abbrev pod_args : CmdArgs
pod_args = record { container_id = "c1"; netns = "/ns/1"; if_name = "eth0"; stdin = "{}" }

-- A host on which every call of a list succeeds but those that `fails` names, with the rows that
-- ovs-vsctl finds.
abbrev host_of : (fails : Call → Bool) → List (List String) → Host
host_of fails rows = record {
  unmarshal = λ bytes conf. ok shop_conf;
  cni_args = "K8S_POD_NAMESPACE=shop;K8S_POD_NAME=db";
  next_ip = next;
  network = λ n. n;
  format_chain_name = λ name id. id;
  format_comment = λ name id. name;
  ovs = λ t. record { vsctl = λ args. ok ""; decode = λ out. ok rows };
  link = λ name t. ok (record { name = name; mac = "62:00:00:00:00:01"; sandbox = "" });
  veth = λ name t. ok (
    record { name = "veth1"; mac = "62:00:00:00:00:02"; sandbox = "" },
    record { name = name; mac = "62:00:00:00:00:03"; sandbox = "" },
  );
  ipam_result = λ t. ok "{}";
  new_result = λ r. ok (pod_ip ∷ [], []);
  file = λ path t. ok "1\n";
  addrs = λ name family t. ok (record { ip = v4 167839490; ones = 24 } ∷ []);
  del_link = λ name t. ok [];
  perform = λ c t. if fails c then err (msg "failed") else ok tt;
}

abbrev never : Call → Bool
never c = false

-- the configuration of the container's addresses
abbrev is_configure : Call → Bool
is_configure (configure_iface name ips routes) = true
is_configure _ = false

-- the addresses are not configured, and the one that was given is given back
cmd_add-Settled_example : Settled shop_conf (cmd_add (host_of is_configure []) pod_args [])
unfolding load_net_conf
cmd_add-Settled_example = cmd_add-Settled (host_of is_configure []) shop_conf pod_args refl

cmd_add_test :
    (is_ok (cmd_add (host_of never []) pod_args []).0 ≡ true)
    × (held (cmd_add (host_of never []) pod_args []).1 ≡ true)
    × (is_ok (cmd_add (host_of is_configure []) pod_args []).0 ≡ false)
    × (held (cmd_add (host_of is_configure []) pod_args []).1 ≡ false)
unfolding cmd_add held
cmd_add_test = (refl, refl, refl, refl)

cmd_del-gives_up_example :
    given_up (cmd_del (host_of never (("veth1" ∷ []) ∷ [])) pod_args []).1 ≡ (true, true)
unfolding load_net_conf cmd_del
cmd_del-gives_up_example =
    cmd_del-gives_up (host_of never (("veth1" ∷ []) ∷ [])) shop_conf pod_args refl refl

-- The IPAM plugin fails, and ovs-vsctl finds the port until it is deleted: a deletion leaves the
-- address given, and three more do not help.
abbrev is_ipam_del : Call → Bool
is_ipam_del (ipam_del type stdin) = true
is_ipam_del _ = false

abbrev forgetful : Host
forgetful = record (host_of is_ipam_del []) {
  ovs = λ t. record {
    vsctl = λ args. ok "";
    decode = λ out. ok (if unplugged t then [] else (("veth1" ∷ []) ∷ []));
  };
}

forgetful-gone :
    (t : Trace Call)
    → unplugged t ≡ true
    → (e : Error) × (find_port_in (forgetful.ovs t) "/ns/1" "shop" "db" ≡ err e)
unfolding find_port_in
forgetful-gone t h = (msg "OVS port was not found", rw h refl)

cmd_del_again_example :
    (is_ok
        (cmd_del forgetful pod_args
          (retry forgetful shop_conf pod_args 3 (cmd_del forgetful pod_args []).1)).0
      ≡ false)
    × (given_up (retry forgetful shop_conf pod_args 3 (cmd_del forgetful pod_args []).1)
        ≡ (returned (cmd_del forgetful pod_args []).1, true))
unfolding load_net_conf get_pod_info cmd_del unplugged
cmd_del_again_example =
    cmd_del_again forgetful shop_conf pod_args ("shop", "db") [] refl refl refl forgetful-gone refl
      3

-- the address is still given
still_given_test : returned (cmd_del forgetful pod_args []).1 ≡ false
unfolding cmd_del returned unplugged
still_given_test = refl

abbrev bridge : Interface
bridge = record { name = "k-vswitch0"; mac = "62:00:00:00:00:01"; sandbox = "" }

abbrev other_net : Net
other_net = record { ip = v4 167839490; ones = 24 }

-- another address of the bridge makes way for the gateway's
ensure_bridge_addr-has_example :
    has gateway_net (
      bridge_addrs
        (other_net ∷ [])
        (ensure_bridge_addr (host_of never []) bridge family_v4 gateway_net true []).1)
    ≡ true
unfolding ensure_bridge_addr bridge_addrs
ensure_bridge_addr-has_example =
    ensure_bridge_addr-has (host_of never []) bridge family_v4 gateway_net (other_net ∷ []) true []
      refl refl

-- it stays where the code was not told to delete
ensure_bridge_addr-keeps_example :
    has other_net (
      bridge_addrs
        (other_net ∷ [])
        (ensure_bridge_addr (host_of never []) bridge family_v4 gateway_net false []).1)
    ≡ true
unfolding bridge_addrs
ensure_bridge_addr-keeps_example =
    ensure_bridge_addr-keeps (host_of never []) bridge family_v4 gateway_net (other_net ∷ []) false
      [] other_net refl refl

calc_gateways-has_default_example :
    has_default family_v4 (record { dst = "0.0.0.0/0"; gw = some (v4 167839489) } ∷ []) ≡ true
unfolding calc_gateways
calc_gateways-has_default_example =
    calc_gateways-has_default next shop_conf family_v4 (pod_ip ∷ []) []
      (record {
        gws_v4 = record {
          gws = gateway_net ∷ [];
          family = some family_v4;
          default_route_found = true;
        };
        gws_v6 = new_gw_info;
        ips = record pod_ip { gateway = some (v4 167839489) } ∷ [];
        routes = record { dst = "0.0.0.0/0"; gw = some (v4 167839489) } ∷ [];
      })
      refl refl refl
