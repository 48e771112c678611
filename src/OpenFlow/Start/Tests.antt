-- ===== src/OpenFlow/Start/Tests.antt =====
-- The gateway of a node.
use k_vswitch.Prelude.{◌+◌, ◌≡◌, refl, true, [], pos, arith}
use k_vswitch.Net.{IpNet, parse_cidr, ip_string}
use k_vswitch.Result.{ok}
use k_vswitch.OpenFlow.Config.{Config}
use k_vswitch.OpenFlow.Ovs.{Ovs, of_port_from_name}
use k_vswitch.OpenFlow.Start.{new_config}
use k_vswitch.OpenFlow.Start.Gateway.{new_config-gateway}
use k_vswitch.OpenFlow.Controller.{is_local_ip}
use k_vswitch.Daemon.Outside.{netlink_addr_for_local}

-- every port of the bridge has the number 5
abbrev ports : Ovs
ports = record { vsctl = λ args. ok "5\n"; decode = λ out. ok [] }

abbrev node_config : Config
node_config = record {
  node_name = "node1";
  bridge_name = "k-vswitch0";
  gateway_ip = "10.1.7.1";
  bridge_mac = "62:00:00:00:00:01";
  cluster_wide_mac = "62:00:00:00:00:02";
  pod_cidr = "10.1.7.0/24";
  cluster_cidr = "10.1.0.0/16";
  cluster_wide_ofport = pos 5;
  overlay_ofport = pos 5;
}

abbrev node_net : IpNet
node_net = record { ip = 167839488; ones = 24 }

new_config-gateway_example :
    ("10.1.7.1" ≡ ip_string (167839488 + 1))
    × (netlink_addr_for_local (λ n. n + 1) "10.1.7.0/24"
        ≡ ok (record { ip = 167839488 + 1; ones = 24 }))
    × (is_local_ip node_config "10.1.7.1" ≡ ok true)
unfolding new_config parse_cidr of_port_from_name ip_string
new_config-gateway_example =
    new_config-gateway (λ n. n + 1) ports "k-vswitch0" "62:00:00:00:00:01" "62:00:00:00:00:02"
      "node1" "10.1.7.0/24" "10.1.0.0/16" node_net refl node_config (λ n high low. refl) refl
      (omega arith) (omega arith)
