-- ===== src/OpenFlow/Start.antt =====
-- `NewController` of controllers/openflow/controller.go: what it computes before it fills the
-- record. ip.NextIP is a parameter.
pub mod Gateway
mod Tests
use k_vswitch.Prelude.{ℕ, String}
use k_vswitch.Net.{parse_cidr, ip_string}
use k_vswitch.Result.{Result, ok, ◌>>=◌}
use k_vswitch.OpenFlow.Config.{Config}
use k_vswitch.OpenFlow.Ovs.{Ovs, of_port_from_name}

abbrev cluster_wide_port : String
cluster_wide_port = "cluster-wide"

abbrev overlay_port : String
overlay_port = "overlay0"

-- The network's own address is masked already, so that masking it once more changes nothing.
unfoldable pub new_config :
    (next_ip : ℕ → ℕ) (ovs : Ovs)
    (bridge_name bridge_mac cluster_wide_mac node_name pod_cidr cluster_cidr : String)
    → Result Config
unfolding parse_cidr ip_string of_port_from_name
new_config next_ip ovs bridge_name bridge_mac cluster_wide_mac node_name pod_cidr cluster_cidr = do
  pod_ip_net ← parse_cidr pod_cidr
  cluster_wide_ofport ← of_port_from_name ovs cluster_wide_port
  overlay_ofport ← of_port_from_name ovs overlay_port
  ok (record {
    node_name = node_name;
    bridge_name = bridge_name;
    gateway_ip = ip_string (next_ip pod_ip_net.ip);
    bridge_mac = bridge_mac;
    cluster_wide_mac = cluster_wide_mac;
    pod_cidr = pod_cidr;
    cluster_cidr = cluster_cidr;
    cluster_wide_ofport = cluster_wide_ofport;
    overlay_ofport = overlay_ofport;
  })
