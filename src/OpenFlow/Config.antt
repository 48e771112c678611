-- ===== src/OpenFlow/Config.antt =====
-- The tables of the bridge and the fields of `controller` that do not change:
-- controllers/openflow/flows.go and controllers/openflow/controller.go.
use k_vswitch.Prelude.{String, ℤ, pos}

abbrev pub table_entry : ℤ
table_entry = pos 0

abbrev pub table_network_policies : ℤ
table_network_policies = pos 10

abbrev pub table_classification : ℤ
table_classification = pos 20

abbrev pub table_l3_forwarding : ℤ
table_l3_forwarding = pos 30

abbrev pub table_l2_rewrites : ℤ
table_l2_rewrites = pos 60

abbrev pub table_local_arp : ℤ
table_local_arp = pos 100

-- all pods have a fixed mac addr
abbrev pub pod_mac_addr : String
pod_mac_addr = "aa:bb:cc:dd:ee:ff"

pub record Config : Type 0 where
  pub node_name : String
  pub bridge_name : String
  pub gateway_ip : String
  pub bridge_mac : String
  pub cluster_wide_mac : String
  pub pod_cidr : String
  pub cluster_cidr : String
  pub cluster_wide_ofport : ℤ
  pub overlay_ofport : ℤ
