-- ===== src/OpenFlow/Bridge.antt =====
-- `defaultFlows` and `flowsForVSwitch` of controllers/openflow/flows.go.
pub mod Flows
use k_vswitch.Prelude.{String, pos, str_eq, if◌then◌else◌}
use k_vswitch.Text.{◌++◌}
use k_vswitch.Text.Decimal.{format}
use k_vswitch.Exec.{Exec, ◌>>=◌, ◌>>◌}
use k_vswitch.Flows.{
  Flow, new_flow, ◌▸◌, with_table, with_priority, with_protocol, with_ip_dest, with_ip_src,
  with_raw, with_action_resubmit, with_action_local, with_action_mod_dl_dest,
  with_action_tunnel_dest, with_action_output_port,
}
use k_vswitch.Flows.Buffer.{FlowsBuffer, add_flow}
use k_vswitch.OpenFlow.Config.{
  table_entry, table_network_policies, table_classification, table_l3_forwarding, table_l2_rewrites,
  table_local_arp, pod_mac_addr, Config,
}
use k_vswitch.VSwitchCfg.{VSwitchConfig}

-- the flow that answers ARP requests for one address
abbrev pub arp_responder : (ip mac : String) → Flow
arp_responder ip mac =
    new_flow
    ▸ with_raw (
        "table="
        ++ format table_local_arp
        ++ " priority=500 dl_type=0x0806 arp_tpa="
        ++ ip
        ++ " actions=move:NXM_OF_ETH_SRC[]->NXM_OF_ETH_DST[],mod_dl_src:"
        ++ mac
        ++ ",load:0x2->NXM_OF_ARP_OP[],move:NXM_NX_ARP_SHA[]->NXM_NX_ARP_THA[],move:NXM_OF_ARP_SPA[]->NXM_OF_ARP_TPA[],set_field:"
        ++ mac
        ++ "->arp_sha,set_field:"
        ++ ip
        ++ "->arp_spa,in_port")

-- the flow that answers ARP requests for the addresses of a block
abbrev pub arp_block_responder : (cidr mac : String) → Flow
arp_block_responder cidr mac =
    new_flow
    ▸ with_raw (
        "table="
        ++ format table_local_arp
        ++ " priority=400 dl_type=0x0806 arp_tpa="
        ++ cidr
        ++ " actions=move:NXM_OF_ETH_SRC[]->NXM_OF_ETH_DST[],mod_dl_src:"
        ++ mac
        ++ ",load:0x2->NXM_OF_ARP_OP[],set_field:"
        ++ mac
        ++ "->arp_sha,move:NXM_OF_ARP_TPA[]->NXM_OF_ARP_SPA[],move:NXM_NX_ARP_SHA[]->NXM_NX_ARP_THA[],move:NXM_OF_ARP_SPA[]->NXM_OF_ARP_TPA[],in_port")

module _ (c : Config) where
  unfoldable pub default_flows : Exec FlowsBuffer (Unit {0})
  default_flows = do
    add_flow (
        new_flow
        ▸ with_table table_entry
        ▸ with_priority (pos 1000)
        ▸ with_action_resubmit table_network_policies)
    add_flow (
        new_flow
        ▸ with_table table_network_policies
        ▸ with_priority (pos 0)
        ▸ with_action_resubmit table_classification)
    add_flow
        (new_flow ▸ with_table table_classification ▸ with_priority (pos 0) ▸ with_action_local)
    add_flow (
        new_flow
        ▸ with_table table_classification
        ▸ with_priority (pos 500)
        ▸ with_protocol "ip"
        ▸ with_ip_dest c.gateway_ip
        ▸ with_action_local)
    add_flow (
        new_flow
        ▸ with_table table_classification
        ▸ with_priority (pos 300)
        ▸ with_protocol "ip"
        ▸ with_ip_dest c.pod_cidr
        ▸ with_action_resubmit table_l2_rewrites)
    add_flow (
        new_flow
        ▸ with_table table_classification
        ▸ with_priority (pos 100)
        ▸ with_protocol "ip"
        ▸ with_ip_dest c.cluster_cidr
        ▸ with_action_resubmit table_l3_forwarding)
    add_flow (
        new_flow
        ▸ with_table table_classification
        ▸ with_priority (pos 100)
        ▸ with_protocol "arp"
        ▸ with_action_resubmit table_local_arp)
    add_flow (arp_responder c.gateway_ip c.bridge_mac)
    add_flow (arp_block_responder c.cluster_cidr pod_mac_addr)

  -- the flows of table 20 and 30 for the node itself
  flows_for_current_node : VSwitchConfig → Exec FlowsBuffer (Unit {0})
  flows_for_current_node vswitch = do
    let pod_cidr = vswitch.spec.pod_cidr
    let node_ip = vswitch.spec.overlay_ip
    add_flow (
        new_flow
        ▸ with_table table_l3_forwarding
        ▸ with_priority (pos 100)
        ▸ with_protocol "ip"
        ▸ with_ip_dest pod_cidr
        ▸ with_action_resubmit table_l2_rewrites)
    add_flow (
        new_flow
        ▸ with_table table_classification
        ▸ with_priority (pos 100)
        ▸ with_protocol "ip"
        ▸ with_ip_dest node_ip
        ▸ with_ip_src pod_cidr
        ▸ with_action_mod_dl_dest c.bridge_mac
        ▸ with_action_local)
    add_flow (
        new_flow
        ▸ with_table table_classification
        ▸ with_priority (pos 50)
        ▸ with_protocol "ip"
        ▸ with_ip_dest node_ip
        ▸ with_action_mod_dl_dest c.cluster_wide_mac
        ▸ with_action_output_port c.cluster_wide_ofport)

  -- the flows of table 20 and 30 for another node
  flows_for_remote_node : VSwitchConfig → Exec FlowsBuffer (Unit {0})
  flows_for_remote_node vswitch = do
    let pod_cidr = vswitch.spec.pod_cidr
    let node_ip = vswitch.spec.overlay_ip
    add_flow (
        new_flow
        ▸ with_table table_l3_forwarding
        ▸ with_priority (pos 150)
        ▸ with_protocol "ip"
        ▸ with_ip_dest pod_cidr
        ▸ with_action_tunnel_dest vswitch.spec.overlay_ip
        ▸ with_action_output_port c.overlay_ofport)
    add_flow (
        new_flow
        ▸ with_table table_classification
        ▸ with_priority (pos 50)
        ▸ with_protocol "ip"
        ▸ with_ip_dest node_ip
        ▸ with_action_resubmit table_l3_forwarding)
    add_flow (
        new_flow
        ▸ with_table table_l3_forwarding
        ▸ with_priority (pos 100)
        ▸ with_protocol "ip"
        ▸ with_ip_dest node_ip
        ▸ with_action_tunnel_dest node_ip
        ▸ with_action_output_port c.overlay_ofport)

  -- The two tests of `isCurrentNode` are one: the flows keep their order.
  unfoldable pub flows_for_vswitch : VSwitchConfig → Exec FlowsBuffer (Unit {0})
  unfolding flows_for_current_node flows_for_remote_node
  flows_for_vswitch vswitch =
      if str_eq vswitch.name c.node_name
      then flows_for_current_node vswitch
      else flows_for_remote_node vswitch
