-- ===== src/OpenFlow/Bridge/Flows.antt =====
-- The flows of `defaultFlows` and `flowsForVSwitch` of controllers/openflow/flows.go as lists.
use k_vswitch.Prelude.{ℤ, pos, refl, String, List, [], ◌∷◌, str_eq, if◌then◌else◌}
use k_vswitch.Flows.{
  Flow, new_flow, ◌▸◌, with_table, with_priority, with_protocol, with_ip_dest, with_ip_src,
  with_action_resubmit, with_action_local, with_action_mod_dl_dest, with_action_tunnel_dest,
  with_action_output_port,
}
use k_vswitch.Flows.Buffer.Emits.{Emits, Emits-if}
use k_vswitch.OpenFlow.Config.{
  table_entry, table_network_policies, table_classification, table_l3_forwarding, table_l2_rewrites,
  table_local_arp, pod_mac_addr, Config,
}
use k_vswitch.OpenFlow.Bridge.{
  arp_responder, arp_block_responder, default_flows, flows_for_current_node, flows_for_remote_node,
  flows_for_vswitch,
}
use k_vswitch.VSwitchCfg.{VSwitchConfig}

-- a flow of a table at a priority
abbrev pub at_priority : ℤ → ℤ → Flow
at_priority table priority = new_flow ▸ with_table table ▸ with_priority priority

-- such a flow for the IP packets to a block
abbrev pub to_block : ℤ → ℤ → String → Flow
to_block table priority block = at_priority table priority ▸ with_protocol "ip" ▸ with_ip_dest block

module _ (c : Config) where
  abbrev pub default_list : List Flow
  default_list =
      (at_priority table_entry (pos 1000) ▸ with_action_resubmit table_network_policies)
      ∷ (at_priority table_network_policies (pos 0) ▸ with_action_resubmit table_classification)
      ∷ (at_priority table_classification (pos 0) ▸ with_action_local)
      ∷ (to_block table_classification (pos 500) c.gateway_ip ▸ with_action_local)
      ∷ (to_block table_classification (pos 300) c.pod_cidr
          ▸ with_action_resubmit table_l2_rewrites)
      ∷ (to_block table_classification (pos 100) c.cluster_cidr
          ▸ with_action_resubmit table_l3_forwarding)
      ∷ (at_priority table_classification (pos 100)
          ▸ with_protocol "arp"
          ▸ with_action_resubmit table_local_arp)
      ∷ arp_responder c.gateway_ip c.bridge_mac
      ∷ arp_block_responder c.cluster_cidr pod_mac_addr
      ∷ []

  pub default_flows-Emits : Emits (default_flows c) default_list
  unfolding default_flows
  default_flows-Emits = record { at = λ b. refl }

  abbrev pub current_node_list : VSwitchConfig → List Flow
  current_node_list v =
      (to_block table_l3_forwarding (pos 100) v.spec.pod_cidr
        ▸ with_action_resubmit table_l2_rewrites)
      ∷ (to_block table_classification (pos 100) v.spec.overlay_ip
          ▸ with_ip_src v.spec.pod_cidr
          ▸ with_action_mod_dl_dest c.bridge_mac
          ▸ with_action_local)
      ∷ (to_block table_classification (pos 50) v.spec.overlay_ip
          ▸ with_action_mod_dl_dest c.cluster_wide_mac
          ▸ with_action_output_port c.cluster_wide_ofport)
      ∷ []

  abbrev pub remote_node_list : VSwitchConfig → List Flow
  remote_node_list v =
      (to_block table_l3_forwarding (pos 150) v.spec.pod_cidr
        ▸ with_action_tunnel_dest v.spec.overlay_ip
        ▸ with_action_output_port c.overlay_ofport)
      ∷ (to_block table_classification (pos 50) v.spec.overlay_ip
          ▸ with_action_resubmit table_l3_forwarding)
      ∷ (to_block table_l3_forwarding (pos 100) v.spec.overlay_ip
          ▸ with_action_tunnel_dest v.spec.overlay_ip
          ▸ with_action_output_port c.overlay_ofport)
      ∷ []

  abbrev pub vswitch_list : VSwitchConfig → List Flow
  vswitch_list v = if str_eq v.name c.node_name then current_node_list v else remote_node_list v

  pub flows_for_vswitch-Emits : (v : VSwitchConfig) → Emits (flows_for_vswitch c v) (vswitch_list v)
  unfolding flows_for_vswitch flows_for_current_node flows_for_remote_node
  flows_for_vswitch-Emits v =
      Emits-if (str_eq v.name c.node_name) (record { at = λ b. refl }) (record { at = λ b. refl })
