-- ===== src/OpenFlow/Legible/Nodes.antt =====
-- The flows of `defaultFlows` and `flowsForVSwitch` of controllers/openflow/flows.go can be read back.
use k_vswitch.Prelude.{refl, Bool, true, false, ℤ, pos, All, arith, str_eq, if◌then◌else◌}
use k_vswitch.Text.Decimal.RoundTrip.{FitsInt}
use k_vswitch.Flows.{
  Flow, ◌▸◌, with_action_resubmit, with_action_local, with_action_tunnel_dest,
  with_action_output_port,
}
use k_vswitch.Flows.Reader.Matches.{IsPlain}
use k_vswitch.Flows.Reader.Plain.{
  IsPlain-head, IsPlain-with_protocol, IsPlain-with_ip_src, IsPlain-with_action_mod_dl_dest,
  IsPlain-with_action_tunnel_dest, IsPlain-with_action_output_port, IsPlain-with_action_resubmit,
  IsPlain-with_action_local,
}
use k_vswitch.Flows.Reader.Lines.{IsLegible, plain}
use k_vswitch.VSwitchCfg.{VSwitchConfig}
use k_vswitch.OpenFlow.Config.{Config, pod_mac_addr}
use k_vswitch.OpenFlow.Bridge.Flows.{
  default_list, current_node_list, remote_node_list, vswitch_list,
}
use k_vswitch.OpenFlow.Legible.{
  IsPlainConfig, IsPlainNode, arp-IsLegible, to_block-IsPlain, arp_block-IsLegible,
}

resubmit-IsLegible :
    (f : Flow) (table : ℤ) → IsPlain f → FitsInt table → IsLegible (f ▸ with_action_resubmit table)
resubmit-IsLegible f table h k = plain (IsPlain-with_action_resubmit f h table k)

local-IsLegible : (f : Flow) → IsPlain f → IsLegible (f ▸ with_action_local)
local-IsLegible f h = plain (IsPlain-with_action_local f h)

module _ (c : Config) (h : IsPlainConfig c) where
  pub default-IsLegible : All IsLegible (default_list c)
  default-IsLegible = (
    resubmit-IsLegible _ (pos 10) (IsPlain-head (pos 0) (pos 1000) (omega arith) (omega arith))
        (omega arith),
    (
      resubmit-IsLegible _ (pos 20) (IsPlain-head (pos 10) (pos 0) (omega arith) (omega arith))
          (omega arith),
      (
        local-IsLegible _ (IsPlain-head (pos 20) (pos 0) (omega arith) (omega arith)),
        (
          local-IsLegible _ (
              to_block-IsPlain (pos 20) (pos 500) c.gateway_ip (omega arith) (omega arith)
                h.gateway_ip),
          (
            resubmit-IsLegible _ (pos 60)
                (to_block-IsPlain (pos 20) (pos 300) c.pod_cidr (omega arith) (omega arith)
                  h.pod_cidr)
                (omega arith),
            (
              resubmit-IsLegible _ (pos 30)
                  (to_block-IsPlain (pos 20) (pos 100) c.cluster_cidr (omega arith) (omega arith)
                    h.cluster_cidr)
                  (omega arith),
              (
                resubmit-IsLegible _ (pos 100)
                    (IsPlain-with_protocol _
                      (IsPlain-head (pos 20) (pos 100) (omega arith) (omega arith)) "arp" refl)
                    (omega arith),
                (
                  arp-IsLegible c.gateway_ip c.bridge_mac h.gateway_ip h.bridge_mac,
                  (arp_block-IsLegible c.cluster_cidr pod_mac_addr h.cluster_cidr refl, tt),
                ),
              ),
            ),
          ),
        ),
      ),
    ),
  )

  module _ (v : VSwitchConfig) (k : IsPlainNode v) where
    current-IsLegible : All IsLegible (current_node_list c v)
    current-IsLegible = (
      resubmit-IsLegible _ (pos 60)
          (to_block-IsPlain (pos 30) (pos 100) v.spec.pod_cidr (omega arith) (omega arith) k.0)
          (omega arith),
      (
        local-IsLegible _ (
            IsPlain-with_action_mod_dl_dest _
              (IsPlain-with_ip_src _
                (to_block-IsPlain (pos 20) (pos 100) v.spec.overlay_ip (omega arith) (omega arith)
                  k.1)
                v.spec.pod_cidr k.0)
              c.bridge_mac h.bridge_mac),
        (
          plain (
              IsPlain-with_action_output_port _
                (IsPlain-with_action_mod_dl_dest _
                  (to_block-IsPlain (pos 20) (pos 50) v.spec.overlay_ip (omega arith) (omega arith)
                    k.1)
                  c.cluster_wide_mac h.cluster_wide_mac)
                c.cluster_wide_ofport h.cluster_wide_ofport),
          tt,
        ),
      ),
    )

    -- a flow through the tunnel to the node
    tunnel-IsLegible :
        (f : Flow)
        → IsPlain f
        → IsLegible (
            f
            ▸ with_action_tunnel_dest v.spec.overlay_ip
            ▸ with_action_output_port c.overlay_ofport)
    tunnel-IsLegible f p = plain (
        IsPlain-with_action_output_port _
          (IsPlain-with_action_tunnel_dest f p v.spec.overlay_ip k.1) c.overlay_ofport
          h.overlay_ofport)

    remote-IsLegible : All IsLegible (remote_node_list c v)
    remote-IsLegible = (
      tunnel-IsLegible _
          (to_block-IsPlain (pos 30) (pos 150) v.spec.pod_cidr (omega arith) (omega arith) k.0),
      (
        resubmit-IsLegible _ (pos 30)
            (to_block-IsPlain (pos 20) (pos 50) v.spec.overlay_ip (omega arith) (omega arith) k.1)
            (omega arith),
        (
          tunnel-IsLegible _ (
              to_block-IsPlain (pos 30) (pos 100) v.spec.overlay_ip (omega arith) (omega arith)
                k.1),
          tt,
        ),
      ),
    )

    pub node-IsLegible : All IsLegible (vswitch_list c v)
    node-IsLegible = by_test (str_eq v.name c.node_name)
      where
        by_test :
            (b : Bool) → All IsLegible (if b then current_node_list c v else remote_node_list c v)
        by_test true = current-IsLegible
        by_test false = remote-IsLegible
