-- ===== src/Flows/Tests.antt =====
-- The cases of flows/flows_test.go.
use k_vswitch.Prelude.{◌≡◌, refl, pos}
use k_vswitch.Text.{join}
use k_vswitch.Text.Decimal.{format}
use k_vswitch.Flows.{
  new_flow, ◌▸◌, with_table, with_priority, with_protocol, with_ip_dest, with_arp_dest,
  with_action_mod_dl_dest, with_action_tunnel_dest, with_action_output_port, with_action_resubmit,
  Flow, to_string,
}

abbrev base : Flow
base = new_flow ▸ with_table (pos 0) ▸ with_priority (pos 100)

abbrev to_pod : Flow
to_pod = base ▸ with_protocol "ip" ▸ with_ip_dest "10.0.0.1"

output_test :
    to_string (base ▸ with_action_output_port (pos 1)) ≡ "table=0 priority=100 actions=output:1"
unfolding to_string format join
output_test = refl

ip_test :
    to_string (to_pod ▸ with_action_output_port (pos 1))
    ≡ "table=0 priority=100 ip nw_dst=10.0.0.1 actions=output:1"
unfolding to_string format join
ip_test = refl

arp_test :
    to_string
      (base ▸ with_protocol "arp" ▸ with_arp_dest "10.0.0.1" ▸ with_action_output_port (pos 1))
    ≡ "table=0 priority=100 arp arp_tpa=10.0.0.1 actions=output:1"
unfolding to_string format join
arp_test = refl

mod_dl_dest_test :
    to_string
      (to_pod ▸ with_action_mod_dl_dest "aa:bb:cc:dd:ee:ff" ▸ with_action_output_port (pos 1))
    ≡ "table=0 priority=100 ip nw_dst=10.0.0.1 actions=mod_dl_dst:aa:bb:cc:dd:ee:ff,output:1"
unfolding to_string format join
mod_dl_dest_test = refl

tunnel_test :
    to_string (to_pod ▸ with_action_tunnel_dest "172.20.0.1" ▸ with_action_output_port (pos 1))
    ≡ "table=0 priority=100 ip nw_dst=10.0.0.1 actions=set_field:172.20.0.1->tun_dst,output:1"
unfolding to_string format join
tunnel_test = refl

resubmit_test :
    to_string (to_pod ▸ with_action_resubmit (pos 20))
    ≡ "table=0 priority=100 ip nw_dst=10.0.0.1 actions=resubmit(,20)"
unfolding to_string format join
resubmit_test = refl
