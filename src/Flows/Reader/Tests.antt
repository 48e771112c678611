-- ===== src/Flows/Reader/Tests.antt =====
-- Texts of flows, and what is read from them.
use k_vswitch.Prelude.{◌≡◌, refl, pos, some, none, inr, List, [], ◌∷◌, arith}
use k_vswitch.Flows.{
  Flow, new_flow, ◌▸◌, with_table, with_priority, with_protocol, with_ip_dest,
  with_action_tunnel_dest, with_action_output_port, with_action_resubmit, with_udp_dest_port,
  with_tcp_src_port, with_arp_src, with_action_mod_dl_dest, with_action_local, with_raw, to_string,
}
use k_vswitch.Flows.Buffer.{new_flows_buffer}
use k_vswitch.Flows.Buffer.Emits.{put_flows}
use k_vswitch.Text.Laws.{Lacks-of_test}
use k_vswitch.Flows.Reader.Matches.{IsPlain}
use k_vswitch.Flows.Reader.RoundTrip.{read_flow-to_string}
use k_vswitch.Flows.Reader.Lines.{IsLegible, plain, raw, read_lines-put_flows}
use k_vswitch.Flows.Reader.{read_flow, read_field, read_action, read_set_field, read_lines}

tunnel_test :
    read_flow
      "table=30 priority=150 ip nw_dst=10.1.9.0/24 actions=set_field:172.20.0.9->tun_dst,output:2"
    ≡ some (
        new_flow
        ▸ with_table (pos 30)
        ▸ with_priority (pos 150)
        ▸ with_protocol "ip"
        ▸ with_ip_dest "10.1.9.0/24"
        ▸ with_action_tunnel_dest "172.20.0.9"
        ▸ with_action_output_port (pos 2))
unfolding read_flow read_field read_action read_set_field
tunnel_test = refl

resubmit_test :
    read_flow "table=0 priority=1000 actions=resubmit(,10)"
    ≡ some
        (new_flow ▸ with_table (pos 0) ▸ with_priority (pos 1000) ▸ with_action_resubmit (pos 10))
unfolding read_flow read_field read_action read_set_field
resubmit_test = refl

refused_test : (read_flow "table=x" ≡ none) × (read_flow "table=0 actions=output:2;drop" ≡ none)
unfolding read_flow read_field read_action read_set_field
refused_test = (refl, refl)

-- a flow of every kind of field, and one of a raw text
abbrev tunnel : Flow
tunnel =
    new_flow
    ▸ with_table (pos 30)
    ▸ with_priority (pos 150)
    ▸ with_protocol "ip"
    ▸ with_ip_dest "10.1.9.0/24"
    ▸ with_action_tunnel_dest "172.20.0.9"
    ▸ with_action_output_port (pos 2)

abbrev ports : Flow
ports =
    new_flow
    ▸ with_priority (pos 1000)
    ▸ with_protocol "udp"
    ▸ with_udp_dest_port (pos 53)
    ▸ with_tcp_src_port (pos 9)
    ▸ with_arp_src "10.1.7.1"
    ▸ with_action_mod_dl_dest "aa:bb:cc:dd:ee:ff"
    ▸ with_action_resubmit (pos 20)
    ▸ with_action_local

tunnel-IsPlain : IsPlain tunnel
tunnel-IsPlain = record {
  not_raw = refl;
  protocol = inr refl;
  texts = (refl, (refl, (refl, (refl, (refl, (refl, tt))))));
  numbers = (
    omega arith,
    (
      omega arith,
      (omega arith, (omega arith, (omega arith, (omega arith, (omega arith, (omega arith, tt)))))),
    ),
  );
}

ports-IsPlain : IsPlain ports
ports-IsPlain = record {
  not_raw = refl;
  protocol = inr refl;
  texts = (refl, (refl, (refl, (refl, (refl, (refl, tt))))));
  numbers = (
    omega arith,
    (
      omega arith,
      (omega arith, (omega arith, (omega arith, (omega arith, (omega arith, (omega arith, tt)))))),
    ),
  );
}

read_flow-to_string_example : read_flow (to_string ports) ≡ some ports
read_flow-to_string_example = read_flow-to_string ports ports-IsPlain

abbrev arp : Flow
arp = new_flow ▸ with_raw "table=100 priority=500 dl_type=0x0806 actions=in_port"

arp-IsLegible : IsLegible arp
unfolding read_flow read_field
arp-IsLegible =
    raw "table=100 priority=500 dl_type=0x0806 actions=in_port" refl
      (Lacks-of_test "\n" "table=100 priority=500 dl_type=0x0806 actions=in_port" refl) refl

abbrev added : List Flow
added = tunnel ∷ arp ∷ ports ∷ []

read_lines-put_flows_example : read_lines (put_flows added new_flows_buffer).buffer ≡ added
read_lines-put_flows_example =
    read_lines-put_flows added (plain tunnel-IsPlain, (arp-IsLegible, (plain ports-IsPlain, tt)))
