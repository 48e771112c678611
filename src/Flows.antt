-- ===== src/Flows.antt =====
-- flows/flows.go: a flow entry, the `With` setters and the text that ovs-ofctl reads.
pub mod Buffer
pub mod Reader
pub mod Tests
use k_vswitch.Prelude.{
  String, Bool, true, false, ◌≡◌, refl, List, [], ◌∷◌, ℤ, pos, non_zero, if◌then◌else◌,
}
use mathlib.Core.List
use k_vswitch.Text.{◌++◌, non_empty, join}
use k_vswitch.Text.Decimal.{format}

pub record Flow : Type 0 where
  pub table : ℤ
  pub priority : ℤ
  pub protocol : String
  pub ip_dest : String
  pub ip_src : String
  pub arp_dest : String
  pub arp_src : String
  pub tcp_dest_port : ℤ
  pub tcp_src_port : ℤ
  pub udp_dest_port : ℤ
  pub udp_src_port : ℤ
  pub tun_dest : String
  pub mod_dl_dest : String
  pub output : ℤ
  pub resubmit : ℤ
  pub drop : Bool
  pub local : Bool
  pub raw : String

-- `&Flow{}`: every field has its zero value
abbrev pub new_flow : Flow
new_flow = record {
  table = pos 0;
  priority = pos 0;
  protocol = "";
  ip_dest = "";
  ip_src = "";
  arp_dest = "";
  arp_src = "";
  tcp_dest_port = pos 0;
  tcp_src_port = pos 0;
  udp_dest_port = pos 0;
  udp_src_port = pos 0;
  tun_dest = "";
  mod_dl_dest = "";
  output = pos 0;
  resubmit = pos 0;
  drop = false;
  local = false;
  raw = "";
}

-- Each setter writes one field of the flow that it is called on, and returns that flow.
abbrev pub with_table : ℤ → Flow → Flow
with_table table f = record f { table = table }

abbrev pub with_priority : ℤ → Flow → Flow
with_priority priority f = record f { priority = priority }

abbrev pub with_protocol : String → Flow → Flow
with_protocol protocol f = record f { protocol = protocol }

abbrev pub with_ip_dest : String → Flow → Flow
with_ip_dest ip_dst f = record f { ip_dest = ip_dst }

abbrev pub with_ip_src : String → Flow → Flow
with_ip_src ip_src f = record f { ip_src = ip_src }

abbrev pub with_arp_dest : String → Flow → Flow
with_arp_dest arp_dst f = record f { arp_dest = arp_dst }

abbrev pub with_arp_src : String → Flow → Flow
with_arp_src arp_src f = record f { arp_src = arp_src }

abbrev pub with_tcp_src_port : ℤ → Flow → Flow
with_tcp_src_port src_port f = record f { tcp_src_port = src_port }

abbrev pub with_tcp_dest_port : ℤ → Flow → Flow
with_tcp_dest_port dst_port f = record f { tcp_dest_port = dst_port }

abbrev pub with_udp_src_port : ℤ → Flow → Flow
with_udp_src_port src_port f = record f { udp_src_port = src_port }

abbrev pub with_udp_dest_port : ℤ → Flow → Flow
with_udp_dest_port dst_port f = record f { udp_dest_port = dst_port }

abbrev pub with_raw : String → Flow → Flow
with_raw raw f = record f { raw = raw }

abbrev pub with_action_mod_dl_dest : String → Flow → Flow
with_action_mod_dl_dest dst_mac f = record f { mod_dl_dest = dst_mac }

abbrev pub with_action_tunnel_dest : String → Flow → Flow
with_action_tunnel_dest tun_dst f = record f { tun_dest = tun_dst }

abbrev pub with_action_output_port : ℤ → Flow → Flow
with_action_output_port output f = record f { output = output }

abbrev pub with_action_drop : Flow → Flow
with_action_drop f = record f { drop = true }

abbrev pub with_action_resubmit : ℤ → Flow → Flow
with_action_resubmit table f = record f { resubmit = table }

abbrev pub with_action_local : Flow → Flow
with_action_local f = record f { local = true }

-- `f.With...`: the calls of a chain, from left to right
infixl 20 ◌▸◌
abbrev pub ◌▸◌ : Flow → (Flow → Flow) → Flow
f ▸ with = with f

-- if value != "" { flow = fmt.Sprintf("%s label%s", flow, value) }
put_text : String → String → String → String
put_text label value flow = if non_empty value then flow ++ " " ++ label ++ value else flow

-- if value != 0 { flow = fmt.Sprintf("%s label%d", flow, value) }
put_int : String → ℤ → String → String
put_int label value flow = if non_zero value then flow ++ " " ++ label ++ format value else flow

-- if set { actionSet = append(actionSet, action) }
add_action : Bool → String → List String → List String
add_action set action actions = if set then List.◌++◌ actions (action ∷ []) else actions

-- the matches of `String`, in the order in which they are written
pub matches_text : Flow → String
unfolding put_text put_int
matches_text f = put_int "udp_src=" f.udp_src_port (
    put_int "udp_dst=" f.udp_dest_port (
      put_int "tcp_src=" f.tcp_src_port (
        put_int "tcp_dst=" f.tcp_dest_port (
          put_text "arp_spa=" f.arp_src (
            put_text "arp_tpa=" f.arp_dest (
              put_text "nw_src=" f.ip_src (
                put_text "nw_dst=" f.ip_dest (
                  put_text "" f.protocol
                    ("table=" ++ format f.table ++ " priority=" ++ format f.priority)))))))))

pub action_set : Flow → List String
unfolding add_action
action_set f = add_action f.local "local" (
    add_action f.drop "drop" (
      add_action (non_zero f.resubmit) ("resubmit(," ++ format f.resubmit ++ ")") (
        add_action (non_zero f.output) ("output:" ++ format f.output) (
          add_action (non_empty f.tun_dest) ("set_field:" ++ f.tun_dest ++ "->tun_dst")
            (add_action (non_empty f.mod_dl_dest) ("mod_dl_dst:" ++ f.mod_dl_dest) [])))))

-- Flow.String
unfoldable pub to_string : Flow → String
unfolding matches_text action_set
to_string f =
    if non_empty f.raw
    then f.raw
    else matches_text f ++ " " ++ "actions=" ++ join "," (action_set f)
