-- ===== src/Flows/Reader.antt =====
-- How ovs-ofctl reads the text of a flow, for the statements only: this is its documented format,
-- in so far as `Flow` has a field for what is written, and not translated from the program.

pub mod Tests
pub mod Actions
pub mod Lines
pub mod Matches
pub mod Plain
pub mod RoundTrip
pub mod Words
use Prim.Native.Char.{Char, code}
use Prim.Native.String.{[], ◌∷◌}
use k_vswitch.Prelude.{
  ℕ, zero, suc, ◌+◌, ◌-◌, String, Bool, ◌&&◌, ◌||◌, Option, none, some, ℤ, List, ◌==◌, str_eq,
  if◌then◌else◌, ◌>>=◌,
}
use k_vswitch.Text.{◌++◌, non_empty, split, grow, trim_prefix, trim_suffix, has_prefix, drop_like}
use k_vswitch.Text.Decimal.{atoi, scan}
use k_vswitch.Flows.{
  Flow, new_flow, with_table, with_priority, with_protocol, with_ip_dest, with_ip_src,
  with_arp_dest, with_arp_src, with_tcp_dest_port, with_tcp_src_port, with_udp_dest_port,
  with_udp_src_port, with_action_mod_dl_dest, with_action_tunnel_dest, with_action_output_port,
  with_action_resubmit, with_action_drop, with_action_local,
}

-- a key ends before the first of these characters
abbrev pub ends_key : Char → Bool
ends_key c = let n = code c in n == b':' || n == b'=' || n == b'(' || n == b','

abbrev pub key_of : String → String
key_of [] = []
key_of (c ∷ s) = let rest = key_of s in if ends_key c then [] else c ∷ rest

-- what is written behind the character that ends the key
abbrev pub value_of : String → String
value_of [] = []
value_of (c ∷ s) = let rest = value_of s in if ends_key c then s else rest

-- the protocols that stand for a match on the type of the packet
abbrev pub is_protocol : String → Bool
is_protocol s =
    str_eq s "ip"
    || (str_eq s "arp"
        || (str_eq s "icmp" || (str_eq s "tcp" || (str_eq s "udp" || str_eq s "sctp"))))

abbrev pub number_into : (ℤ → Flow → Flow) → Flow → Option ℤ → Option Flow
number_into with f none = none
number_into with f (some n) = some (with n f)

-- set_field:<address>->tun_dst
unfoldable pub read_set_field : String → Flow → Option Flow
unfolding trim_suffix
read_set_field value f =
    let address = trim_suffix "->tun_dst" value in
    if str_eq value (address ++ "->tun_dst") then some (with_action_tunnel_dest address f) else none

unfoldable pub read_action : String → Flow → Option Flow
unfolding atoi scan trim_prefix trim_suffix has_prefix drop_like
read_action [] f = some f
read_action (c ∷ s) f =
    let key = key_of (c ∷ s) in
    let value = value_of (c ∷ s) in
    if str_eq key "mod_dl_dst"
    then some (with_action_mod_dl_dest value f)
    else if str_eq key "set_field"
    then read_set_field value f
    else if str_eq key "output"
    then number_into with_action_output_port f (atoi value)
    else if str_eq key "resubmit"
    then number_into with_action_resubmit f (atoi (trim_prefix "," (trim_suffix ")" value)))
    else if str_eq key "drop"
    then some (with_action_drop f)
    else if str_eq key "local"
    then some (with_action_local f)
    else none

abbrev pub read_actions : List String → Flow → Option Flow
read_actions List.[] f = some f
read_actions (List.◌∷◌ a actions) f = read_action a f >>= read_actions actions

-- how many parentheses are open after a character
abbrev pub depth_after : Char → ℕ → ℕ
depth_after c depth =
    if code c == b'(' then suc depth else if code c == b')' then depth - 1 else depth

-- the actions of a list: a comma between parentheses does not end one
unfoldable pub arguments : (depth : ℕ) → String → List String
arguments depth [] = List.◌∷◌ [] List.[]
arguments depth (c ∷ s) =
    let ended = arguments depth s in
    let more = arguments (depth_after c depth) s in
    if code c == b',' && depth == 0 then List.◌∷◌ [] ended else grow c more

unfoldable pub read_field : (key value : String) → Flow → Option Flow
unfolding atoi scan arguments
read_field key value f =
    if str_eq key "table"
    then number_into with_table f (atoi value)
    else if str_eq key "priority"
    then number_into with_priority f (atoi value)
    else if str_eq key "nw_dst"
    then some (with_ip_dest value f)
    else if str_eq key "nw_src"
    then some (with_ip_src value f)
    else if str_eq key "arp_tpa"
    then some (with_arp_dest value f)
    else if str_eq key "arp_spa"
    then some (with_arp_src value f)
    else if str_eq key "tcp_dst"
    then number_into with_tcp_dest_port f (atoi value)
    else if str_eq key "tcp_src"
    then number_into with_tcp_src_port f (atoi value)
    else if str_eq key "udp_dst"
    then number_into with_udp_dest_port f (atoi value)
    else if str_eq key "udp_src"
    then number_into with_udp_src_port f (atoi value)
    else if str_eq key "actions"
    then read_actions (arguments 0 value) f
    else if is_protocol key
    then some (with_protocol key f)
    else none

abbrev pub read_words : List String → Flow → Option Flow
read_words List.[] f = some f
read_words (List.◌∷◌ w words) f = read_field (key_of w) (value_of w) f >>= read_words words

-- a flow, `none` where the text is refused
unfoldable pub read_flow : String → Option Flow
unfolding split
read_flow s = read_words (split " " s) new_flow

-- a line: a flow, or a text that is kept as it is where `Flow` has no fields for it
abbrev pub flow_or_raw : String → Option Flow → Flow
flow_or_raw s none = record new_flow { raw = s }
flow_or_raw s (some f) = f

-- the flows of lines, of which the empty ones are skipped
abbrev pub read_each : List String → List Flow
read_each List.[] = List.[]
read_each (List.◌∷◌ s lines) =
    let rest = read_each lines in
    if non_empty s then List.◌∷◌ (flow_or_raw s (read_flow s)) rest else rest

unfoldable pub read_lines : String → List Flow
unfolding split
read_lines s = read_each (split "\n" s)
