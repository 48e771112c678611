-- ===== src/OpenFlow/Ovs.antt =====
-- The questions that controllers/openflow/port_cache.go asks of ovs-vsctl. What it prints, and the
-- decoding of its JSON, are parameters.
pub mod Reads
mod Tests
use k_vswitch.Prelude.{ℤ, String, none, some, List, [], ◌∷◌}
use k_vswitch.Text.{◌++◌, trim_space, trim_prefix, trim_suffix}
use k_vswitch.Text.Decimal.{atoi}
use k_vswitch.Result.{msg, wrap, Result, ok, err, panic, ◌>>=◌, context}

-- The output of ovs-vsctl for a list of arguments, and the `Data` of the JSON that it prints.
pub record Ovs : Type 0 where
  pub vsctl : List String → Result String
  pub decode : String → Result (List (List String))

pub record PortInfo : Type 0 where
  pub name : String
  pub ofport : ℤ
  pub mac : String

-- dbData.Data[0][0]; a row with no column is an index out of range
unfoldable pub first_column : List (List String) → Result String
first_column [] = err (msg "OVS port was not found")
first_column ([] ∷ rows) = panic
first_column ((name ∷ columns) ∷ rows) = ok name

-- the mac address in the output of ovs-vsctl, without its quotes
unfoldable pub mac_of_output : String → String
unfolding trim_space trim_prefix trim_suffix
mac_of_output out = trim_suffix "\"" (trim_prefix "\"" (trim_space out))

unfoldable pub int_of_output : String → Result ℤ
unfolding atoi trim_space
int_of_output out = elim (atoi (trim_space out)) [
  | none ↦ err (wrap "error converting ofport output to int" (msg "invalid syntax"))
  | some ofport ↦ ok ofport
]

module _ (ovs : Ovs) where
  unfoldable pub find_port : String → String → Result String
  unfolding first_column
  find_port pod_namespace pod_name = do
    out ← context "failed to get OVS port" (
        ovs.vsctl (
          "--format=json"
          ∷ "--column=name"
          ∷ "find"
          ∷ "port"
          ∷ ("external-ids:k8s_pod_namespace=" ++ pod_namespace)
          ∷ ("external-ids:k8s_pod_name=" ++ pod_name)
          ∷ []))
    rows ← ovs.decode out
    first_column rows

  unfoldable pub mac_addr_from_port : String → Result String
  unfolding mac_of_output
  mac_addr_from_port port_name = do
    out ←
        context "failed to get MAC address from OVS port"
          (ovs.vsctl ("get" ∷ "port" ∷ port_name ∷ "mac" ∷ []))
    ok (mac_of_output out)

  unfoldable pub of_port_from_name : String → Result ℤ
  unfolding int_of_output
  of_port_from_name port_name = do
    out ←
        context "failed to get ofport for port"
          (ovs.vsctl ("get" ∷ "Interface" ∷ port_name ∷ "ofport" ∷ []))
    int_of_output out

  -- the questions of `GetPortInfo` for a pod that is not in the cache, in their order
  unfoldable pub port_info_of : String → String → Result PortInfo
  unfolding find_port mac_addr_from_port of_port_from_name
  port_info_of namespace name = do
    port_name ← find_port namespace name
    mac ← mac_addr_from_port port_name
    ofport ← of_port_from_name port_name
    ok (record { name = port_name; ofport = ofport; mac = mac })
