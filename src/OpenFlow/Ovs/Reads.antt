-- ===== src/OpenFlow/Ovs/Reads.antt =====
-- What controllers/openflow/port_cache.go reads from the answers of ovs-vsctl.
use k_vswitch.Prelude.{◌≡◌, refl, ap, ◌∙◌, ℤ, String, Option, none, some, List, [], ◌∷◌}
use k_vswitch.Text.{◌++◌}
use k_vswitch.Text.Laws.{Lacks}
use k_vswitch.Text.Trim.{HasNoSpace, trim_space-line, trim-quoted}
use k_vswitch.Text.Decimal.{format, atoi}
use k_vswitch.Text.Decimal.RoundTrip.{FitsInt, atoi-format, format-HasNoSpace}
use k_vswitch.Result.{msg, wrap, Result, ok, err}
use k_vswitch.OpenFlow.Ovs.{
  Ovs, PortInfo, first_column, mac_of_output, int_of_output, find_port, mac_addr_from_port,
  of_port_from_name, port_info_of,
}

-- ovs-vsctl knows the port of a pod: it prints a table with the port's name first, the address in
-- quotes on a line, and the number on a line.
pub record Knows (ovs : Ovs) (namespace name : String) (info : PortInfo) : Type 0 where
  pub table : String
  pub columns : List String
  pub rows : List (List String)
  pub finds :
      ovs.vsctl (
        "--format=json"
        ∷ "--column=name"
        ∷ "find"
        ∷ "port"
        ∷ ("external-ids:k8s_pod_namespace=" ++ namespace)
        ∷ ("external-ids:k8s_pod_name=" ++ name)
        ∷ [])
      ≡ ok table
  pub decodes : ovs.decode table ≡ ok ((info.name ∷ columns) ∷ rows)
  pub prints_mac :
      ovs.vsctl ("get" ∷ "port" ∷ info.name ∷ "mac" ∷ []) ≡ ok ("\"" ++ info.mac ++ "\"\n")
  pub prints_ofport :
      ovs.vsctl ("get" ∷ "Interface" ∷ info.name ∷ "ofport" ∷ []) ≡ ok (format info.ofport ++ "\n")

int_of_line : (z : ℤ) → FitsInt z → int_of_output (format z ++ "\n") ≡ ok z
unfolding int_of_output
int_of_line z fits =
    ap (λ s. number (atoi s)) (trim_space-line (format z) (format-HasNoSpace z))
    ∙ ap number (atoi-format z fits)
  where
    number : Option ℤ → Result ℤ
    number none = err (wrap "error converting ofport output to int" (msg "invalid syntax"))
    number (some ofport) = ok ofport

module _ (ovs : Ovs) (namespace name : String) (info : PortInfo)
    (knows : Knows ovs namespace name info) where
  find_port-name : find_port ovs namespace name ≡ ok info.name
  unfolding find_port first_column
  find_port-name = rw (knows.finds, knows.decodes) refl

  mac_of_port :
      HasNoSpace info.mac → Lacks "\"" info.mac → mac_addr_from_port ovs info.name ≡ ok info.mac
  unfolding mac_addr_from_port mac_of_output
  mac_of_port visible plain = rw knows.prints_mac (ap ok (trim-quoted info.mac visible plain))

  ofport_of_port : FitsInt info.ofport → of_port_from_name ovs info.name ≡ ok info.ofport
  unfolding of_port_from_name
  ofport_of_port fits = rw knows.prints_ofport (int_of_line info.ofport fits)

  -- Where ovs-vsctl knows the port, its address holds no white space and no quote and its number fits
  -- into 64 bits, the questions return the port's name, number and address.
  pub port_info_of-Knows :
      HasNoSpace info.mac
      → Lacks "\"" info.mac
      → FitsInt info.ofport
      → port_info_of ovs namespace name ≡ ok info
  unfolding port_info_of
  port_info_of-Knows visible plain fits =
      rw (find_port-name, mac_of_port visible plain, ofport_of_port fits) refl
