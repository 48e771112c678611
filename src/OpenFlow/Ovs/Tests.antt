-- ===== src/OpenFlow/Ovs/Tests.antt =====
-- A port that ovs-vsctl knows.
use k_vswitch.Prelude.{◌≡◌, refl, String, pos, List, [], ◌∷◌, str_eq, arith, if◌then◌else◌}
use k_vswitch.Text.Decimal.{format}
use k_vswitch.Result.{Result, ok}
use k_vswitch.OpenFlow.Ovs.{Ovs, PortInfo, port_info_of}
use k_vswitch.OpenFlow.Ovs.Reads.{Knows, port_info_of-Knows}

abbrev reply : List String → Result String
reply (verb ∷ table ∷ record_name ∷ column ∷ []) =
    if str_eq column "mac" then ok "\"0e:00:00:00:00:05\"\n" else ok "7\n"
reply _ = ok "{}"

abbrev host : Ovs
host = record { vsctl = reply; decode = λ text. ok (("veth5" ∷ []) ∷ []) }

abbrev veth5 : PortInfo
veth5 = record { name = "veth5"; ofport = pos 7; mac = "0e:00:00:00:00:05" }

host-Knows : Knows host "shop" "db" veth5
unfolding format
host-Knows = record {
  table = "{}";
  columns = [];
  rows = [];
  finds = refl;
  decodes = refl;
  prints_mac = refl;
  prints_ofport = refl;
}

port_info_of-Knows_example : port_info_of host "shop" "db" ≡ ok veth5
port_info_of-Knows_example =
    port_info_of-Knows host "shop" "db" veth5 host-Knows
      (
        refl,
        (
          refl,
          (
            refl,
            (
              refl,
              (
                refl,
                (
                  refl,
                  (
                    refl,
                    (
                      refl,
                      (refl, (refl, (refl, (refl, (refl, (refl, (refl, (refl, (refl, tt))))))))),
                    ),
                  ),
                ),
              ),
            ),
          ),
        ),
      )
      (
        refl,
        (
          refl,
          (
            refl,
            (
              refl,
              (
                refl,
                (
                  refl,
                  (
                    refl,
                    (
                      refl,
                      (refl, (refl, (refl, (refl, (refl, (refl, (refl, (refl, (refl, tt))))))))),
                    ),
                  ),
                ),
              ),
            ),
          ),
        ),
      )
      (omega arith)
