-- ===== src/OpenFlow/Tests/Installed.antt =====
-- Packets on the flows that ovs-ofctl reads from one run of `syncFlows`, and the theorems at them.
use mathlib.Core.List.{Memᴰ}
use mathlib.Core.Path.{subst}
use k_vswitch.Prelude.{ℕ, ℤ, pos, ◌≡◌, refl, sym, ap, ◌∙◌, true, false, [], ◌∷◌}
use k_vswitch.Text.{to_lower}
use k_vswitch.Net.{parse_cidr, parse_ip, contains}
use k_vswitch.Flows.{
  Flow, new_flow, ◌▸◌, with_table, with_priority, with_action_resubmit, with_action_local,
}
use k_vswitch.OpenFlow.Bridge.Flows.{to_block}
use k_vswitch.VSwitchCfg.{VSwitchConfig}
use k_vswitch.OpenFlow.Policy.{ingress, default_drop, peer_namespaces, peer_ips}
use k_vswitch.OpenFlow.Policy.Table.{forbidden}
use k_vswitch.OpenFlow.PortCache.{new_port_cache, get_port_info}
use k_vswitch.OpenFlow.Ovs.{port_info_of}
use k_vswitch.OpenFlow.Switch.{Packet, tcp, other_ip, in_table, selects, Decides}
use k_vswitch.OpenFlow.Controller.{new_controller, local_pod_ips, is_local_ip}
use k_vswitch.OpenFlow.Controller.Verdict.{applied_policies}
use k_vswitch.OpenFlow.Controller.Tables.{IsPort}
use k_vswitch.OpenFlow.Controller.Paths.{Handles}
use k_vswitch.OpenFlow.Controller.Installed.{
  installed_verdict, installed-IsPort, installed_route, Delivering,
}
use k_vswitch.OpenFlow.Tests.Cluster.{
  db, client, cluster, db_policy, config, worker_2, env, block, host, veth,
}
use k_vswitch.OpenFlow.Tests.Blocks.{in_block, taken}
use k_vswitch.OpenFlow.Tests.PlainCluster.{
  plain_cluster, answered, flows, replacing, replacing_is_issued, read_is_wanted,
}

abbrev to_db : ℤ → Packet ℕ
to_db port = record { src = 167840008; dst = 167839493; transport = tcp port }

drop-Decides :
    Decides in_block (in_table (pos 10) flows) (to_db (pos 22)) (default_drop ingress "10.1.7.5")
unfolding in_block local_pod_ips is_local_ip parse_cidr parse_ip contains to_lower peer_namespaces
    peer_ips get_port_info port_info_of
drop-Decides =
    taken (to_db (pos 22)) (in_table (pos 10) flows) (default_drop ingress "10.1.7.5") 100
      (Memᴰ.tail (Memᴰ.head refl)) refl refl refl

installed_verdict_example :
    (default_drop ingress "10.1.7.5").drop
    ≡ forbidden cluster in_block (to_db (pos 22)) (applied_policies env config (db_policy ∷ []))
installed_verdict_example =
    installed_verdict env (new_controller config) block (worker_2 ∷ []) (db ∷ client ∷ [])
      (db_policy ∷ []) answered plain_cluster replacing replacing_is_issued in_block
      (to_db (pos 22)) (default_drop ingress "10.1.7.5")
      (subst
        (λ fs.
          Decides in_block (in_table (pos 10) fs) (to_db (pos 22))
            (default_drop ingress "10.1.7.5"))
        (sym read_is_wanted) drop-Decides)

-- the way of a packet that enters: the entry, a flow of table 10, and the rest
abbrev entry : Flow
entry = new_flow ▸ with_table (pos 0) ▸ with_priority (pos 1000) ▸ with_action_resubmit (pos 10)

-- the node's listed peer has another address
abbrev IsOther : ℕ → Type 0
IsOther a =
    (w : VSwitchConfig) → Memᴰ w (worker_2 ∷ []) → selects in_block w.spec.overlay_ip a ≡ false

IsOther-address : (a : ℕ) → in_block "172.20.0.9" a ≡ false → IsOther a
IsOther-address a h w (Memᴰ.head e) =
    ap (λ (x : VSwitchConfig). selects in_block x.spec.overlay_ip a) e ∙ h
IsOther-address a h w (Memᴰ.tail m) = elim m [ ]

-- from a host of the cluster to the gateway
abbrev to_gateway : Packet ℕ
to_gateway = record { src = 167840008; dst = 167839489; transport = other_ip }

abbrev gateway_flow : Flow
gateway_flow = to_block (pos 20) (pos 500) "10.1.7.1" ▸ with_action_local

db-IsOther : IsOther 167839493
unfolding in_block local_pod_ips is_local_ip parse_cidr parse_ip contains to_lower peer_namespaces
    peer_ips get_port_info port_info_of
db-IsOther = IsOther-address 167839493 refl

installed-IsPort_example :
    Delivering env
      (new_controller config)
      block
      (worker_2 ∷ [])
      (db ∷ client ∷ [])
      (db_policy ∷ [])
      in_block
      (to_db (pos 5432))
      (Handles in_block
        (to_db (pos 5432))
        env
        config
        block
        (worker_2 ∷ [])
        (db ∷ client ∷ [])
        (db_policy ∷ [])
        new_port_cache
        (λ f.
          IsPort host new_port_cache (db ∷ client ∷ []) f
          × (selects in_block f.ip_dest 167839493 ≡ true)))
unfolding in_block local_pod_ips is_local_ip parse_cidr parse_ip contains to_lower peer_namespaces
    peer_ips get_port_info port_info_of
installed-IsPort_example =
    installed-IsPort env (new_controller config) block (worker_2 ∷ []) (db ∷ client ∷ [])
      (db_policy ∷ []) answered plain_cluster in_block (to_db (pos 5432)) db-IsOther db veth refl
      (Memᴰ.head refl) refl refl refl

-- from a pod that no policy selects to the client, on the node worker-2
abbrev to_client : Packet ℕ
to_client = record { src = 167839495; dst = 167840008; transport = other_ip }

client-IsOther : IsOther 167840008
unfolding in_block local_pod_ips is_local_ip parse_cidr parse_ip contains to_lower peer_namespaces
    peer_ips get_port_info port_info_of
client-IsOther = IsOther-address 167840008 refl

only_worker_2 :
    (w : VSwitchConfig)
    → Memᴰ w (worker_2 ∷ [])
    → selects in_block w.spec.pod_cidr 167840008 ≡ true
    → w.spec.overlay_ip ≡ "172.20.0.9"
only_worker_2 w (Memᴰ.head e) h = ap (λ (x : VSwitchConfig). x.spec.overlay_ip) e
only_worker_2 w (Memᴰ.tail m) h = elim m [ ]

installed_route_example :
    Delivering env
      (new_controller config)
      block
      (worker_2 ∷ [])
      (db ∷ client ∷ [])
      (db_policy ∷ [])
      in_block
      to_client
      (Handles in_block to_client env config block
        (worker_2 ∷ [])
        (db ∷ client ∷ [])
        (db_policy ∷ [])
        new_port_cache
        (λ f. (f.tun_dest ≡ "172.20.0.9") × (f.output ≡ pos 2)))
unfolding in_block local_pod_ips is_local_ip parse_cidr parse_ip contains to_lower peer_namespaces
    peer_ips get_port_info port_info_of
installed_route_example =
    installed_route env (new_controller config) block (worker_2 ∷ []) (db ∷ client ∷ [])
      (db_policy ∷ []) answered plain_cluster in_block to_client client-IsOther worker_2 refl
      (Memᴰ.head refl) refl refl only_worker_2
