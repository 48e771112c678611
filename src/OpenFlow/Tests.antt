-- ===== src/OpenFlow/Tests.antt =====
-- The theorems at a node with one pod, one policy and one peer.
mod Blocks
mod Cluster
mod Installed
mod PlainCluster
use mathlib.Core.List.{Memᴰ}
use mathlib.Core.Path.{subst}
use mathlib.Core.List.{map}
use k_vswitch.Prelude.{
  ℕ, ℤ, pos, ◌≤◌, ◌<◌, ◌+◌, ◌≡◌, ◌↔◌, refl, sym, ap, ◌∙◌, String, true, false, none, some, List, [],
  ◌∷◌, All, arith, str_eq, if◌then◌else◌,
}
use k_vswitch.Net.{IpNet, parse_cidr, parse_ip, mask, block_size, contains}
use k_vswitch.Result.{Result, ok, panic}
use k_vswitch.Flows.{Flow, ◌▸◌, with_tcp_dest_port, with_ip_src, with_ip_dest}
use k_vswitch.Flows.Buffer.{new_flows_buffer, sync_flows_command}
use k_vswitch.Flows.Buffer.Emits.{Emits, put_flows}
use k_vswitch.VSwitchCfg.{VSwitchConfig}
use k_vswitch.OpenFlow.Kube.{
  Pod, Selector, everything, from_set, IntOrString, int, str, PolicyPort, PolicyRule, NetworkPolicy,
  Listing, listed,
}
use k_vswitch.OpenFlow.Config.{Config}
use k_vswitch.Text.{to_lower}
use k_vswitch.OpenFlow.Policy.{peer_namespaces, peer_ips, Lookup, ingress, direction_flows, allow}
use k_vswitch.OpenFlow.Policy.Flows.{direction_flows-Emits, direction_list}
use k_vswitch.OpenFlow.Policy.Table.{Applied, policy_table, policy_verdict, forbidden}
use k_vswitch.OpenFlow.Switch.{Packet, tcp, Decides, in_table}
use k_vswitch.OpenFlow.Ovs.{Ovs, PortInfo, port_info_of}
use k_vswitch.OpenFlow.PortCache.{
  PortCache, new_port_cache, port_cache_key_for_pod, lookup, get_port_info, del_port_info,
}
use k_vswitch.OpenFlow.PortCache.Laws.{
  port_cache_key-injective, get_port_info-cached, port_cache_frame, Use, queries, deletes, run_uses,
}
use k_vswitch.OpenFlow.Controller.{Env, new_controller, is_local_ip, sync_flows, local_pod_ips}
use k_vswitch.OpenFlow.Controller.Verdict.{in_table-wanted, applied_policies, wanted_verdict}
use k_vswitch.OpenFlow.Controller.Local.{is_local_ip_iff}
use k_vswitch.OpenFlow.Controller.Steps.{Answers}
use k_vswitch.OpenFlow.Controller.Sync.{wanted, outcome, sync_flows-installs}
use k_vswitch.OpenFlow.Controller.Events.{
  added_pod, deleted_pod, deleted_vswitch, minute_passed, pod, handle_all, Event,
}
use k_vswitch.OpenFlow.Controller.Events.Laws.{
  Round, IsAnswered, input_of, after_rounds, handle_all_lem,
}
use k_vswitch.OpenFlow.Session.{
  hello, echo_request, switch_features, say_hello, features_request, echo_answer, initialize, run,
}
use k_vswitch.OpenFlow.Session.Laws.{run-initialize}
use k_vswitch.OpenFlow.Tests.Cluster.{
  db, client, pods_of, number, cluster, db_port, from_client, db_policy, reply, host, config,
  worker_2, env, block, veth, host-Answers,
}

direction_flows-Emits_example :
    Emits
      (direction_flows cluster ingress (from_client ∷ []) db_policy ("10.1.7.5" ∷ []))
      (direction_list cluster ingress (from_client ∷ []) db_policy ("10.1.7.5" ∷ []))
direction_flows-Emits_example =
    direction_flows-Emits cluster ingress (from_client ∷ []) db_policy ("10.1.7.5" ∷ [])
      (((int (pos 5432), "TCP", refl, refl), tt), tt)

-- the policy on the node of its pod, and a packet of the client to the port that it allows
abbrev applied : List Applied
applied = (db_policy, "10.1.7.5" ∷ []) ∷ []

abbrev query : Packet String
query = record { src = "10.1.9.8"; dst = "10.1.7.5"; transport = tcp (pos 5432) }

abbrev allowing_flow : Flow
allowing_flow = allow "tcp" (λ f.
    f ▸ with_tcp_dest_port (pos 5432) ▸ (λ g. g ▸ with_ip_src "10.1.9.8" ▸ with_ip_dest "10.1.7.5"))

bounded :
    (n : ℕ) (g : Flow) (fs : List Flow)
    → All (λ (f : Flow). (m : ℕ) × (f.priority ≡ pos m) × (m ≤ n)) fs
    → Memᴰ g fs
    → (k : ℕ) → g.priority ≡ pos k
    → k ≤ n
bounded n g [] h t k e = elim t [ ]
bounded n g (f ∷ fs) ((m, at, le), rest) (Memᴰ.head same) k e =
    let equal : m ≡ k = cc (sym at ∙ ap (λ (x : Flow). x.priority) (sym same) ∙ e) in
    subst (λ q. q ≤ n) equal le
bounded n g (f ∷ fs) (first, rest) (Memᴰ.tail t) k e = bounded n g fs rest t k e

query-Decides : Decides str_eq (policy_table cluster applied) query allowing_flow
unfolding to_lower peer_namespaces peer_ips
query-Decides = record {
  listed = Memᴰ.tail (Memᴰ.tail (Memᴰ.head refl));
  matching = refl;
  highest = λ g t m k n at high.
      let top : 1000 ≡ n = cc high in
      subst (λ q. k ≤ q) top
        (bounded 1000 g (policy_table cluster applied)
          (
            (0, refl, omega arith),
            ((100, refl, omega arith), ((1000, refl, omega arith), ((100, refl, omega arith), tt))),
          )
          t k at);
}

policy_verdict_example : allowing_flow.drop ≡ forbidden cluster str_eq query applied
policy_verdict_example = policy_verdict cluster str_eq query applied allowing_flow query-Decides

-- another port is forbidden, and so is what the pod sends
verdict_test :
    (forbidden cluster str_eq query applied ≡ false)
    × (forbidden cluster str_eq (record query { transport = tcp (pos 22) }) applied ≡ true)
    × (forbidden cluster str_eq (record query { src = "10.1.7.5"; dst = "10.1.9.8" }) applied
        ≡ true)
    × (forbidden cluster str_eq (record query { src = "10.1.9.1"; dst = "10.1.9.8" }) applied
        ≡ false)
unfolding to_lower peer_namespaces peer_ips
verdict_test = (refl, refl, refl, refl)

sync_flows-installs_example : sync_flows env (new_controller config) ≡ (
  outcome (ok ""),
  record {
    config = config;
    flows =
        put_flows
          (wanted env config block
            (worker_2 ∷ [])
            (db ∷ client ∷ [])
            (db_policy ∷ [])
            new_port_cache).0
          new_flows_buffer;
    port_cache =
        (wanted env config block
          (worker_2 ∷ [])
          (db ∷ client ∷ [])
          (db_policy ∷ [])
          new_port_cache).1;
    issued =
        sync_flows_command "k-vswitch0" (
          put_flows
            (wanted env config block
              (worker_2 ∷ [])
              (db ∷ client ∷ [])
              (db_policy ∷ [])
              new_port_cache).0
            new_flows_buffer)
        ∷ [];
  },
)
unfolding parse_cidr
sync_flows-installs_example =
    sync_flows-installs env (new_controller config) block (worker_2 ∷ []) (db ∷ client ∷ [])
      (db_policy ∷ []) refl host-Answers refl refl refl
      ((((((int (pos 5432), "TCP", refl, refl), tt), tt)), tt), tt)

-- an event, with the cluster as it is
abbrev round_of : Event → Round
round_of e = record {
  env = env;
  event = e;
  vswitches = worker_2 ∷ [];
  pods = db ∷ client ∷ [];
  policies = db_policy ∷ [];
}

round_of-IsAnswered : (e : Event) → IsAnswered (round_of e)
round_of-IsAnswered e = record {
  answers = host-Answers;
  listed_vswitches = refl;
  listed_pods = refl;
  listed_policies = refl;
  complete = ((((((int (pos 5432), "TCP", refl, refl), tt), tt)), tt), tt);
  runs = λ command h. cc;
}

abbrev rounds : List Round
rounds =
    round_of (added_pod (pod db))
    ∷ round_of deleted_vswitch
    ∷ round_of (deleted_pod (pod db))
    ∷ round_of minute_passed
    ∷ []

handle_all_lem_example :
    handle_all (map input_of rounds) (new_controller config)
    ≡ (ok tt, after_rounds block rounds (new_controller config))
unfolding parse_cidr
handle_all_lem_example = handle_all_lem block rounds (new_controller config) refl (
  round_of-IsAnswered (added_pod (pod db)),
  (
    round_of-IsAnswered deleted_vswitch,
    (round_of-IsAnswered (deleted_pod (pod db)), (round_of-IsAnswered minute_passed, tt)),
  ),
)

is_local_ip_iff_example :
    (is_local_ip config "10.1.7.5" ≡ ok true)
    ↔ ((mask 167839497 24 ≤ 167839493) × (167839493 < mask 167839497 24 + block_size 24))
unfolding parse_cidr parse_ip
is_local_ip_iff_example = is_local_ip_iff config "10.1.7.5" 167839497 24 167839493 refl refl

abbrev cached : PortCache
cached = record { store = ("shop/db", veth) ∷ [] }

abbrev silent : Ovs
silent = record { vsctl = λ args. panic; decode = λ text. panic }

-- other pods come and go in between
abbrev later_uses : List Use
later_uses = queries host client ∷ deletes client ∷ queries silent db ∷ []

get_port_info-cached_example :
    get_port_info silent db (run_uses later_uses cached) ≡ (ok veth, run_uses later_uses cached)
unfolding get_port_info port_info_of port_cache_key_for_pod
get_port_info-cached_example =
    get_port_info-cached db veth host silent new_port_cache cached later_uses refl
      (tt, ((λ e. cc), (tt, tt)))

port_cache_frame_example :
    (lookup "shop/client" (get_port_info host db cached).1.store
      ≡ lookup "shop/client" cached.store)
    × (lookup "shop/client" (del_port_info db cached).store ≡ lookup "shop/client" cached.store)
    × (lookup "shop/db" (del_port_info db cached).store ≡ none)
unfolding port_cache_key_for_pod
port_cache_frame_example =
    port_cache_frame db host cached "shop/client" (λ e. cc (ap (λ s. str_eq s "shop/client") e))

port_cache_key-injective_example : (db.namespace ≡ db.namespace) × (db.name ≡ db.name)
port_cache_key-injective_example =
    port_cache_key-injective db db (refl, (refl, (refl, (refl, tt))))
      (refl, (refl, (refl, (refl, tt)))) refl

run-initialize_example :
    run
      (hello ∷ switch_features 42 ∷ echo_request ∷ [])
      (initialize (record { datapath_id = 0; sent = [] }))
    ≡ record { datapath_id = 42; sent = say_hello ∷ features_request ∷ echo_answer ∷ [] }
run-initialize_example =
    run-initialize (hello ∷ switch_features 42 ∷ echo_request ∷ [])
      (record { datapath_id = 0; sent = [] })
