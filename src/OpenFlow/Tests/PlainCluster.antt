-- ===== src/OpenFlow/Tests/PlainCluster.antt =====
-- A cluster of two nodes, two pods and one policy, and the command that `syncFlows` of
-- controllers/openflow/flows.go issues for it.
use mathlib.Core.Path.{subst}
use k_vswitch.Prelude.{
  pos, ◌≡◌, refl, ap, String, Bool, true, false, some, List, [], ◌∷◌, All, str_eq, if◌then◌else◌,
  arith,
}
use k_vswitch.Text.Decimal.RoundTrip.{FitsInt}
use k_vswitch.Net.{parse_cidr}
use k_vswitch.Result.{Result}
use k_vswitch.Flows.{Flow}
use k_vswitch.Flows.Buffer.{Command, new_flows_buffer, sync_flows_command}
use k_vswitch.Flows.Buffer.Emits.{put_flows}
use k_vswitch.Flows.Reader.{read_lines}
use k_vswitch.OpenFlow.Kube.{Pod, Selector, everything, from_set, IntOrString, int, listed}
use k_vswitch.OpenFlow.PortCache.{new_port_cache}
use k_vswitch.OpenFlow.Controller.{Controller, new_controller, sync_flows}
use k_vswitch.OpenFlow.Controller.Sync.{wanted, sync_flows-installs}
use k_vswitch.OpenFlow.Legible.Pods.{IsPlainPod}
use k_vswitch.OpenFlow.Legible.Cluster.{IsPlainCluster}
use k_vswitch.OpenFlow.Controller.Installed.{IsAnswered, installed_flows}
use k_vswitch.OpenFlow.Tests.Cluster.{
  db, client, pods_of, number, db_policy, config, worker_2, env, block, host-Answers,
}

listed_value : (xs ys : List Pod) → listed xs ≡ listed ys → xs ≡ ys
listed_value xs ys h = cc

-- all pods of the cluster have plain addresses
cluster-lists :
    (namespace : String) (sel : Selector) (pods : List Pod)
    → pods_of sel ≡ listed pods
    → All IsPlainPod pods
cluster-lists namespace everything pods e =
    subst (All IsPlainPod) (listed_value _ pods e) (refl, (refl, tt))
cluster-lists namespace (from_set []) pods e =
    subst (All IsPlainPod) (listed_value _ pods e) (refl, (refl, tt))
cluster-lists namespace (from_set ((k, v) ∷ rest)) pods e = by_test (str_eq v "db") e
  where
    by_test :
        (b : Bool)
        → (if b then listed (db ∷ []) else listed (client ∷ [])) ≡ listed pods
        → All IsPlainPod pods
    by_test true q = subst (All IsPlainPod) (listed_value _ pods q) (refl, tt)
    by_test false q = subst (All IsPlainPod) (listed_value _ pods q) (refl, tt)

plain_number : (i : IntOrString) → some (int (pos 5432)) ≡ some i → FitsInt (number i)
plain_number i e = subst (λ j. FitsInt (number j)) (same (int (pos 5432)) i e) (omega arith)
  where
    same : (a b : IntOrString) → some a ≡ some b → a ≡ b
    same a b q = cc

pub plain_cluster :
    IsPlainCluster env config (worker_2 ∷ []) (db ∷ client ∷ []) (db_policy ∷ []) new_port_cache
plain_cluster = record {
  config = record {
    gateway_ip = refl;
    bridge_mac = refl;
    cluster_wide_mac = refl;
    pod_cidr = refl;
    cluster_cidr = refl;
    cluster_wide_ofport = omega arith;
    overlay_ofport = omega arith;
  };
  nodes = ((refl, refl), tt);
  addresses = (refl, (refl, tt));
  policies = (((((plain_number, tt), ((λ b e. cc), tt)), tt), tt), tt);
  lists = cluster-lists;
  ports = tt;
}

pub answered :
    IsAnswered env (new_controller config) block (worker_2 ∷ []) (db ∷ client ∷ []) (db_policy ∷ [])
unfolding parse_cidr
answered = record {
  is_net = refl;
  answers = host-Answers;
  vswitches = refl;
  listed_pods = refl;
  policies = refl;
  complete = ((((((int (pos 5432), "TCP", refl, refl), tt), tt)), tt), tt);
}

abbrev pub flows : List Flow
flows =
    (wanted env config block (worker_2 ∷ []) (db ∷ client ∷ []) (db_policy ∷ []) new_port_cache).0

abbrev pub replacing : Command
replacing = sync_flows_command "k-vswitch0" (put_flows flows new_flows_buffer)

pub replacing_is_issued : (sync_flows env (new_controller config)).1.issued ≡ replacing ∷ []
replacing_is_issued =
    ap (λ (a : Result (Unit {0}) × Controller). a.1.issued)
      (sync_flows-installs env (new_controller config) block (worker_2 ∷ []) (db ∷ client ∷ [])
        (db_policy ∷ []) answered.is_net host-Answers refl refl refl answered.complete)

-- what is read from the command's input
abbrev pub read : List Flow
read = read_lines replacing.input

pub read_is_wanted : read ≡ flows
read_is_wanted =
    installed_flows env (new_controller config) block (worker_2 ∷ []) (db ∷ client ∷ [])
      (db_policy ∷ []) answered plain_cluster replacing replacing_is_issued
