-- ===== src/OpenFlow/Tests/Cluster.antt =====
-- A node with one pod, one policy and one peer: what its listers and ovs-vsctl answer.
use k_vswitch.Prelude.{ℤ, pos, String, none, some, List, [], ◌∷◌, str_eq, if◌then◌else◌}
use k_vswitch.Net.{IpNet}
use k_vswitch.Result.{Result, ok}
use k_vswitch.VSwitchCfg.{VSwitchConfig}
use k_vswitch.OpenFlow.Kube.{
  Pod, Selector, everything, from_set, IntOrString, int, str, PolicyPort, PolicyRule, NetworkPolicy,
  Listing, listed,
}
use k_vswitch.OpenFlow.Config.{Config}
use k_vswitch.OpenFlow.Policy.{Lookup}
use k_vswitch.OpenFlow.Ovs.{Ovs, PortInfo, port_info_of}
use k_vswitch.OpenFlow.Controller.{Env}
use k_vswitch.OpenFlow.Controller.Steps.{Answers}

abbrev pub db : Pod
db = record { namespace = "shop"; name = "db"; pod_ip = "10.1.7.5" }

abbrev pub client : Pod
client = record { namespace = "shop"; name = "client"; pod_ip = "10.1.9.8" }

-- the pods that a selector finds, by the value of its first label
abbrev pub pods_of : Selector → Listing Pod
pods_of everything = listed (db ∷ client ∷ [])
pods_of (from_set []) = listed (db ∷ client ∷ [])
pods_of (from_set ((k, v) ∷ rest)) =
    if str_eq v "db" then listed (db ∷ []) else listed (client ∷ [])

abbrev pub number : IntOrString → ℤ
number (int n) = n
number (str s) = pos 0

abbrev pub cluster : Lookup
cluster = record {
  list_pods_in = λ namespace. pods_of;
  list_namespaces = λ sel. listed [];
  int_value = number;
}

abbrev pub db_port : PolicyPort
db_port = record { protocol = some "TCP"; port = some (int (pos 5432)) }

abbrev pub from_client : PolicyRule
from_client = record {
  ports = db_port ∷ [];
  peers =
      record {
        ip_block = none;
        pod_selector = some (("app", "client") ∷ []);
        namespace_selector = none;
      }
      ∷ [];
}

abbrev pub db_policy : NetworkPolicy
db_policy = record {
  namespace = "shop";
  name = "db";
  pod_selector = ("app", "db") ∷ [];
  ingress = from_client ∷ [];
  egress = [];
}

abbrev pub reply : List String → Result String
reply (get ∷ table ∷ port ∷ column ∷ []) =
    if str_eq column "mac" then ok "\"0e:00:00:00:00:05\"\n" else ok "7\n"
reply _ = ok "{}"

abbrev pub host : Ovs
host = record { vsctl = reply; decode = λ text. ok (("veth5" ∷ []) ∷ []) }

abbrev pub config : Config
config = record {
  node_name = "worker-1";
  bridge_name = "k-vswitch0";
  gateway_ip = "10.1.7.1";
  bridge_mac = "0e:00:00:00:00:01";
  cluster_wide_mac = "0e:00:00:00:00:02";
  pod_cidr = "10.1.7.0/24";
  cluster_cidr = "10.0.0.0/8";
  cluster_wide_ofport = pos 1;
  overlay_ofport = pos 2;
}

abbrev pub worker_2 : VSwitchConfig
worker_2 = record {
  name = "worker-2";
  resource_version = "4";
  spec = record {
    pod_cidr = "10.1.9.0/24";
    cluster_cidr = "10.0.0.0/8";
    service_cidr = "10.96.0.0/12";
    overlay_ip = "172.20.0.9";
    overlay_type = "vxlan";
  };
}

abbrev pub env : Env
env = record {
  lookup = cluster;
  list_vswitches = listed (worker_2 ∷ []);
  list_pods = listed (db ∷ client ∷ []);
  list_policies = listed (db_policy ∷ []);
  ovs = host;
  run = λ command. ok "";
}

abbrev pub block : IpNet
block = record { ip = 167839488; ones = 24 }

abbrev pub veth : PortInfo
veth = record { name = "veth5"; ofport = pos 7; mac = "0e:00:00:00:00:05" }

pub host-Answers : Answers host
unfolding port_info_of
host-Answers namespace name h = cc
