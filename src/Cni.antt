-- ===== src/Cni.antt =====
-- The parts of cmd/k-vswitch-cni/plugin.go that talk to the kubelet and to ovs-vsctl: what CNI_ARGS
-- names, and the ports of the bridge. Running ovs-vsctl and decoding its JSON are parameters.
pub mod PodInfo
pub mod Network
pub mod Host
pub mod BridgeAddr
pub mod Add
pub mod Del
pub mod Quiet
pub mod Leases
pub mod Releases
pub mod Tests
use k_vswitch.Prelude.{String, Bool, List, [], ◌∷◌, if◌then◌else◌}
use k_vswitch.Text.{◌++◌, non_empty, contains, trim_prefix, split, remove}
use k_vswitch.Result.{msg, Result, ok, err, ◌>>=◌, context}
use k_vswitch.OpenFlow.Ovs.{Ovs, first_column}

-- the loop of `getPodInfo` over the arguments, with the namespace and the name found before
unfoldable pub pod_info_from : List String → (pod_namespace pod_name : String) → String × String
unfolding contains trim_prefix
pod_info_from [] pod_namespace pod_name = (pod_namespace, pod_name)
pod_info_from (arg ∷ args) pod_namespace pod_name =
    let names_namespace = contains "K8S_POD_NAMESPACE" arg in
    let names_pod = contains "K8S_POD_NAME" arg in
    pod_info_from args
      (if names_namespace then trim_prefix "K8S_POD_NAMESPACE=" arg else pod_namespace)
      (if names_namespace
        then pod_name
        else if names_pod
        then trim_prefix "K8S_POD_NAME=" arg
        else pod_name)

-- `getPodInfo`, on the value of CNI_ARGS
unfoldable pub get_pod_info : String → Result (String × String)
unfolding pod_info_from split
get_pod_info cni_args =
    if non_empty cni_args
    then ok (pod_info_from (split ";" cni_args) "" "")
    else err (msg "env var CNI_ARGS was empty")

unfoldable pub normalized_net_ns : String → String
unfolding remove
normalized_net_ns netns = remove "/" netns

module _ (ovs : Ovs) where
  unfoldable pub add_port :
      (bridge_name port container_mac net_ns pod_namespace pod_name : String) → Result (Unit {0})
  add_port bridge_name port container_mac net_ns pod_namespace pod_name = do
    out ← context "failed to add OVS port" (
        ovs.vsctl (
          "--may-exist"
          ∷ "add-port"
          ∷ bridge_name
          ∷ port
          ∷ "--"
          ∷ "set"
          ∷ "port"
          ∷ port
          ∷ ("external-ids:netns=" ++ normalized_net_ns net_ns)
          ∷ ("external-ids:k8s_pod_namespace=" ++ pod_namespace)
          ∷ ("external-ids:k8s_pod_name=" ++ pod_name)
          ∷ "--"
          ∷ "set"
          ∷ "interface"
          ∷ port
          ∷ ("external-ids:netns=" ++ normalized_net_ns net_ns)
          ∷ ("external-ids:k8s_pod_namespace=" ++ pod_namespace)
          ∷ ("external-ids:k8s_pod_name=" ++ pod_name)
          ∷ "--"
          ∷ "set"
          ∷ "port"
          ∷ port
          ∷ ("mac=\"" ++ container_mac ++ "\"")
          ∷ []))
    ok tt

  unfoldable pub del_port : (bridge port : String) → Result (Unit {0})
  del_port bridge port = do
    out ←
        context "failed to delete OVS port"
          (ovs.vsctl ("--if-exists" ∷ "del-port" ∷ bridge ∷ port ∷ []))
    ok tt

  -- `findPort` of the plugin
  unfoldable pub find_port_in : (net_ns pod_namespace pod_name : String) → Result String
  unfolding first_column
  find_port_in net_ns pod_namespace pod_name = do
    out ← context "failed to get OVS port with net namespace" (
        ovs.vsctl (
          "--format=json"
          ∷ "--column=name"
          ∷ "find"
          ∷ "port"
          ∷ ("external-ids:netns=" ++ normalized_net_ns net_ns)
          ∷ ("external-ids:k8s_pod_namespace=" ++ pod_namespace)
          ∷ ("external-ids:k8s_pod_name=" ++ pod_name)
          ∷ []))
    rows ← ovs.decode out
    first_column rows
