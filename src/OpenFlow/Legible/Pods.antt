-- ===== src/OpenFlow/Legible/Pods.antt =====
-- The flows of the pods of controllers/openflow/flows.go can be read back, whatever ovs-vsctl
-- answers: a port's number is read by strconv.Atoi.
use k_vswitch.Prelude.{
  refl, Bool, true, false, ◌&&◌, List, [], ◌∷◌, pos, All, All-append, arith, if◌then◌else◌,
}
use k_vswitch.Text.{non_empty}
use k_vswitch.Net.{IpNet, parse_ip, contains}
use k_vswitch.Result.{Result, ok, err, panic}
use k_vswitch.Flows.{Flow}
use k_vswitch.Flows.Reader.Plain.{IsPlain-with_action_output_port, IsPlain-with_action_mod_dl_dest}
use k_vswitch.Flows.Reader.Lines.{IsLegible, plain}
use k_vswitch.OpenFlow.Kube.{Pod}
use k_vswitch.OpenFlow.Config.{pod_mac_addr}
use k_vswitch.OpenFlow.Ovs.{Ovs, PortInfo}
use k_vswitch.OpenFlow.PortCache.{PortCache, get_port_info}
use k_vswitch.OpenFlow.PortCache.Entries.{OnOk}
use k_vswitch.OpenFlow.PortCache.Bounds.{HasPort, AllFit, get_port_info-Fits}
use k_vswitch.OpenFlow.Controller.Adds.{each_of}
use k_vswitch.OpenFlow.Controller.Steps.{of_answer, pod_list}
use k_vswitch.OpenFlow.Legible.{IsText, to_block-IsPlain, arp-IsLegible}

abbrev pub IsPlainPod : Pod → Type 0
IsPlainPod pod = IsText pod.pod_ip

-- legible flows, and a cache of ports that fit
abbrev AreFine : List Flow × PortCache → Type 0
AreFine (fs, p) = All IsLegible fs × AllFit p.store

answer-AreFine :
    (pod : Pod) (a : Result PortInfo × PortCache)
    → IsPlainPod pod
    → OnOk HasPort a.0
    → AllFit a.1.store
    → AreFine (of_answer pod a)
answer-AreFine pod (ok info, q) h k l = (
  (
    plain (
        IsPlain-with_action_output_port _
          (IsPlain-with_action_mod_dl_dest _
            (to_block-IsPlain (pos 60) (pos 100) pod.pod_ip (omega arith) (omega arith) h)
            pod_mac_addr refl)
          info.ofport k),
    (arp-IsLegible pod.pod_ip pod_mac_addr h refl, tt),
  ),
  l,
)
answer-AreFine pod (err e, q) h k l = (tt, l)
answer-AreFine pod (panic, q) h k l = (tt, l)

pod-AreFine :
    (ovs : Ovs) (net : IpNet) (pod : Pod) (p : PortCache)
    → IsPlainPod pod
    → AllFit p.store
    → AreFine (pod_list ovs net pod p)
pod-AreFine ovs net pod p h k = by_test (non_empty pod.pod_ip && contains net (parse_ip pod.pod_ip))
  where
    by_test : (b : Bool) → AreFine (if b then of_answer pod (get_port_info ovs pod p) else ([], p))
    by_test true =
        let (port, cache) = get_port_info-Fits ovs pod p k in
        answer-AreFine pod (get_port_info ovs pod p) h port cache
    by_test false = (tt, k)

pub pods-AreFine :
    (ovs : Ovs) (net : IpNet) (pods : List Pod) (p : PortCache)
    → All IsPlainPod pods
    → AllFit p.store
    → All IsLegible (each_of (pod_list ovs net) pods p).0
pods-AreFine ovs net [] p h k = tt
pods-AreFine ovs net (pod ∷ pods) p h k =
    let (here, cache) = pod-AreFine ovs net pod p h.0 k in
    All-append IsLegible (pod_list ovs net pod p).0
      (each_of (pod_list ovs net) pods (pod_list ovs net pod p).1).0 here
      (pods-AreFine ovs net pods (pod_list ovs net pod p).1 h.1 cache)
