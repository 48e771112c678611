-- ===== src/Cni/Del.antt =====
-- `cmdDel` of cmd/k-vswitch-cni/plugin.go.
use k_vswitch.Prelude.{String, ◌&&◌, List, [], if◌then◌else◌}
use k_vswitch.Text.{non_empty}
use k_vswitch.Result.{Result, ok, err, panic, is_not_found}
use k_vswitch.Exec.{◌>>=◌, ◌>>◌, lift, skip, for_each}
use k_vswitch.Trace.{call, attempt}
use k_vswitch.Cni.{get_pod_info, find_port_in, del_port}
use k_vswitch.Cni.Network.{Net, NetConf}
use k_vswitch.Cni.Host.{
  CmdArgs, find_ovs_port, del_ovs_port, ipam_del, del_link as del_link_call, teardown_ip_masq, Host,
  C, perform, do_in,
}
use k_vswitch.Cni.Add.{load_net_conf}

-- if err != nil && err == ip.ErrLinkNotFound { return nil }
abbrev pub deleted : Result (List Net) → Result (List Net)
deleted (ok ipnets) = ok ipnets
deleted (err e) = if is_not_found e then ok [] else err e
deleted panic = panic

module _ (host : Host) where
  -- the port of the pod
  unfoldable pub unplug : NetConf → CmdArgs → (pod_namespace pod_name : String) → C (Unit {0})
  unfolding find_port_in del_port
  unplug conf args pod_namespace pod_name = do
    port_name ←
        call (find_ovs_port conf.bridge_name args.netns)
          (λ t. find_port_in (host.ovs t) args.netns pod_namespace pod_name)
    call (del_ovs_port conf.bridge_name port_name)
        (λ t. del_port (host.ovs t) conf.bridge_name port_name)

  -- the interface of the container, and the masquerading of its addresses
  unfoldable pub clean_up : NetConf → CmdArgs → C (Unit {0})
  unfolding for_each
  clean_up conf args = do
    ipnets ← do_in host args.netns (do
      raw ← attempt (del_link_call args.if_name) (host.del_link args.if_name)
      lift (deleted raw))
    if non_empty conf.ipam_type && conf.ip_masq
        then for_each ipnets (λ ipn. perform host (
            teardown_ip_masq ipn (host.format_chain_name conf.name args.container_id)
              (host.format_comment conf.name args.container_id)))
        else skip

  unfoldable pub cmd_del : CmdArgs → C (Unit {0})
  unfolding load_net_conf get_pod_info unplug clean_up
  cmd_del args = do
    conf ← lift (load_net_conf host args.stdin)
    pod ← lift (get_pod_info host.cni_args)
    (if non_empty args.netns then unplug conf args pod.0 pod.1 else skip)
    (if non_empty conf.ipam_type then perform host (ipam_del conf.ipam_type args.stdin) else skip)
    (if non_empty args.netns then clean_up conf args else skip)
