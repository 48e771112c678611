-- ===== src/Daemon/Setup.antt =====
-- The daemon makes the calls of its plan.
use k_vswitch.Prelude.{◌≡◌, String, List, [], ◌∷◌, ◌++◌}
use mathlib.Core.Path.{ap₂, subst}
use k_vswitch.Text.{◌++◌ as text_append}
use k_vswitch.Net.{IpNet}
use k_vswitch.Result.{Result, ok, err, panic}
use k_vswitch.Exec.{◌>>◌, lift}
use k_vswitch.Trace.{is_ok}
use k_vswitch.Trace.Plan.{
  Item, makes, checks, Follows, Follows-call, Follows-lift, Follows-annotated, Follows-bind,
}
use k_vswitch.VSwitchCfg.{VSwitchConfig}
use k_vswitch.Daemon.{
  note, find_link, setup_ovs_bridge_if_not_exists, setup_cluster_wide_internal_port,
  setup_overlay_port, set_secure_fail_mode, set_controller_target, setup_bridge_forwarding,
  setup_modules_and_sysctls, prepare, start, perform,
}
use k_vswitch.Daemon.Outside.{
  Link, Call, write_file, vsctl, modprobe, link_by_name, link_set_up, addr_replace, route_replace,
  interface_by_name, new_iptables, append_unique, new_of_connect, new_controller,
  add_event_handlers, initialize, wait_for_cache_sync, start_informers, go_process_queue, go_serve,
  go_run, Host, D, bridge_name, cluster_wide_port, overlay_port, default_controller_target,
  accept_out, accept_in, masquerade_pods, masquerade_outside, cluster_comment, service_comment,
  netlink_addr_for_local, netlink_route_for_cluster,
}
use k_vswitch.Daemon.Plan.{
  IsStable, value_or, no_net, Any, bridge_plan, cluster_wide_plan, sysctl_plan, forwarding_plan,
  prepare_plan, start_plan,
}

module _ (host : Host) where
  perform-Follows : (c : Call) → Follows (perform host c) (makes c ∷ []) Any
  perform-Follows c = Follows-call c (host.perform c) Any (λ t a h. tt)

  note-Follows : (c : Call) → Follows (note host c) (makes c ∷ []) Any
  note-Follows c = Follows-call c (λ t. ok tt) Any (λ t a h. tt)

  -- a call that returns only an error, and what comes after it
  performs :
      (c : Call) {m : D (Unit {0})} {plan : List (Item Call)}
      → Follows m plan Any
      → Follows (perform host c >> m) (makes c ∷ plan) Any
  performs c h = Follows-bind (perform-Follows c) (λ u p. h)

  notes :
      (c : Call) {m : D (Unit {0})} {plan : List (Item Call)}
      → Follows m plan Any
      → Follows (note host c >> m) (makes c ∷ plan) Any
  notes c h = Follows-bind (note-Follows c) (λ u p. h)

  pub forwarding-Follows :
      (pod_cidr cluster_cidr service_cidr : String)
      → Follows
          (setup_bridge_forwarding host pod_cidr cluster_cidr service_cidr)
          (forwarding_plan pod_cidr cluster_cidr service_cidr)
          Any
  unfolding setup_bridge_forwarding
  forwarding-Follows pod_cidr cluster_cidr service_cidr = performs new_iptables (
      performs (append_unique "filter" "FORWARD" accept_out) (
        performs (append_unique "filter" "FORWARD" accept_in) (
          performs (append_unique "nat" "POSTROUTING" (masquerade_pods pod_cidr)) (
            performs
              (append_unique "nat" "POSTROUTING" (masquerade_outside cluster_cidr cluster_comment))
              (perform-Follows (
                append_unique "nat" "POSTROUTING"
                  (masquerade_outside service_cidr service_comment)))))))

  sysctl-Follows : Follows (setup_modules_and_sysctls host) sysctl_plan Any
  unfolding setup_modules_and_sysctls
  sysctl-Follows =
      Follows-bind (Follows-annotated _ (perform-Follows (modprobe "br_netfilter"))) (λ u p.
        Follows-bind
          (Follows-annotated _
            (perform-Follows (write_file "/proc/sys/net/bridge/bridge-nf-call-iptables" "1")))
          (λ u p.
            Follows-annotated _ (perform-Follows (write_file "/proc/sys/net/ipv4/ip_forward" "1"))))

  module _ (links : String → Link) (macs : String → String)
      (stable : IsStable host links macs) where
    link-Follows :
        (name : String)
        → Follows (find_link host name) (makes (link_by_name name) ∷ []) (λ l. l ≡ links name)
    link-Follows name =
        Follows-call (link_by_name name) (host.link name) (λ l. l ≡ links name) (stable.link name)

    bridge-Follows : Follows (setup_ovs_bridge_if_not_exists host) (bridge_plan links) Any
    unfolding setup_ovs_bridge_if_not_exists
    bridge-Follows =
        Follows-bind
          (Follows-annotated _
            (perform-Follows (vsctl ("--may-exist" ∷ "add-br" ∷ bridge_name ∷ []))))
          (λ u p.
            Follows-bind (Follows-annotated _ (link-Follows bridge_name)) (λ l e.
              Follows-annotated _ (rw e (perform-Follows (link_set_up (links bridge_name))))))

    cluster_wide-Follows :
        Follows (setup_cluster_wide_internal_port host) (cluster_wide_plan links) Any
    unfolding setup_cluster_wide_internal_port
    cluster_wide-Follows =
        Follows-bind
          (Follows-annotated _ (
            perform-Follows (
              vsctl (
                "--may-exist" ∷ "add-port" ∷ bridge_name ∷ cluster_wide_port ∷ "--" ∷ "set"
                ∷ "Interface" ∷ cluster_wide_port ∷ "type=internal" ∷ []))))
          (λ u p. Follows-bind (Follows-annotated _ (link-Follows cluster_wide_port)) (λ l e.
            Follows-annotated _ (rw e (perform-Follows (link_set_up (links cluster_wide_port))))))

    value_or_lem : (r : Result IpNet) (a : IpNet) → r ≡ ok a → a ≡ value_or no_net r
    value_or_lem (ok b) a h = cc
    value_or_lem (err e) a h = cc
    value_or_lem panic a h = cc

    value-Follows :
        (r : Result IpNet)
        → Follows {E = Call} (lift r) (checks (is_ok r) ∷ []) (λ a. a ≡ value_or no_net r)
    value-Follows r = Follows-lift r (λ a. a ≡ value_or no_net r) (value_or_lem r)

    -- a call whose arguments are known by an equation
    performs_as :
        {c d : Call} {m : D (Unit {0})} {plan : List (Item Call)}
        → c ≡ d
        → Follows m plan Any
        → Follows (perform host c >> m) (makes d ∷ plan) Any
    performs_as {c} {d} {m} {plan} e h =
        subst (λ x. Follows (perform host c >> m) (makes x ∷ plan) Any) e (performs c h)

    -- If the links stay what they are, then preparing the host makes the planned calls in their order;
    -- where one fails, or a CIDR cannot be read, none after it is made, and the error is returned.
    pub prepare-Follows :
        (cfg : VSwitchConfig) → Follows (prepare host cfg) (prepare_plan host.next_ip links cfg) Any
    unfolding prepare setup_overlay_port set_controller_target set_secure_fail_mode
    prepare-Follows cfg = Follows-bind bridge-Follows (λ u p.
        Follows-bind cluster_wide-Follows (λ u p.
          Follows-bind
            (Follows-annotated _ (
              perform-Follows (
                vsctl (
                  "--may-exist"
                  ∷ "add-port"
                  ∷ bridge_name
                  ∷ overlay_port
                  ∷ "--"
                  ∷ "set"
                  ∷ "Interface"
                  ∷ overlay_port
                  ∷ text_append "type=" cfg.spec.overlay_type
                  ∷ "option:remote_ip=flow"
                  ∷ "option:key=flow"
                  ∷ []))))
            (λ u p. Follows-bind (link-Follows bridge_name) (λ l e.
              Follows-bind (link-Follows cluster_wide_port) (λ m f.
                Follows-bind (value-Follows (netlink_addr_for_local host.next_ip cfg.spec.pod_cidr))
                  (λ a g. performs_as (ap₂ addr_replace e g) (
                    Follows-bind (value-Follows (netlink_route_for_cluster cfg.spec.cluster_cidr))
                      (λ r h. performs_as (ap₂ (λ (x : Link) n. route_replace x.index n) f h) (
                        Follows-bind
                          (Follows-annotated _ (
                            perform-Follows (
                              vsctl
                                ("set-controller" ∷ bridge_name ∷ default_controller_target ∷ []))))
                          (λ u p.
                            Follows-bind
                              (Follows-annotated _ (
                                perform-Follows
                                  (vsctl ("set-fail-mode" ∷ bridge_name ∷ "secure" ∷ []))))
                              (λ u p. Follows-bind (sysctl-Follows) (λ u p.
                                forwarding-Follows cfg.spec.pod_cidr cfg.spec.cluster_cidr
                                  cfg.spec.service_cidr))))))))))))

    -- If the hardware addresses stay what they are, then the controller is made with those of the
    -- bridge and of the cluster-wide port, and the rest is started after it in the planned order.
    start-Follows :
        (node_name pod_cidr cluster_cidr : String)
        → Follows
            (start host node_name pod_cidr cluster_cidr)
            (start_plan macs node_name pod_cidr cluster_cidr)
            Any
    unfolding start
    start-Follows node_name pod_cidr cluster_cidr =
        Follows-bind
          (Follows-call (interface_by_name bridge_name) (host.hardware_addr bridge_name)
            (λ m. m ≡ macs bridge_name) (stable.mac bridge_name))
          (λ m e.
            Follows-bind
              (Follows-call (interface_by_name cluster_wide_port)
                (host.hardware_addr cluster_wide_port) (λ m. m ≡ macs cluster_wide_port)
                (stable.mac cluster_wide_port))
              (λ n f. performs new_of_connect (
                performs_as
                  (ap₂ (λ x y. new_controller bridge_name x y node_name pod_cidr cluster_cidr) e f)
                  (notes add_event_handlers (
                    performs initialize (
                      notes wait_for_cache_sync (
                        notes start_informers
                          (notes go_process_queue (notes go_serve (note-Follows go_run))))))))))

    -- If links and hardware addresses stay what they are while the daemon starts, then, once it has the
    -- configuration of its node, it prepares the host and starts the controller by the planned calls,
    -- in their order; where one fails, or a CIDR cannot be read, the calls before it have succeeded,
    -- none after it is made, and the daemon exits with the error.
    pub prepare-start-Follows :
        (cfg : VSwitchConfig) (node_name : String)
        → Follows
            (prepare host cfg >> start host node_name cfg.spec.pod_cidr cfg.spec.cluster_cidr)
            (prepare_plan host.next_ip links cfg
              ++ start_plan macs node_name cfg.spec.pod_cidr cfg.spec.cluster_cidr)
            Any
    prepare-start-Follows cfg node_name =
        Follows-bind (prepare-Follows cfg)
          (λ u p. start-Follows node_name cfg.spec.pod_cidr cfg.spec.cluster_cidr)
