-- ===== src/Cni/Releases.antt =====
-- What the plugin gives back where it deletes a container's interface.
use k_vswitch.Prelude.{ℕ, zero, suc, ◌≡◌, refl, ap, ◌∙◌, String, Bool, true, false, ◌&&◌, [], ◌∷◌}
use k_vswitch.Text.{non_empty}
use k_vswitch.Result.{Error, Result, ok, err}
use k_vswitch.Trace.{Trace, is_ok}
use k_vswitch.Trace.Keeps.{
  Keeps, Keeps-call, Keeps-attempt, Keeps-lift, Keeps-if, Keeps-deferred, Keeps-bind, Keeps-skip,
  Keeps-for_each, Reaches, Keeps-Reaches, Reaches-call, Reaches-if, Reaches-bind,
}
use k_vswitch.Cni.{get_pod_info, find_port_in, del_port}
use k_vswitch.Cni.Network.{NetConf}
use k_vswitch.Cni.Host.{
  CmdArgs, Call, enter_ns, leave_ns, find_ovs_port, del_ovs_port, del_link as del_link_call,
  ipam_del, Host,
}
use k_vswitch.Cni.Add.{load_net_conf}
use k_vswitch.Cni.Del.{deleted, unplug, clean_up, cmd_del}

-- whether the IPAM plugin took the address back
unfoldable pub returned : Trace Call → Bool
returned [] = false
returned ((ipam_del type stdin, true) ∷ t) = true
returned (e ∷ t) = returned t

-- whether a port was deleted from the bridge
unfoldable pub unplugged : Trace Call → Bool
unplugged [] = false
unplugged ((del_ovs_port bridge_name port, true) ∷ t) = true
unplugged (e ∷ t) = unplugged t

abbrev pub given_up : Trace Call → Bool × Bool
given_up t = (returned t, unplugged t)

-- asking for a port gives nothing up
find-given_up :
    (bridge_name netns : String) (t : Trace Call)
    → given_up ((find_ovs_port bridge_name netns, false) ∷ t) ≡ given_up t
unfolding returned unplugged
find-given_up bridge_name netns t = refl

module _ (host : Host) (conf : NetConf) (args : CmdArgs) where
  unplug-Reaches :
      (pod_namespace pod_name : String)
      → Reaches given_up (unplug host conf args pod_namespace pod_name) (false, false) (false, true)
  unfolding unplug returned unplugged
  unplug-Reaches pod_namespace pod_name =
      Reaches-bind given_up (false, false) (false, false) (false, true)
        (Keeps-Reaches given_up (false, false)
          (Keeps-call given_up (find_ovs_port conf.bridge_name args.netns)
            (λ t. find_port_in (host.ovs t) args.netns pod_namespace pod_name) (λ b t. refl)))
        (λ port_name.
          Reaches-call given_up (del_ovs_port conf.bridge_name port_name)
            (λ t. del_port (host.ovs t) conf.bridge_name port_name) (false, false) (false, true)
            (λ t h. ap (λ s. (s.0, true)) h))

  clean_up-Keeps : Keeps given_up (clean_up host conf args)
  unfolding clean_up returned unplugged
  clean_up-Keeps =
      Keeps-bind given_up
        (Keeps-bind given_up (Keeps-call given_up (enter_ns args.netns) _ (λ b t. refl)) (λ u.
          Keeps-deferred given_up
            (Keeps-bind given_up
              (Keeps-attempt given_up leave_ns (host.perform leave_ns) (λ b t. refl))
              (λ r. Keeps-skip given_up))
            (Keeps-bind given_up
              (Keeps-attempt given_up (del_link_call args.if_name) (host.del_link args.if_name)
                (λ b t. refl))
              (λ raw. Keeps-lift given_up (deleted raw)))))
        (λ ipnets.
          Keeps-if given_up (non_empty conf.ipam_type && conf.ip_masq)
            (Keeps-for_each given_up ipnets _ (λ ipn. Keeps-call given_up _ _ (λ b t. refl)))
            (Keeps-skip given_up))

  cmd_del-Reaches :
      load_net_conf host args.stdin ≡ ok conf
      → Reaches given_up
          (cmd_del host args)
          (false, false)
          (non_empty conf.ipam_type, non_empty args.netns)
  unfolding cmd_del returned unplugged
  cmd_del-Reaches loaded = rw loaded (
      Reaches-bind given_up (false, false) (false, false) _
        (Keeps-Reaches given_up (false, false) (Keeps-lift given_up (get_pod_info host.cni_args)))
        (λ pod.
          Reaches-bind given_up (false, false) (false, non_empty args.netns) _
            (Reaches-if given_up (non_empty args.netns) (false, false) (λ b. (false, b))
              (unplug-Reaches pod.0 pod.1)
              (Keeps-Reaches given_up (false, false) (Keeps-skip given_up)))
            (λ u.
              Reaches-bind given_up _ (non_empty conf.ipam_type, non_empty args.netns) _
                (Reaches-if given_up (non_empty conf.ipam_type) (false, non_empty args.netns)
                  (λ b. (b, non_empty args.netns))
                  (Reaches-call given_up (ipam_del conf.ipam_type args.stdin) _ _ _
                    (λ t h. ap (λ s. (true, s.1)) h))
                  (Keeps-Reaches given_up _ (Keeps-skip given_up)))
                (λ u. Keeps-Reaches given_up _ (
                  Keeps-if given_up (non_empty args.netns) clean_up-Keeps (Keeps-skip given_up))))))

  -- From an empty trace, and where the configuration is read, a deletion that succeeds has had the
  -- address taken back exactly where an IPAM plugin is configured, and a port deleted exactly where
  -- a network namespace is given.
  pub cmd_del-gives_up :
      load_net_conf host args.stdin ≡ ok conf
      → is_ok (cmd_del host args []).0 ≡ true
      → given_up (cmd_del host args []).1 ≡ (non_empty conf.ipam_type, non_empty args.netns)
  unfolding returned unplugged
  cmd_del-gives_up loaded good = (cmd_del-Reaches loaded).at [] refl good

  -- one call of the plugin after the other, each for the same container
  unfoldable pub retry : ℕ → Trace Call → Trace Call
  unfolding cmd_del
  retry zero t = t
  retry (suc n) t = (cmd_del host args (retry n t)).1

  -- a deletion that finds no port
  gone-stops :
      (pod : String × String) (e : Error) (t : Trace Call)
      → load_net_conf host args.stdin ≡ ok conf
      → get_pod_info host.cni_args ≡ ok pod
      → non_empty args.netns ≡ true
      → find_port_in (host.ovs t) args.netns pod.0 pod.1 ≡ err e
      → cmd_del host args t ≡ (err e, (find_ovs_port conf.bridge_name args.netns, false) ∷ t)
  unfolding cmd_del unplug
  gone-stops pod e t loaded named given gone = rw (loaded, named, given, gone) refl

  -- If the configuration and the pod's name are read and a network namespace is given, and ovs-vsctl
  -- finds no port of the pod once its port has been deleted: after a deletion that got as far as
  -- deleting the port, every further one fails, however often it is tried, and the IPAM plugin takes
  -- the address back in none of them; if the first one did not have it taken back, it stays given.
  pub cmd_del_again :
      (pod : String × String) (t : Trace Call)
      → load_net_conf host args.stdin ≡ ok conf
      → get_pod_info host.cni_args ≡ ok pod
      → non_empty args.netns ≡ true
      → ((s : Trace Call)
          → unplugged s ≡ true
          → (e : Error) × (find_port_in (host.ovs s) args.netns pod.0 pod.1 ≡ err e))
      → unplugged (cmd_del host args t).1 ≡ true
      → (n : ℕ)
      → (is_ok (cmd_del host args (retry n (cmd_del host args t).1)).0 ≡ false)
        × (given_up (retry n (cmd_del host args t).1) ≡ (returned (cmd_del host args t).1, true))
  unfolding retry
  cmd_del_again pod t loaded named given gone deleted n =
      let kept = after n in
      let (e, missing) = gone (retry n first) (ap (λ (x : Bool × Bool). x.1) kept) in
      (
        ap (λ (x : Result (Unit {0}) × Trace Call). is_ok x.0)
            (gone-stops pod e (retry n first) loaded named given missing),
        kept,
      )
    where
      first : Trace Call
      first = (cmd_del host args t).1

      step :
          (s : Trace Call)
          → given_up s ≡ (returned first, true)
          → given_up (cmd_del host args s).1 ≡ (returned first, true)
      step s kept =
          let (e, missing) = gone s (ap (λ (x : Bool × Bool). x.1) kept) in
          ap (λ (x : Result (Unit {0}) × Trace Call). given_up x.1)
            (gone-stops pod e s loaded named given missing)
          ∙ skipped s
          ∙ kept
        where
          skipped :
              (s : Trace Call)
              → given_up ((find_ovs_port conf.bridge_name args.netns, false) ∷ s) ≡ given_up s
          skipped s = find-given_up conf.bridge_name args.netns s

      after : (n : ℕ) → given_up (retry n first) ≡ (returned first, true)
      after zero = ap (λ b. (returned first, b)) deleted
      after (suc n) = step (retry n first) (after n)
