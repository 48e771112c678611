-- ===== src/Cni/Quiet.antt =====
-- What a trace of the plugin says about the address of the container and about the result, and the
-- operations that change neither.
use k_vswitch.Prelude.{refl, Bool, true, false, List, [], ◌∷◌, String, str_eq, if◌then◌else◌}
use k_vswitch.Result.{Result}
use k_vswitch.Exec.{◌>>=◌, for_each, annotated, pure, lift, skip}
use k_vswitch.Trace.{Trace}
use k_vswitch.Trace.Keeps.{
  Keeps, IsSilent, Keeps-call, Keeps-attempt, Keeps-lift, Keeps-pure, Keeps-annotated,
  Keeps-deferred, Keeps-if, Keeps-bind, Keeps-skip, Keeps-for_each,
}
use k_vswitch.Cni.{get_pod_info}
use k_vswitch.Cni.Network.{
  Family, family_v4, family_v6, Net, net_eq, IpConfig, Route, GwInfo, NetConf,
}
use k_vswitch.Cni.Host.{
  CmdArgs, Interface, CniResult, Call, get_ns, enter_ns, close_ns, leave_ns, link_by_name,
  interface_by_name, create_veth, read_file, write_file, link_set_hardware_addr, link_set_up,
  add_ovs_port, ipam_add, ipam_del, configure_iface, gratuitous_arp, addr_list, addr_add, addr_del,
  enable_ip4_forward, enable_ip6_forward, print_result, Host, C, perform, note, find_link, do_in,
  bridge_by_name,
}
use k_vswitch.Cni.BridgeAddr.{
  conflicts, listed, delete_bridge_addr, add_bridge_addr, ensure_from, ensure_bridge_addr,
}
use k_vswitch.Cni.Add.{
  default_bridge_name, pod_mac_addr, is_enhanced, enables_v4, dad_file, non_nil,
  get_bridge_interface, setup_veth, disable_ipv6_dad, enable_ip_forward, override_mac, plug,
  configure_container, set_gateways, masquerade, configure, finish,
}

-- Whether the IPAM plugin has given an address that it was not asked to take back.
unfoldable pub held : Trace Call → Bool
held [] = false
held ((ipam_add type stdin, true) ∷ t) = true
held ((ipam_del type stdin, b) ∷ t) = false
held (e ∷ t) = held t

-- Whether the result was handed to standard output.
unfoldable pub printed : Trace Call → Bool
printed [] = false
printed ((print_result r, b) ∷ t) = true
printed (e ∷ t) = printed t

abbrev pub status : Trace Call → Bool × Bool
status t = (held t, printed t)

-- changes neither
abbrev pub IsQuiet : {A : Type 0} → C A → Type 0
IsQuiet m = Keeps status m

abbrev Silent : Call → Type 0
Silent e = IsSilent status e

module _ {A : Type 0} where
  annotated-IsQuiet : (text : String) {m : C A} → IsQuiet m → IsQuiet (annotated text m)
  annotated-IsQuiet text h = Keeps-annotated status text h

  pure-IsQuiet : (a : A) → IsQuiet (pure a)
  pure-IsQuiet a = Keeps-pure status a

  lift-IsQuiet : (r : Result A) → IsQuiet (lift r)
  lift-IsQuiet r = Keeps-lift status r

  if-IsQuiet : (b : Bool) {m n : C A} → IsQuiet m → IsQuiet n → IsQuiet (if b then m else n)
  if-IsQuiet b h k = Keeps-if status b h k

bind-IsQuiet :
    {A B : Type 0} {m : C A} {f : A → C B}
    → IsQuiet m
    → ((a : A) → IsQuiet (f a))
    → IsQuiet (m >>= f)
bind-IsQuiet h k = Keeps-bind status h k

for_each-IsQuiet :
    {X : Type 0} (xs : List X) (body : X → C (Unit {0}))
    → ((x : X) → IsQuiet (body x))
    → IsQuiet (for_each xs body)
for_each-IsQuiet xs body h = Keeps-for_each status xs body h

skip-IsQuiet : IsQuiet skip
skip-IsQuiet = Keeps-skip status

module _ (host : Host) where
  perform-IsQuiet : (e : Call) → Silent e → IsQuiet (perform host e)
  perform-IsQuiet e silent = Keeps-call status e (host.perform e) silent

  pub note-IsQuiet : (e : Call) → Silent e → IsQuiet (note host e)
  note-IsQuiet e silent =
      bind-IsQuiet (Keeps-attempt status e (host.perform e) silent) (λ r. skip-IsQuiet)

  do_in-IsQuiet :
      {A : Type 0} (netns : String) {body : C A} → IsQuiet body → IsQuiet (do_in host netns body)
  unfolding held printed
  do_in-IsQuiet netns h =
      bind-IsQuiet (perform-IsQuiet (enter_ns netns) (λ b t. refl))
        (λ u. Keeps-deferred status (note-IsQuiet leave_ns (λ b t. refl)) h)

  find_link-IsQuiet : (name : String) → IsQuiet (find_link host name)
  unfolding held printed
  find_link-IsQuiet name = Keeps-call status (link_by_name name) (host.link name) (λ b t. refl)

  pub bridge_by_name-IsQuiet : (name : String) → IsQuiet (bridge_by_name host name)
  unfolding bridge_by_name
  bridge_by_name-IsQuiet name = annotated-IsQuiet "could not lookup" (find_link-IsQuiet name)

  pub get_bridge_interface-IsQuiet : IsQuiet (get_bridge_interface host)
  unfolding get_bridge_interface
  get_bridge_interface-IsQuiet =
      bind-IsQuiet
        (annotated-IsQuiet "failed to fetch bridge" (bridge_by_name-IsQuiet default_bridge_name))
        (λ br. pure-IsQuiet _)

  pub get_ns-IsQuiet :
      (netns : String) → IsQuiet (annotated "failed to open netns" (perform host (get_ns netns)))
  unfolding held printed
  get_ns-IsQuiet netns =
      annotated-IsQuiet "failed to open netns" (perform-IsQuiet (get_ns netns) (λ b t. refl))

  pub close_ns-IsQuiet : IsQuiet (note host close_ns)
  unfolding held printed
  close_ns-IsQuiet = note-IsQuiet close_ns (λ b t. refl)

  pub setup_veth-IsQuiet : (netns if_name : String) → IsQuiet (setup_veth host netns if_name)
  unfolding setup_veth held printed
  setup_veth-IsQuiet netns if_name =
      bind-IsQuiet
        (do_in-IsQuiet netns
          (Keeps-call status (create_veth if_name 1500) (host.veth if_name) (λ b t. refl)))
        (λ pair.
          bind-IsQuiet (annotated-IsQuiet "failed to lookup" (find_link-IsQuiet pair.0.name))
            (λ host_veth. pure-IsQuiet _))

  pub override_mac-IsQuiet : (args : CmdArgs) → IsQuiet (override_mac host args)
  unfolding override_mac held printed
  override_mac-IsQuiet args = annotated-IsQuiet "failed to override pod MAC address" (
      do_in-IsQuiet args.netns (
        bind-IsQuiet (find_link-IsQuiet args.if_name)
          (λ link. perform-IsQuiet (link_set_hardware_addr link.name pod_mac_addr) (λ b t. refl))))

  pub plug-IsQuiet :
      (conf : NetConf) (args : CmdArgs) (host_interface container_interface : Interface)
      → IsQuiet (plug host conf args host_interface container_interface)
  unfolding plug held printed
  plug-IsQuiet conf args host_interface container_interface =
      bind-IsQuiet (lift-IsQuiet (get_pod_info host.cni_args)) (λ pod.
        bind-IsQuiet
          (Keeps-call status (add_ovs_port conf.bridge_name host_interface.name) _ (λ b t. refl))
          (λ u.
            bind-IsQuiet (find_link-IsQuiet host_interface.name)
              (λ host_link. perform-IsQuiet (link_set_up host_link.name) (λ b t. refl))))

  disable_ipv6_dad-IsQuiet : (if_name : String) → IsQuiet (disable_ipv6_dad host if_name)
  unfolding disable_ipv6_dad held printed
  disable_ipv6_dad-IsQuiet if_name =
      bind-IsQuiet
        (Keeps-attempt status (read_file (dad_file if_name "enhanced_dad"))
          (host.file (dad_file if_name "enhanced_dad")) (λ b t. refl))
        (λ enh.
          if-IsQuiet (is_enhanced enh) skip-IsQuiet
            (perform-IsQuiet (write_file (dad_file if_name "accept_dad") "0") (λ b t. refl)))

  configure_container-IsQuiet :
      (conf : NetConf) (args : CmdArgs) (ips : List IpConfig) (routes : List Route)
      → IsQuiet (configure_container host conf args ips routes)
  unfolding configure_container held printed
  configure_container-IsQuiet conf args ips routes =
      annotated-IsQuiet "failed to configure container addresses" (
        do_in-IsQuiet args.netns (
          bind-IsQuiet (perform-IsQuiet (interface_by_name args.if_name) (λ b t. refl)) (λ u.
            bind-IsQuiet (if-IsQuiet _ (disable_ipv6_dad-IsQuiet args.if_name) skip-IsQuiet) (λ u.
              bind-IsQuiet (perform-IsQuiet (configure_iface args.if_name ips routes) (λ b t. refl))
                (λ u. for_each-IsQuiet ips _ (λ ipc.
                  if-IsQuiet (str_eq ipc.version "4")
                    (note-IsQuiet (gratuitous_arp ipc.address.ip) (λ b t. refl)) skip-IsQuiet))))))

  module _ (br : Interface) (family : Family) (ipn : Net) (force_address : Bool) where
    ensure_from-IsQuiet :
        (addrs : List Net) → IsQuiet (ensure_from host br family ipn force_address addrs)
    unfolding ensure_from delete_bridge_addr add_bridge_addr held printed
    ensure_from-IsQuiet [] =
        bind-IsQuiet
          (annotated-IsQuiet "could not add IP address"
            (perform-IsQuiet (addr_add br.name ipn) (λ b t. refl)))
          (λ u.
            annotated-IsQuiet "could not set bridge's mac"
              (perform-IsQuiet (link_set_hardware_addr br.name br.mac) (λ b t. refl)))
    ensure_from-IsQuiet (a ∷ addrs) =
        let rest = ensure_from-IsQuiet addrs in
        if-IsQuiet (net_eq a ipn) skip-IsQuiet (
          if-IsQuiet (conflicts family ipn a)
            (if-IsQuiet force_address
              (bind-IsQuiet
                (annotated-IsQuiet "could not remove IP address"
                  (perform-IsQuiet (addr_del br.name a) (λ b t. refl)))
                (λ u. rest))
              (lift-IsQuiet _))
            rest)

    ensure_bridge_addr-IsQuiet : IsQuiet (ensure_bridge_addr host br family ipn force_address)
    unfolding ensure_bridge_addr held printed
    ensure_bridge_addr-IsQuiet =
        bind-IsQuiet (Keeps-attempt status (addr_list br.name family) _ (λ b t. refl))
          (λ raw. bind-IsQuiet (lift-IsQuiet (listed raw)) ensure_from-IsQuiet)

  enable_ip_forward-IsQuiet : (gws : GwInfo) → IsQuiet (enable_ip_forward host gws)
  unfolding enable_ip_forward held printed
  enable_ip_forward-IsQuiet gws =
      if-IsQuiet (enables_v4 gws) (perform-IsQuiet enable_ip4_forward (λ b t. refl))
        (perform-IsQuiet enable_ip6_forward (λ b t. refl))

  set_gateways-IsQuiet : (conf : NetConf) (gws : GwInfo) → IsQuiet (set_gateways host conf gws)
  unfolding set_gateways
  set_gateways-IsQuiet conf gws =
      bind-IsQuiet
        (for_each-IsQuiet gws.gws _ (λ gw.
          bind-IsQuiet
            (annotated-IsQuiet "failed to get bridge link"
              (bridge_by_name-IsQuiet conf.bridge_name))
            (λ br. annotated-IsQuiet "failed to set bridge addr" (
              ensure_bridge_addr-IsQuiet br (if enables_v4 gws then family_v4 else family_v6) gw
                true))))
        (λ u.
          if-IsQuiet (non_nil gws.gws)
            (annotated-IsQuiet "failed to enable forwarding" (enable_ip_forward-IsQuiet gws))
            skip-IsQuiet)

  masquerade-IsQuiet :
      (conf : NetConf) (args : CmdArgs) (ips : List IpConfig)
      → IsQuiet (masquerade host conf args ips)
  unfolding masquerade held printed
  masquerade-IsQuiet conf args ips =
      if-IsQuiet conf.ip_masq (for_each-IsQuiet ips _ (λ ipc. perform-IsQuiet _ (λ b t. refl)))
        skip-IsQuiet

  pub configure-IsQuiet :
      (conf : NetConf) (args : CmdArgs) (r : String) (result : CniResult)
      → IsQuiet (configure host conf args r result)
  unfolding configure
  configure-IsQuiet conf args r result =
      bind-IsQuiet (lift-IsQuiet (host.new_result r)) (λ ipam_result.
        bind-IsQuiet (lift-IsQuiet _) (λ calc.
          bind-IsQuiet (configure_container-IsQuiet conf args calc.ips calc.routes) (λ u.
            bind-IsQuiet
              (if-IsQuiet conf.is_gw
                (bind-IsQuiet (set_gateways-IsQuiet conf calc.gws_v4)
                  (λ u. set_gateways-IsQuiet conf calc.gws_v6))
                skip-IsQuiet)
              (λ u. bind-IsQuiet (masquerade-IsQuiet conf args calc.ips) (λ u. pure-IsQuiet _)))))

  pub finish-IsQuiet :
      (conf : NetConf) (bridge : Interface) (interfaces : List Interface) (result : CniResult)
      → IsQuiet (finish host conf bridge interfaces result)
  unfolding finish
  finish-IsQuiet conf bridge interfaces result =
      bind-IsQuiet (bridge_by_name-IsQuiet conf.bridge_name) (λ br. pure-IsQuiet _)
