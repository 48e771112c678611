-- ===== src/Cni/Leases.antt =====
-- The address of the container over a whole command of the plugin.
use k_vswitch.Prelude.{
  ◌≡◌, refl, sym, ap, ◌∙◌, String, Bool, true, false, ◌&&◌, not, List, [], ◌∷◌, if◌then◌else◌,
}
use k_vswitch.Text.{non_empty}
use k_vswitch.Bools.{and_true, and_false}
use k_vswitch.Result.{Result, ok, err, panic}
use k_vswitch.Exec.{◌>>=◌, continue, deferred, unless_ok}
use k_vswitch.Trace.{Trace, is_ok}
use k_vswitch.Trace.Keeps.{Keeps-bind, Keeps-annotated}
use k_vswitch.Cni.Network.{NetConf}
use k_vswitch.Cni.Host.{
  CmdArgs, Interface, CniResult, Call, close_ns, ipam_add, print_result, Host, C, perform, note,
}
use k_vswitch.Cni.Add.{
  empty_result, load_net_conf, configure, finish, release, with_ipam, assign, cmd_add,
}
use k_vswitch.Cni.Quiet.{
  held, printed, status, IsQuiet, get_bridge_interface-IsQuiet, get_ns-IsQuiet, setup_veth-IsQuiet,
  override_mac-IsQuiet, plug-IsQuiet, configure-IsQuiet, finish-IsQuiet,
}

-- The result was printed where the command succeeded, and the container holds an address exactly
-- where a result was printed and an IPAM plugin is configured.
pub record Settled (conf : NetConf) {A : Type 0} (x : Result A × Trace Call) : Type 0 where
  pub held_printed : held x.1 ≡ (printed x.1 && non_empty conf.ipam_type)
  pub ok_printed : is_ok x.0 && not (printed x.1) ≡ false

-- No address was given yet, and no result was printed.
abbrev pub IsFresh : Trace Call → Type 0
IsFresh t = status t ≡ (false, false)

module _ (conf : NetConf) where
  -- nothing was given and nothing printed
  fresh-Settled :
      {A : Type 0} (r : Result A) (t : Trace Call)
      → is_ok r ≡ false
      → IsFresh t
      → Settled conf (r, t)
  unfolding held printed
  fresh-Settled r t failed fresh = record {
    held_printed = cc;
    ok_printed = ap (λ b. b && not (printed t)) failed;
  }

  module _ {A B : Type 0} {m : C A} {f : A → C B} where
    then-Settled :
        IsQuiet m
        → ((a : A) (t : Trace Call) → IsFresh t → Settled conf (f a t))
        → (t : Trace Call) → IsFresh t
        → Settled conf ((m >>= f) t)
    then-Settled quiet k t fresh = by_outcome (m t).0 (m t).1 (quiet.at t ∙ fresh)
      where
        by_outcome : (r : Result A) (t' : Trace Call) → IsFresh t' → Settled conf (continue r f t')
        by_outcome (ok a) t' h = k a t' h
        by_outcome (err e) t' h = fresh-Settled (err e) t' refl h
        by_outcome panic t' h = fresh-Settled panic t' refl h

module _ (host : Host) (conf : NetConf) (args : CmdArgs) where
  release-status : (t : Trace Call) → status (release host conf args t).1 ≡ (false, printed t)
  unfolding release held printed
  release-status t = refl

  -- where the code fails, the address is given back
  unless_ok-status :
      {A : Type 0} (x : Result A × Trace Call)
      → status x.1 ≡ (true, false)
      → let y = unless_ok (release host conf args) x in status y.1 ≡ (is_ok y.0, false)
  unless_ok-status (ok a, t) h = h
  unless_ok-status (err e, t) h = release-status t ∙ ap (λ s. (false, s.1)) h
  unless_ok-status (panic, t) h = release-status t ∙ ap (λ s. (false, s.1)) h

  module _ (bridge : Interface) (interfaces : List Interface) where
    abbrev configured : String → C CniResult
    configured r =
        configure host conf args r (empty_result conf) >>= finish host conf bridge interfaces

    configured-IsQuiet : (r : String) → IsQuiet (configured r)
    configured-IsQuiet r =
        Keeps-bind status (configure-IsQuiet host conf args r (empty_result conf))
          (λ result. finish-IsQuiet host conf bridge interfaces result)

    with_ipam-status :
        (t : Trace Call)
        → IsFresh t
        → let y = with_ipam host conf args bridge interfaces t in status y.1 ≡ (is_ok y.0, false)
    unfolding with_ipam held printed
    with_ipam-status t fresh = by_answer (host.ipam_result t)
      where
        by_answer :
            (r : Result String)
            → let y =
                continue r
                  (λ r t. unless_ok (release host conf args) (configured r t))
                  ((ipam_add conf.ipam_type args.stdin, is_ok r) ∷ t) in
              status y.1 ≡ (is_ok y.0, false)
        by_answer (ok r) =
            unless_ok-status _ ((configured-IsQuiet r).at _ ∙ ap (λ s. (true, s.1)) fresh)
        by_answer (err e) = fresh
        by_answer panic = fresh

    assign-status :
        (t : Trace Call)
        → IsFresh t
        → let y = assign host conf args bridge interfaces t in
          status y.1 ≡ (is_ok y.0 && non_empty conf.ipam_type, false)
    unfolding assign
    assign-status t fresh = by_type (non_empty conf.ipam_type)
      where
        by_type :
            (b : Bool)
            → let y =
                (if b
                    then with_ipam host conf args bridge interfaces
                    else finish host conf bridge interfaces (empty_result conf))
                  t in
              status y.1 ≡ (is_ok y.0 && b, false)
        by_type true = with_ipam-status t fresh ∙ ap (λ b. (b, false)) (sym (and_true _))
        by_type false =
            (finish-IsQuiet host conf bridge interfaces (empty_result conf)).at t
            ∙ fresh
            ∙ ap (λ b. (b, false)) (sym (and_false _))

    printed-Settled :
        (t : Trace Call)
        → IsFresh t
        → Settled conf (
            (assign host conf args bridge interfaces
                >>= (λ result. perform host (print_result result)))
              t)
    unfolding held printed
    printed-Settled t fresh =
        by_outcome (assign host conf args bridge interfaces t).0
          (assign host conf args bridge interfaces t).1 (assign-status t fresh)
      where
        by_outcome :
            (r : Result CniResult) (t' : Trace Call)
            → status t' ≡ (is_ok r && non_empty conf.ipam_type, false)
            → Settled conf (continue r (λ result. perform host (print_result result)) t')
        by_outcome (ok result) t' h = record {
          held_printed = ap (λ s. s.0) h;
          ok_printed = and_false _;
        }
        by_outcome (err e) t' h = fresh-Settled conf (err e) t' refl h
        by_outcome panic t' h = fresh-Settled conf panic t' refl h

  closed-Settled :
      {m : C (Unit {0})}
      → ((t : Trace Call) → IsFresh t → Settled conf (m t))
      → (t : Trace Call) → IsFresh t
      → Settled conf (deferred (note host close_ns) m t)
  unfolding held printed
  closed-Settled h t fresh = record {
    held_printed = (h t fresh).held_printed;
    ok_printed = (h t fresh).ok_printed;
  }

  IsFresh-start : IsFresh []
  unfolding held printed
  IsFresh-start = refl

  -- From an empty trace, and where the configuration is read: after `cmdAdd` the IPAM plugin has
  -- given an address that it was not asked to take back exactly if the result was handed to standard
  -- output and an IPAM plugin is configured, and a success has handed it there. So whatever fails
  -- before that, the plugin was asked to take the address back.
  pub cmd_add-Settled :
      load_net_conf host args.stdin ≡ ok conf → Settled conf (cmd_add host args [])
  unfolding cmd_add
  cmd_add-Settled loaded = rw loaded (
      then-Settled conf
        (Keeps-annotated status "failed to setup bridge" (get_bridge_interface-IsQuiet host))
        (λ bridge. then-Settled conf (get_ns-IsQuiet host args.netns) (λ u. closed-Settled (
          then-Settled conf (setup_veth-IsQuiet host args.netns args.if_name) (λ veths.
            then-Settled conf (override_mac-IsQuiet host args) (λ u.
              then-Settled conf (plug-IsQuiet host conf args veths.0 veths.1)
                (λ u. printed-Settled bridge (veths.0 ∷ veths.1 ∷ [])))))))
        [] IsFresh-start)
