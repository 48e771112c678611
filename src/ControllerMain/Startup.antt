-- ===== src/ControllerMain/Startup.antt =====
-- When cmd/k-vswitch-controller/main.go starts the controller, and the calls it makes.
use k_vswitch.Prelude.{
  ◌≡◌, refl, Bool, true, false, ◌&&◌, ◌||◌, List, [], ◌∷◌, str_eq, if◌then◌else◌,
}
use k_vswitch.Text.{non_empty}
use k_vswitch.Result.{msg, Result, ok, err}
use k_vswitch.Trace.{Trace, call, is_ok}
use mathlib.Core.Path.{subst}
use k_vswitch.Exec.{lift}
use k_vswitch.Trace.Plan.{Item, makes, checks, Follows, Follows-call, Follows-lift, Follows-bind}
use k_vswitch.ControllerMain.{
  Flags, Call, in_cluster_config, new_kubernetes, new_kvswitch, wait_for_kvswitch_cache,
  wait_for_core_cache, new_vswitch_config_controller, add_event_handler, start_kvswitch_informers,
  start_core_informers, check_flags, note, main,
}

-- both blocks are given, and the overlay is of a type that is supported
abbrev pub is_valid : Flags → Bool
is_valid flags =
    non_empty flags.cluster_cidr
    && non_empty flags.service_cidr
    && (str_eq flags.overlay_type "vxlan" || str_eq flags.overlay_type "gre")

abbrev pub startup_plan : Flags → List (Item Call)
startup_plan flags =
    checks (is_valid flags)
    ∷ makes in_cluster_config
    ∷ makes new_kubernetes
    ∷ makes new_kvswitch
    ∷ makes wait_for_kvswitch_cache
    ∷ makes wait_for_core_cache
    ∷ makes (new_vswitch_config_controller flags.overlay_type flags.cluster_cidr flags.service_cidr)
    ∷ makes add_event_handler
    ∷ makes start_kvswitch_informers
    ∷ makes start_core_informers
    ∷ []

abbrev pub Any : Unit {0} → Type 0
Any u = Unit

check_flags-is_ok : (flags : Flags) → is_ok (check_flags flags) ≡ is_valid flags
unfolding check_flags
check_flags-is_ok flags =
    by_tests (non_empty flags.cluster_cidr) (non_empty flags.service_cidr)
      (str_eq flags.overlay_type "vxlan" || str_eq flags.overlay_type "gre")
  where
    by_tests :
        (a b c : Bool)
        → is_ok {0} (
            if a
            then (if b
                then (if c then ok tt else err (msg "invalid overlay type"))
                else err (msg "--service-cidr is required"))
            else err (msg "--cluster-cidr is required"))
          ≡ (a && b && c)
    by_tests true true true = refl
    by_tests true true false = refl
    by_tests true false c = refl
    by_tests false b c = refl

module _ (answer : Call → Trace Call → Result (Unit {0})) where
  plain : (c : Call) → Follows (note answer c) (makes c ∷ []) Any
  plain c = Follows-call c (λ t. ok tt) Any (λ t a h. tt)

  tried : (c : Call) → Follows (call c (answer c)) (makes c ∷ []) Any
  tried c = Follows-call c (answer c) Any (λ t a h. tt)

  checked :
      (flags : Flags)
      → Follows {E = Call} (lift (check_flags flags)) (checks (is_valid flags) ∷ []) Any
  checked flags =
      subst (λ b. Follows {E = Call} (lift (check_flags flags)) (checks b ∷ []) Any)
        (check_flags-is_ok flags) (Follows-lift (check_flags flags) Any (λ u h. tt))

  -- The controller makes the calls of its start in their order, with the flags that were given,
  -- and stops at the first failure; flags that are not valid stop it before the first call.
  pub main-Follows : (flags : Flags) → Follows (main answer flags) (startup_plan flags) Any
  unfolding main
  main-Follows flags = Follows-bind (checked flags) (λ u x.
      Follows-bind (tried in_cluster_config) (λ u x. Follows-bind (tried new_kubernetes) (λ u x.
        Follows-bind (tried new_kvswitch) (λ u x.
          Follows-bind (plain wait_for_kvswitch_cache) (λ u x.
            Follows-bind (plain wait_for_core_cache) (λ u x.
              Follows-bind
                (plain (
                  new_vswitch_config_controller flags.overlay_type flags.cluster_cidr
                    flags.service_cidr))
                (λ u x. Follows-bind (plain add_event_handler) (λ u x.
                  Follows-bind (plain start_kvswitch_informers) (λ u x.
                    Follows-call start_core_informers (λ t. ok tt) Any (λ t a h. tt))))))))))
