-- ===== src/ControllerMain.antt =====
-- cmd/k-vswitch-controller/main.go: the flags, and the calls that start the controller of
-- VSwitchConfigs. `main` exits with status 1 where it returns an error.
pub mod Startup
mod Tests
use k_vswitch.Prelude.{String, Bool, ◌||◌, List, [], ◌∷◌, str_eq, if◌then◌else◌}
use k_vswitch.Text.{non_empty}
use k_vswitch.Result.{msg, Result, ok, err}
use k_vswitch.Exec.{Exec, ◌>>=◌, ◌>>◌, lift}
use k_vswitch.Trace.{Trace, call}

abbrev pub default_overlay_type : String
default_overlay_type = "vxlan"

pub record Flags : Type 0 where
  pub cluster_cidr : String
  pub service_cidr : String
  pub overlay_type : String

-- the flags where none is given
abbrev pub default_flags : Flags
default_flags = record { cluster_cidr = ""; service_cidr = ""; overlay_type = default_overlay_type }

pub data Call : Type 0 where
  in_cluster_config new_kubernetes new_kvswitch : Call
  wait_for_kvswitch_cache wait_for_core_cache : Call
  new_vswitch_config_controller : (overlay_type cluster_cidr service_cidr : String) → Call
  add_event_handler start_kvswitch_informers start_core_informers : Call

unfoldable pub check_flags : Flags → Result (Unit {0})
check_flags flags =
    if non_empty flags.cluster_cidr
    then (if non_empty flags.service_cidr
        then (if str_eq flags.overlay_type "vxlan" || str_eq flags.overlay_type "gre"
            then ok tt
            else err (msg "invalid overlay type"))
        else err (msg "--service-cidr is required"))
    else err (msg "--cluster-cidr is required")

-- The first three calls may fail; what they answer depends on the calls before.
module _ (answer : Call → Trace Call → Result (Unit {0})) where
  abbrev pub note : Call → Exec (Trace Call) (Unit {0})
  note c = call c (λ t. ok tt)

  unfoldable pub main : Flags → Exec (Trace Call) (Unit {0})
  unfolding check_flags
  main flags = do
    lift (check_flags flags)
    call in_cluster_config (answer in_cluster_config)
    call new_kubernetes (answer new_kubernetes)
    call new_kvswitch (answer new_kvswitch)
    note wait_for_kvswitch_cache
    note wait_for_core_cache
    note (new_vswitch_config_controller flags.overlay_type flags.cluster_cidr flags.service_cidr)
    note add_event_handler
    note start_kvswitch_informers
    note start_core_informers
