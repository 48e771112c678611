-- ===== src/ControllerMain/Tests.antt =====
-- The start of the controller with flags, and with none.
use k_vswitch.Prelude.{◌≡◌, refl, []}
use k_vswitch.Result.{msg, ok, err}
use k_vswitch.Trace.Plan.{Follows}
use k_vswitch.ControllerMain.{Flags, default_flags, main}
use k_vswitch.ControllerMain.Startup.{startup_plan, Any, main-Follows}

abbrev shop_flags : Flags
shop_flags = record {
  cluster_cidr = "10.1.0.0/16";
  service_cidr = "10.96.0.0/12";
  overlay_type = "gre";
}

main-Follows_example : Follows (main (λ c t. ok tt) shop_flags) (startup_plan shop_flags) Any
main-Follows_example = main-Follows (λ c t. ok tt) shop_flags

no_flags_test : main (λ c t. ok tt) default_flags [] ≡ (err (msg "--cluster-cidr is required"), [])
unfolding main
no_flags_test = refl
