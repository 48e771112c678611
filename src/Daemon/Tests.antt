-- ===== src/Daemon/Tests.antt =====
-- A host on which every call succeeds but the first questions for the configuration, and the
-- theorems on it.
use k_vswitch.Prelude.{
  ℕ, ◌+◌, ◌≡◌, refl, sym, ap, String, Bool, true, false, not, ◌&&◌, ◌||◌, [], ◌∷◌, ◌++◌, leb,
  str_eq, if◌then◌else◌, arith,
}
use k_vswitch.Result.{not_found, Result, ok, err}
use k_vswitch.Exec.{◌>>◌}
use k_vswitch.Trace.{Trace}
use k_vswitch.Trace.Plan.{Follows, done}
use k_vswitch.VSwitchCfg.{VSwitchConfig}
use k_vswitch.Daemon.{setup_bridge_forwarding, wait_for_vswitch_config, prepare, start}
use k_vswitch.Daemon.Outside.{Link, Call, sleep, Host, bridge_name}
use k_vswitch.Daemon.Wait.{IsClock, Waits, wait_for_vswitch_config-Waits}
use k_vswitch.Daemon.Setup.{prepare-start-Follows}
use k_vswitch.Daemon.Plan.{IsStable, Any, prepare_plan, start_plan, forwarding_plan}
use k_vswitch.Daemon.Rules.{
  Leaving, add_all, rules_in, forward_rules, nat_rules, forwarding_twice, masquerades,
  masquerades-nat_rules,
}

-- the time that a call takes
abbrev elapsed : Call → ℕ
elapsed (sleep d) = d
elapsed _ = 0

abbrev clock : Trace Call → ℕ
clock [] = 0
clock ((c, b) ∷ t) = clock t + elapsed c

abbrev node_link : String → Link
node_link name = record { name = name; index = 3 }

abbrev node_mac : String → String
node_mac name = "62:00:00:00:00:01"

abbrev shop_config : VSwitchConfig
shop_config = record {
  name = "node1";
  resource_version = "1";
  spec = record {
    pod_cidr = "10.1.7.0/24";
    cluster_cidr = "10.1.0.0/16";
    service_cidr = "10.96.0.0/12";
    overlay_ip = "192.168.0.7";
    overlay_type = "vxlan";
  };
}

-- The configuration is there after ten seconds.
abbrev host : Host
host = record {
  env_node_name = "node1";
  next_ip = λ n. n + 1;
  clock = clock;
  node = λ name t. ok (record { name = name; addresses = []; pod_cidr = "10.1.7.0/24" });
  vswitch_config = λ name t. if leb 10_000_000_000 (clock t) then ok shop_config else err not_found;
  link = λ name t. ok (node_link name);
  hardware_addr = λ name t. ok (node_mac name);
  perform = λ c t. ok tt;
}

host-IsClock : IsClock clock
host-IsClock = record { forward = λ c t. omega arith; slept = λ d t. omega arith }

wait_for_vswitch_config-Waits_example :
    Waits host "node1" 12 0 [] (wait_for_vswitch_config host "node1" [])
wait_for_vswitch_config-Waits_example = wait_for_vswitch_config-Waits host "node1" host-IsClock []

wait_test : (wait_for_vswitch_config host "node1" []).0 ≡ ok shop_config
unfolding wait_for_vswitch_config
wait_test = refl

value : {A : Type 0} → A → Result A → A
value d (ok a) = a
value d _ = d

host-IsStable : IsStable host node_link node_mac
unfolding value
host-IsStable = record {
  link = λ name t l h. sym (ap (value (node_link name)) h);
  mac = λ name t m h. sym (ap (value (node_mac name)) h);
}

prepare-start-Follows_example :
    Follows
      (prepare host shop_config >> start host "node1" "10.1.7.0/24" "10.1.0.0/16")
      (prepare_plan (λ n. n + 1) node_link shop_config
        ++ start_plan node_mac "node1" "10.1.7.0/24" "10.1.0.0/16")
      Any
prepare-start-Follows_example =
    prepare-start-Follows host node_link node_mac host-IsStable shop_config "node1"

abbrev forwarded : Trace Call → Trace Call
forwarded = done (forwarding_plan "10.1.7.0/24" "10.1.0.0/16" "10.96.0.0/12")

forwarding_twice_example :
    (rules_in "filter" "FORWARD" (forwarded []) ≡ add_all forward_rules [])
    × (rules_in "nat" "POSTROUTING" (forwarded [])
        ≡ add_all (nat_rules "10.1.7.0/24" "10.1.0.0/16" "10.96.0.0/12") [])
    × (rules_in "filter" "FORWARD" (forwarded (forwarded []))
        ≡ rules_in "filter" "FORWARD" (forwarded []))
    × (rules_in "nat" "POSTROUTING" (forwarded (forwarded []))
        ≡ rules_in "nat" "POSTROUTING" (forwarded []))
unfolding setup_bridge_forwarding
forwarding_twice_example =
    forwarding_twice host "10.1.7.0/24" "10.1.0.0/16" "10.96.0.0/12" [] (forwarded [])
      (forwarded (forwarded [])) refl refl

-- addresses as pairs of a block's text and a host, covered by their block
abbrev covers : String → String × ℕ → Bool
covers cidr address = str_eq cidr address.0

abbrev to_another_pod : Leaving (String × ℕ)
to_another_pod = record {
  src = ("192.168.0.0/16", 4);
  dst = ("10.1.0.0/16", 9);
  out = "cluster-wide";
  dst_is_local = false;
}

-- a packet to another node's pod, which no rule of the service CIDR should touch
masquerades-nat_rules_example :
    masquerades covers to_another_pod (nat_rules "10.1.7.0/24" "10.1.0.0/16" "10.96.0.0/12") ≡ (
      (covers "10.1.7.0/24" to_another_pod.src && not (str_eq bridge_name to_another_pod.out))
      || (not to_another_pod.dst_is_local
          && (not (covers "10.1.0.0/16" to_another_pod.dst)
              || not (covers "10.96.0.0/12" to_another_pod.dst))))
masquerades-nat_rules_example =
    masquerades-nat_rules covers to_another_pod "10.1.7.0/24" "10.1.0.0/16" "10.96.0.0/12"

-- it is masqueraded
masquerade_test :
    masquerades covers to_another_pod (nat_rules "10.1.7.0/24" "10.1.0.0/16" "10.96.0.0/12") ≡ true
masquerade_test = refl
