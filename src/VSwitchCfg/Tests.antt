-- ===== src/VSwitchCfg/Tests.antt =====
-- A store of one configuration, a node, and the theorems at them.
use k_vswitch.Prelude.{
  String, false, ◌≡◌, ◌↔◌, refl, ap, sym, ◌∙◌, [], ◌∷◌, Option, none, some, arith, str_eq, eq_iff,
  if◌then◌else◌,
}
use k_vswitch.Text.{◌++◌}
use k_vswitch.Result.{Result, ok, err, panic, not_found}
use k_vswitch.VSwitchCfg.{
  VSwitchConfig, Node, internal_ip, external_ip, IsOther-address, node, other, ConfigApi, Settings,
  node_overlay_ip, needs_update, sync_vswitch_config, on_add, on_update, on_delete,
}
use k_vswitch.VSwitchCfg.Addresses.{node_overlay_ip_lem, preferred}
use k_vswitch.VSwitchCfg.Reconcile.{
  IsStore, IsConfigured, on_add_converges, needs_update-eq-false_iff, Agrees,
}

-- the listed configuration, found under its name
abbrev find : String → Option VSwitchConfig → Result VSwitchConfig
find name none = err not_found
find name (some cfg) = if str_eq cfg.name name then ok cfg else err not_found

-- the server's configuration, if it has one, and the one in the cache
abbrev Stores : Type 0
Stores = Option VSwitchConfig × Option VSwitchConfig

-- the server counts the writes of an object in its resource version
abbrev versioned : VSwitchConfig → VSwitchConfig
versioned cfg = record cfg { resource_version = "1" ++ cfg.resource_version }

-- A server that holds one configuration: a write replaces it. The cache is read, and lags behind.
abbrev one_config : ConfigApi Stores
one_config = record {
  get = λ name s. find name s.1;
  create = λ cfg s. (ok tt, (some (versioned cfg), s.1));
  update = λ cfg s. (ok tt, (some (versioned cfg), s.1));
  delete = λ name s. (ok tt, (none, s.1));
}

abbrev caught_up : Stores → Stores
caught_up s = (s.0, s.0)

one_config-IsStore : IsStore one_config caught_up
one_config-IsStore = record {
  name-get = λ name s. find_name name s.1;
  get-create = find_written;
  get-update = find_written;
}
  where
    find_name :
        (name : String) (s : Option VSwitchConfig) (cfg : VSwitchConfig)
        → find name s ≡ ok cfg
        → cfg.name ≡ name
    find_name name none cfg h = cc
    find_name name (some c) cfg h = ground (arith, eq_iff c.name name)

    find_self : (cfg : VSwitchConfig) → find cfg.name (some (versioned cfg)) ≡ ok (versioned cfg)
    find_self cfg = ground (arith, eq_iff cfg.name cfg.name)

    find_written :
        (cfg : VSwitchConfig) (s s' : Stores)
        → ◌≡◌ {A = Result (Unit {0}) × Stores} (ok tt, (some (versioned cfg), s.1)) (ok tt, s')
        → (stored : VSwitchConfig) × (find cfg.name s'.0 ≡ ok stored) × (stored.spec ≡ cfg.spec)
    find_written cfg s s' h = (
      versioned cfg,
      ap (λ (x : Result (Unit {0}) × Stores). find cfg.name x.1.0) (sym h) ∙ find_self cfg,
      refl,
    )

abbrev settings : Settings
settings = record {
  overlay_type = "vxlan";
  cluster_cidr = "10.0.0.0/8";
  service_cidr = "10.96.0.0/12";
}

abbrev worker : Node
worker = record {
  name = "worker-1";
  addresses =
      record { kind = external_ip; address = "198.51.100.7" }
      ∷ record { kind = internal_ip; address = "172.20.0.7" }
      ∷ record { kind = IsOther-address; address = "worker-1.local" }
      ∷ [];
  pod_cidr = "10.1.7.0/24";
}

abbrev listed : VSwitchConfig
listed = record {
  name = "worker-1";
  resource_version = "1";
  spec = record {
    pod_cidr = "10.1.7.0/24";
    cluster_cidr = "10.0.0.0/8";
    service_cidr = "10.96.0.0/12";
    overlay_ip = "172.20.0.7";
    overlay_type = "vxlan";
  };
}

overlay_test : node_overlay_ip worker ≡ ok "172.20.0.7"
unfolding node_overlay_ip
overlay_test = refl

node_overlay_ip_lem_example : node_overlay_ip worker ≡ preferred "172.20.0.7" "198.51.100.7"
unfolding node_overlay_ip
node_overlay_ip_lem_example = node_overlay_ip_lem worker

abbrev listed_everywhere : Stores
listed_everywhere = (some listed, some listed)

on_add_converges_example :
    (on_add one_config settings (node worker) (none, none) ≡ (ok tt, (some listed, none)))
    × IsConfigured one_config settings worker listed_everywhere
    × (on_add one_config settings (node worker) listed_everywhere ≡ (ok tt, listed_everywhere))
    × (on_update one_config settings other (node worker) listed_everywhere
        ≡ (ok tt, listed_everywhere))
unfolding needs_update sync_vswitch_config
on_add_converges_example =
    on_add_converges one_config caught_up settings one_config-IsStore worker (none, none)
      (some listed, none) other refl refl

needs_update-eq-false_iff_example :
    (needs_update one_config settings worker listed_everywhere ≡ ok false) ↔ (
      (cfg : VSwitchConfig) × (one_config.get "worker-1" listed_everywhere ≡ ok cfg)
      × Agrees settings worker cfg.spec)
needs_update-eq-false_iff_example =
    needs_update-eq-false_iff one_config settings worker listed_everywhere

-- the handlers on a value that is no node
other_test :
    (on_add one_config settings other (none, none) ≡ (ok tt, (none, none)))
    × (on_update one_config settings other other (none, none) ≡ (panic, (none, none)))
    × (on_delete one_config settings other (none, none) ≡ (panic, (none, none)))
unfolding on_add on_update on_delete
other_test = (refl, refl, refl)
