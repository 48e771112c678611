-- ===== src/OpenFlow/PortCache.antt =====
-- controllers/openflow/port_cache.go: the OVS port of each pod, asked for once.
pub mod Bounds
pub mod Entries
pub mod Laws
use k_vswitch.Prelude.{ℤ, String, Bool, Option, none, some, List, [], ◌∷◌, str_eq, if◌then◌else◌}
use k_vswitch.Text.{◌++◌}
use k_vswitch.Result.{Result, ok, err, panic}
use k_vswitch.Exec.{Exec}
use k_vswitch.OpenFlow.Kube.{Pod}
use k_vswitch.OpenFlow.Ovs.{Ovs, PortInfo, port_info_of}

-- the map of `portCache`, newest entry first
pub record PortCache : Type 0 where
  pub store : List (String × PortInfo)

abbrev pub new_port_cache : PortCache
new_port_cache = record { store = [] }

unfoldable pub port_cache_key_for_pod : Pod → String
port_cache_key_for_pod pod = pod.namespace ++ "/" ++ pod.name

-- p.store[key]
unfoldable pub lookup : String → List (String × PortInfo) → Option PortInfo
lookup key [] = none
lookup key ((k, info) ∷ rest) = if str_eq k key then some info else lookup key rest

-- delete(p.store, key)
unfoldable pub without : String → List (String × PortInfo) → List (String × PortInfo)
without key [] = []
without key ((k, info) ∷ rest) =
    let others = without key rest in if str_eq k key then others else (k, info) ∷ others

-- p.store[key] = info
abbrev pub store_info : String → PortInfo → PortCache → PortCache
store_info key info p = record p { store = (key, info) ∷ without key p.store }

-- what `GetPortInfo` does with the answers: an error leaves the store alone
remember : Pod → Result PortInfo → Exec PortCache PortInfo
remember pod (ok info) p = (ok info, store_info (port_cache_key_for_pod pod) info p)
remember pod (err e) p = (err e, p)
remember pod panic p = (panic, p)

module _ (ovs : Ovs) where
  from_cache : Pod → Option PortInfo → Exec PortCache PortInfo
  unfolding remember port_info_of
  from_cache pod (some port) p = (ok port, p)
  from_cache pod none p = remember pod (port_info_of ovs pod.namespace pod.name) p

  -- portCache.GetPortInfo
  unfoldable pub get_port_info : Pod → Exec PortCache PortInfo
  unfolding from_cache lookup without port_cache_key_for_pod
  get_port_info pod p = from_cache pod (lookup (port_cache_key_for_pod pod) p.store) p

-- portCache.DelPortInfo
unfoldable pub del_port_info : Pod → PortCache → PortCache
unfolding without port_cache_key_for_pod
del_port_info pod p = record p { store = without (port_cache_key_for_pod pod) p.store }
