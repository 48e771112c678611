-- ===== src/OpenFlow/Controller/Events.antt =====
-- The handlers of the informers (controllers/openflow/flows.go), and `Initialize` and the message
-- loop of `Run` (controllers/openflow/controller.go). Every handler drops the error of the sync
-- after logging it.
pub mod Laws
use k_vswitch.Prelude.{ℕ, String, Bool, true, false, List, [], ◌∷◌, if◌then◌else◌}
use k_vswitch.Text.{non_empty}
use k_vswitch.Result.{Result, ok, context}
use k_vswitch.Exec.{◌>>=◌, ◌>>◌, lift, gets, modify, skip, logged}
use k_vswitch.OpenFlow.Kube.{Pod}
use k_vswitch.OpenFlow.Config.{Config}
use k_vswitch.OpenFlow.Controller.{Controller, Env, M, is_local_ip, sync_flows}
use k_vswitch.OpenFlow.PortCache.{del_port_info}

-- what an informer of pods hands over: a pod, or another value (a tombstone)
pub data Obj : Type 0 where
  pod : Pod → Obj
  other : Obj

-- what happens to the controller, one event after the other
pub data Event : Type 0 where
  added_vswitch updated_vswitch deleted_vswitch : Event
  added_pod deleted_pod : Obj → Event
  updated_pod : Obj → Obj → Event
  added_policy updated_policy deleted_policy : Event
  minute_passed : Event

-- `podNeedsUpdate`
unfoldable pub pod_needs_update : Config → Pod → Result Bool
unfolding is_local_ip
pod_needs_update c p =
    if non_empty p.pod_ip
    then context "error checking if IP is local" (is_local_ip c p.pod_ip)
    else ok false

module _ (env : Env) where
  -- an event that calls for a run of `syncFlows`
  abbrev pub resync : M (Unit {0})
  resync = logged (sync_flows env)

  abbrev pub on_add_vswitch : M (Unit {0})
  on_add_vswitch = resync

  abbrev pub on_update_vswitch : M (Unit {0})
  on_update_vswitch = resync

  abbrev pub on_delete_vswitch : M (Unit {0})
  on_delete_vswitch = skip

  sync_if : Bool → M (Unit {0})
  sync_if false = skip
  sync_if true = sync_flows env

  unfoldable pub on_add_pod : Obj → M (Unit {0})
  unfolding pod_needs_update sync_if
  on_add_pod (pod p) =
      logged (do c ← gets (λ s. s.config); needed ← lift (pod_needs_update c p); sync_if needed)
  on_add_pod other = skip

  unfoldable pub on_update_pod : Obj → Obj → M (Unit {0})
  unfolding pod_needs_update sync_if
  on_update_pod old (pod p) =
      logged (do c ← gets (λ s. s.config); needed ← lift (pod_needs_update c p); sync_if needed)
  on_update_pod old other = skip

  unfoldable pub on_delete_pod : Obj → M (Unit {0})
  unfolding del_port_info
  on_delete_pod (pod p) = modify (λ s. record s { port_cache = del_port_info p s.port_cache })
  on_delete_pod other = skip

  abbrev pub on_add_network_policy : M (Unit {0})
  on_add_network_policy = resync

  abbrev pub on_update_network_policy : M (Unit {0})
  on_update_network_policy = resync

  abbrev pub on_delete_network_policy : M (Unit {0})
  on_delete_network_policy = resync

  unfoldable pub handle : Event → M (Unit {0})
  unfolding on_add_pod on_update_pod on_delete_pod
  handle added_vswitch = on_add_vswitch
  handle updated_vswitch = on_update_vswitch
  handle deleted_vswitch = on_delete_vswitch
  handle (added_pod o) = on_add_pod o
  handle (updated_pod o n) = on_update_pod o n
  handle (deleted_pod o) = on_delete_pod o
  handle added_policy = on_add_network_policy
  handle updated_policy = on_update_network_policy
  handle deleted_policy = on_delete_network_policy
  handle minute_passed = resync

-- the events one after the other; the cluster and the host answer each one anew
unfoldable pub handle_all : List (Env × Event) → M (Unit {0})
unfolding handle
handle_all [] = skip
handle_all ((env, e) ∷ es) = handle env e >> handle_all es
