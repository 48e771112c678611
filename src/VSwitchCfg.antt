-- ===== src/VSwitchCfg.antt =====
-- controllers/vswitchcfg/vswitchcfg.go: one VSwitchConfig resource for each node, and
-- apis/kvswitch/v1alpha1/types.go. The API server and its cache are the parameter `ConfigApi`.
pub mod Addresses
pub mod Reconcile
mod Tests
use k_vswitch.Prelude.{String, Bool, true, false, not, ◌||◌, List, [], ◌∷◌, str_eq, if◌then◌else◌}
use k_vswitch.Text.{non_empty}
use k_vswitch.Result.{Error, msg, Result, ok, err, panic, ◌>>=◌, context, is_not_found}
use k_vswitch.Exec.{Exec, logged}

pub record VSwitchConfigSpec : Type 0 where
  pub pod_cidr : String
  pub cluster_cidr : String
  pub service_cidr : String
  pub overlay_ip : String
  pub overlay_type : String

-- Of the metadata, the name, and the resource version for all the rest that DeepCopy carries on.
pub record VSwitchConfig : Type 0 where
  pub name : String
  pub resource_version : String
  pub spec : VSwitchConfigSpec

-- corev1.NodeAddressType
pub data AddressType : Type 0 where
  internal_ip external_ip IsOther-address : AddressType

pub record NodeAddress : Type 0 where
  pub kind : AddressType
  pub address : String

pub record Node : Type 0 where
  pub name : String
  pub addresses : List NodeAddress
  pub pod_cidr : String

-- What an informer hands to a handler: a node, or a value of another type, such as the tombstone
-- of a deletion that the watch missed.
pub data Obj : Type 0 where
  node : Node → Obj
  other : Obj

-- vswitchLister.Get and the typed client's Create, Update and Delete
pub record ConfigApi (S : Type 0) : Type 0 where
  pub get : String → S → Result VSwitchConfig
  pub create : VSwitchConfig → Exec S (Unit {0})
  pub update : VSwitchConfig → Exec S (Unit {0})
  pub delete : String → Exec S (Unit {0})

-- the fields of `vswitchConfig` that are no clients
pub record Settings : Type 0 where
  pub overlay_type : String
  pub cluster_cidr : String
  pub service_cidr : String

-- if nodeAddress.Type == … { variable = nodeAddress.Address }
abbrev if_internal : AddressType → String → String → String
if_internal internal_ip address old = address
if_internal _ address old = old

abbrev if_external : AddressType → String → String → String
if_external external_ip address old = address
if_external _ address old = old

-- the loop of `nodeOverlayIP` over the addresses, from the values found so far
last_addresses : List NodeAddress → String → String → String × String
last_addresses [] internal external = (internal, external)
last_addresses (a ∷ rest) internal external =
    last_addresses rest (if_internal a.kind a.address internal)
      (if_external a.kind a.address external)

pub node_overlay_ip : Node → Result String
unfolding last_addresses
node_overlay_ip n =
    let (internal, external) = last_addresses n.addresses "" "" in
    if non_empty internal
    then ok internal
    else if non_empty external
    then ok external
    else err (msg "no valid node IP found for tunnel overlay")

pub node_pod_cidr : Node → Result String
node_pod_cidr n =
    if non_empty n.pod_cidr then ok n.pod_cidr else err (msg "node did not have pod CIDR set")

pub node_to_vswitch_config :
    Node → (overlay_type overlay_ip pod_cidr cluster_cidr service_cidr : String) → VSwitchConfig
node_to_vswitch_config n overlay_type overlay_ip pod_cidr cluster_cidr service_cidr = record {
  name = n.name;
  resource_version = "";
  spec = record {
    pod_cidr = pod_cidr;
    cluster_cidr = cluster_cidr;
    service_cidr = service_cidr;
    overlay_ip = overlay_ip;
    overlay_type = overlay_type;
  };
}

-- the four comparisons at the end of `needsUpdate`
abbrev pub changed : Settings → String → String → VSwitchConfigSpec → Bool
changed v overlay_ip pod_cidr spec =
    not (str_eq spec.overlay_ip overlay_ip)
    || not (str_eq spec.overlay_type v.overlay_type)
    || not (str_eq spec.pod_cidr pod_cidr)
    || not (str_eq spec.cluster_cidr v.cluster_cidr)

module _ {S : Type 0} (api : ConfigApi S) (v : Settings) where
  -- `needsUpdate` after the lister's answer
  needs_update_from : Node → Result VSwitchConfig → Result Bool
  unfolding node_overlay_ip node_pod_cidr
  needs_update_from n (ok cfg) = do
    overlay_ip ← context "failed to get overlay IP for node" (node_overlay_ip n)
    pod_cidr ← context "failed to get pod CIDR for node" (node_pod_cidr n)
    ok (changed v overlay_ip pod_cidr cfg.spec)
  needs_update_from n (err e) =
      if is_not_found e then ok true else context "error getting vswitch config from lister" (err e)
  needs_update_from n panic = panic

  pub needs_update : Node → S → Result Bool
  unfolding needs_update_from
  needs_update n s = needs_update_from n (api.get n.name s)

  -- the fields that `syncVSwitchConfig` writes on the deep copy
  abbrev with_spec : VSwitchConfig → String → String → VSwitchConfig
  with_spec cfg overlay_ip pod_cidr = record cfg {
    spec = record cfg.spec {
      overlay_ip = overlay_ip;
      overlay_type = v.overlay_type;
      pod_cidr = pod_cidr;
      cluster_cidr = v.cluster_cidr;
      service_cidr = v.service_cidr;
    };
  }

  -- `syncVSwitchConfig` after the lister's answer
  write_config : Node → String → String → Result VSwitchConfig → Exec S (Unit {0})
  unfolding node_to_vswitch_config
  write_config n overlay_ip pod_cidr (ok cfg) s = api.update (with_spec cfg overlay_ip pod_cidr) s
  write_config n overlay_ip pod_cidr (err e) s =
      if is_not_found e
      then api.create
          (node_to_vswitch_config n v.overlay_type overlay_ip pod_cidr v.cluster_cidr
            v.service_cidr)
          s
      else (context "error getting vswitch config from cache" (err e), s)
  write_config n overlay_ip pod_cidr panic s = (panic, s)

  -- an error before the lister is asked leaves the state alone
  sync_from : Node → Result String → Result String → Exec S (Unit {0})
  unfolding write_config
  sync_from n (ok overlay_ip) (ok pod_cidr) s =
      write_config n overlay_ip pod_cidr (api.get n.name s) s
  sync_from n (ok overlay_ip) (err e) s = (err e, s)
  sync_from n (ok overlay_ip) panic s = (panic, s)
  sync_from n (err e) _ s = (err e, s)
  sync_from n panic _ s = (panic, s)

  pub sync_vswitch_config : Node → Exec S (Unit {0})
  unfolding sync_from node_overlay_ip node_pod_cidr
  sync_vswitch_config n =
      sync_from n (context "error getting overlay IP for node" (node_overlay_ip n))
        (context "failed to get pod CIDR for node" (node_pod_cidr n))

  -- the end of `OnAdd` and `OnUpdate`: an error of the check is logged and ends the call, one of
  -- the sync is logged
  sync_if : Node → Result Bool → Exec S (Unit {0})
  sync_if n (ok true) s = logged (sync_vswitch_config n) s
  sync_if n (ok false) s = (ok tt, s)
  sync_if n (err e) s = (ok tt, s)
  sync_if n panic s = (panic, s)

  pub on_add : Obj → Exec S (Unit {0})
  unfolding sync_if
  on_add (node n) s = sync_if n (needs_update n s) s
  on_add other s = (ok tt, s)

  -- no `return` follows the failed assertion, and reading the name of the nil node panics
  pub on_update : Obj → Obj → Exec S (Unit {0})
  unfolding sync_if
  on_update old (node n) s = sync_if n (needs_update n s) s
  on_update old other s = (panic, s)

  pub on_delete : Obj → Exec S (Unit {0})
  on_delete (node n) s = logged (api.delete n.name) s
  on_delete other s = (panic, s)
