-- ===== src/VSwitchCfg/Reconcile.antt =====
-- What the handlers of the node informer bring about.
use mathlib.Core.Path.{subst}
use k_vswitch.Prelude.{String, Bool, true, false, ◌≡◌, refl, ◌↔◌, arith, eq_iff}
use k_vswitch.Result.{msg, wrap, not_found, Result, ok, err, panic, ◌>>=◌, context}
use k_vswitch.VSwitchCfg.{
  VSwitchConfigSpec, VSwitchConfig, Node, Obj, node, ConfigApi, Settings, node_overlay_ip,
  node_pod_cidr, node_to_vswitch_config, changed, needs_update_from, needs_update, with_spec,
  sync_from, write_config, sync_vswitch_config, sync_if, on_add, on_update,
}

-- What the API server and the informer's cache are documented to do. An object is listed under its
-- name. A write that succeeds is listed once the cache has caught up, which it has in the state
-- `caught_up`: with the spec that was written, and with the metadata that the server gives it, such
-- as a new resource version.
pub record IsStore {S : Type 0} (api : ConfigApi S) (caught_up : S → S) : Type 0 where
  pub name-get :
      (name : String) (s : S) (cfg : VSwitchConfig) → api.get name s ≡ ok cfg → cfg.name ≡ name
  pub get-create :
      (cfg : VSwitchConfig) (s s' : S)
      → api.create cfg s ≡ (ok tt, s')
      → (stored : VSwitchConfig) × (api.get cfg.name (caught_up s') ≡ ok stored)
        × (stored.spec ≡ cfg.spec)
  pub get-update :
      (cfg : VSwitchConfig) (s s' : S)
      → api.update cfg s ≡ (ok tt, s')
      → (stored : VSwitchConfig) × (api.get cfg.name (caught_up s') ≡ ok stored)
        × (stored.spec ≡ cfg.spec)

-- the configuration that a node should have
abbrev pub desired : Settings → String → String → VSwitchConfigSpec
desired v overlay_ip pod_cidr = record {
  pod_cidr = pod_cidr;
  cluster_cidr = v.cluster_cidr;
  service_cidr = v.service_cidr;
  overlay_ip = overlay_ip;
  overlay_type = v.overlay_type;
}

-- the cache lists the configuration that the node's addresses and pod CIDR determine
pub record IsConfigured {S : Type 0} (api : ConfigApi S) (v : Settings) (n : Node) (s : S)
    : Type 0 where
  pub cfg : VSwitchConfig
  pub overlay_ip : String
  pub pod_cidr : String
  pub stored : api.get n.name s ≡ ok cfg
  pub overlay : node_overlay_ip n ≡ ok overlay_ip
  pub pods : node_pod_cidr n ≡ ok pod_cidr
  pub spec : cfg.spec ≡ desired v overlay_ip pod_cidr

context-eq-ok {ℓ} :
    {A : Type ℓ} (text : String) (r : Result A) (a : A) → context text r ≡ ok a → r ≡ ok a
context-eq-ok text (ok b) a h = h
context-eq-ok text (err e) a h = cc
context-eq-ok text panic a h = cc

-- the node's address, type and CIDRs are those of the configuration; the service CIDR is not
-- looked at
abbrev pub Agrees : Settings → Node → VSwitchConfigSpec → Type 0
Agrees v n spec =
    (node_overlay_ip n ≡ ok spec.overlay_ip)
    × (node_pod_cidr n ≡ ok spec.pod_cidr)
    × (spec.overlay_type ≡ v.overlay_type)
    × (spec.cluster_cidr ≡ v.cluster_cidr)

-- `needsUpdate` for a listed configuration, from the two values computed from the node
abbrev compared : Settings → VSwitchConfigSpec → Result String → Result String → Result Bool
compared v spec overlay pods = do
  overlay_ip ← context "failed to get overlay IP for node" overlay
  pod_cidr ← context "failed to get pod CIDR for node" pods
  ok (changed v overlay_ip pod_cidr spec)

compared-eq-false_iff :
    (v : Settings) (spec : VSwitchConfigSpec) (overlay pods : Result String)
    → (compared v spec overlay pods ≡ ok false) ↔ (
        (overlay ≡ ok spec.overlay_ip)
        × (pods ≡ ok spec.pod_cidr)
        × (spec.overlay_type ≡ v.overlay_type)
        × (spec.cluster_cidr ≡ v.cluster_cidr))
compared-eq-false_iff v spec (ok ip) (ok cidr) = ground (
  arith,
  eq_iff spec.overlay_ip ip,
  eq_iff spec.overlay_type v.overlay_type,
  eq_iff spec.pod_cidr cidr,
  eq_iff spec.cluster_cidr v.cluster_cidr,
)
compared-eq-false_iff v spec (err e) pods = (λ h. cc, λ h. cc h.0)
compared-eq-false_iff v spec panic pods = (λ h. cc, λ h. cc h.0)
compared-eq-false_iff v spec (ok ip) (err e) = (λ h. cc, λ h. cc h.1)
compared-eq-false_iff v spec (ok ip) panic = (λ h. cc, λ h. cc h.1)

module _ {S : Type 0} (api : ConfigApi S) (v : Settings) where
  sync_from-eq-ok :
      (n : Node) (r q : Result String) (s s' : S)
      → sync_from api v n r q s ≡ (ok tt, s')
      → (ip : String) × (cidr : String) × (r ≡ ok ip)
        × (q ≡ ok cidr)
        × (write_config api v n ip cidr (api.get n.name s) s ≡ (ok tt, s'))
  unfolding sync_from
  sync_from-eq-ok n (ok ip) (ok cidr) s s' h = (ip, cidr, refl, refl, h)
  sync_from-eq-ok n (ok ip) (err e) s s' h = cc
  sync_from-eq-ok n (ok ip) panic s s' h = cc
  sync_from-eq-ok n (err e) q s s' h = cc
  sync_from-eq-ok n panic q s s' h = cc

  needs_update_from-eq-false_iff :
      (n : Node) (r : Result VSwitchConfig)
      → (needs_update_from api v n r ≡ ok false)
        ↔ ((cfg : VSwitchConfig) × (r ≡ ok cfg) × Agrees v n cfg.spec)
  unfolding needs_update_from
  needs_update_from-eq-false_iff n (ok cfg) =
      let agree = compared-eq-false_iff v cfg.spec (node_overlay_ip n) (node_pod_cidr n) in
      (λ h. (cfg, refl, agree.0 h), λ h. agree.1 (ground arith))
  needs_update_from-eq-false_iff n (err not_found) = (λ h. cc, λ h. cc h.1)
  needs_update_from-eq-false_iff n (err (msg m)) = (λ h. cc, λ h. cc h.1)
  needs_update_from-eq-false_iff n (err (wrap m e)) = (λ h. cc, λ h. cc h.1)
  needs_update_from-eq-false_iff n panic = (λ h. cc, λ h. cc h.1)

  -- No update is needed exactly if the node is listed with the address, the overlay type and the
  -- pod and cluster CIDRs that it should have. The service CIDR may be any.
  pub needs_update-eq-false_iff :
      (n : Node) (s : S)
      → (needs_update api v n s ≡ ok false)
        ↔ ((cfg : VSwitchConfig) × (api.get n.name s ≡ ok cfg) × Agrees v n cfg.spec)
  unfolding needs_update
  needs_update-eq-false_iff n s = needs_update_from-eq-false_iff n (api.get n.name s)

module _ {S : Type 0} (api : ConfigApi S) (caught_up : S → S) (v : Settings)
    (laws : IsStore api caught_up) where
  -- the cache lists the spec that a write left, once it has caught up
  abbrev Lists : String → VSwitchConfigSpec → S → Type 0
  Lists name spec s =
      (cfg : VSwitchConfig) × (api.get name (caught_up s) ≡ ok cfg) × (cfg.spec ≡ spec)

  write_config-get :
      (n : Node) (ip cidr : String) (r : Result VSwitchConfig) (s s' : S)
      → api.get n.name s ≡ r
      → write_config api v n ip cidr r s ≡ (ok tt, s')
      → Lists n.name (desired v ip cidr) s'
  unfolding write_config node_to_vswitch_config
  write_config-get n ip cidr (ok cfg) s s' e h =
      subst (λ k. Lists k (desired v ip cidr) s') (laws.name-get n.name s cfg e)
        (laws.get-update (with_spec api v cfg ip cidr) s s' h)
  write_config-get n ip cidr (err not_found) s s' e h = laws.get-create _ s s' h
  write_config-get n ip cidr (err (msg m)) s s' e h = cc
  write_config-get n ip cidr (err (wrap m x)) s s' e h = cc
  write_config-get n ip cidr panic s s' e h = cc

  -- A sync that returns no error leaves the node configured, once the cache has caught up.
  sync-IsConfigured :
      (n : Node) (s s' : S)
      → sync_vswitch_config api v n s ≡ (ok tt, s')
      → IsConfigured api v n (caught_up s')
  unfolding sync_vswitch_config
  sync-IsConfigured n s s' h =
      let (ip, cidr, e, q, w) = sync_from-eq-ok api v n _ _ s s' h in
      let (cfg, stored, spec) = write_config-get n ip cidr (api.get n.name s) s s' refl w in
      record {
        cfg = cfg;
        overlay_ip = ip;
        pod_cidr = cidr;
        stored = stored;
        overlay = context-eq-ok _ _ ip e;
        pods = context-eq-ok _ _ cidr q;
        spec = spec;
      }

  -- Then no update is needed.
  needs_update_of_IsConfigured :
      (n : Node) (s : S) → IsConfigured api v n s → needs_update api v n s ≡ ok false
  unfolding needs_update
  needs_update_of_IsConfigured n s h =
      (needs_update_from-eq-false_iff api v n (api.get n.name s)).1 (h.cfg, h.stored, ground arith)

  -- The cache lists an object under its name, and, once it has caught up, what a successful write
  -- left, under whatever resource version. When an update is needed and the write succeeds, `OnAdd`
  -- leaves the state as the write did; once the cache has caught up, it lists the configuration that
  -- the node's addresses and pod CIDR determine, and a second `OnAdd`, or `OnUpdate`, of the node
  -- changes nothing more.
  pub on_add_converges :
      (n : Node) (s s' : S) (old : Obj)
      → needs_update api v n s ≡ ok true
      → sync_vswitch_config api v n s ≡ (ok tt, s')
      → (on_add api v (node n) s ≡ (ok tt, s'))
        × IsConfigured api v n (caught_up s')
        × (on_add api v (node n) (caught_up s') ≡ (ok tt, caught_up s'))
        × (on_update api v old (node n) (caught_up s') ≡ (ok tt, caught_up s'))
  unfolding on_add on_update
  on_add_converges n s s' old need write =
      let configured = sync-IsConfigured n s s' write in
      let done = needs_update_of_IsConfigured n (caught_up s') configured in
      (rw (need, sync_if, write), configured, rw (done, sync_if), rw (done, sync_if))
