-- ===== src/OpenFlow/PortCache/Entries.antt =====
-- What holds of every entry of the port cache of controllers/openflow/port_cache.go, and of the
-- answers of ovs-vsctl, holds of what the cache answers.
use mathlib.Core.Path.{subst}
use k_vswitch.Prelude.{
  ◌≡◌, refl, String, Bool, true, false, Option, none, some, List, [], ◌∷◌, All, str_eq, eq_iff,
  if◌then◌else◌,
}
use k_vswitch.Text.Decimal.Bounds.{OnSome}
use k_vswitch.Result.{Result, ok, err, panic}
use k_vswitch.OpenFlow.Kube.{Pod}
use k_vswitch.OpenFlow.Ovs.{Ovs, PortInfo, port_info_of}
use k_vswitch.OpenFlow.PortCache.{
  PortCache, port_cache_key_for_pod, lookup, without, remember, from_cache, get_port_info,
}

abbrev pub OnOk : {A : Type 0} → (A → Type 0) → Result A → Type 0
OnOk P (ok a) = P a
OnOk P (err e) = Unit
OnOk P panic = Unit

module _ (G : String → PortInfo → Type 0) where
  abbrev pub AllGood : List (String × PortInfo) → Type 0
  AllGood entries = All (λ (x : String × PortInfo). G x.0 x.1) entries

  lookup-Good :
      (key : String) (entries : List (String × PortInfo))
      → AllGood entries
      → OnSome (G key) (lookup key entries)
  unfolding lookup
  lookup-Good key [] h = tt
  lookup-Good key ((k, info) ∷ rest) (here, there) =
      by_test (str_eq k key) refl (lookup-Good key rest there)
    where
      by_test :
          (b : Bool)
          → str_eq k key ≡ b
          → OnSome (G key) (lookup key rest)
          → OnSome (G key) (if b then some info else lookup key rest)
      by_test true e more = subst (λ x. G x info) ((eq_iff k key).0 e) here
      by_test false e more = more

  without-AllGood :
      (key : String) (entries : List (String × PortInfo))
      → AllGood entries
      → AllGood (without key entries)
  unfolding without
  without-AllGood key [] h = tt
  without-AllGood key ((k, info) ∷ rest) (here, there) =
      by_test (str_eq k key) (without-AllGood key rest there)
    where
      by_test :
          (b : Bool)
          → AllGood (without key rest)
          → AllGood (if b then without key rest else (k, info) ∷ without key rest)
      by_test true more = more
      by_test false more = (here, more)

  module _ (pod : Pod) where
    remember-Good :
        (r : Result PortInfo) (p : PortCache)
        → OnOk (G (port_cache_key_for_pod pod)) r
        → AllGood p.store
        → OnOk (G (port_cache_key_for_pod pod)) (remember pod r p).0
          × AllGood (remember pod r p).1.store
    unfolding remember
    remember-Good (ok info) p h k = (h, (h, without-AllGood (port_cache_key_for_pod pod) p.store k))
    remember-Good (err e) p h k = (tt, k)
    remember-Good panic p h k = (tt, k)

    from_cache-Good :
        (ovs : Ovs) (o : Option PortInfo) (p : PortCache)
        → OnOk (G (port_cache_key_for_pod pod)) (port_info_of ovs pod.namespace pod.name)
        → OnSome (G (port_cache_key_for_pod pod)) o
        → AllGood p.store
        → OnOk (G (port_cache_key_for_pod pod)) (from_cache ovs pod o p).0
          × AllGood (from_cache ovs pod o p).1.store
    unfolding from_cache
    from_cache-Good ovs (some info) p a h k = (h, k)
    from_cache-Good ovs none p a h k = remember-Good (port_info_of ovs pod.namespace pod.name) p a k

    pub get_port_info-Good :
        (ovs : Ovs) (p : PortCache)
        → OnOk (G (port_cache_key_for_pod pod)) (port_info_of ovs pod.namespace pod.name)
        → AllGood p.store
        → OnOk (G (port_cache_key_for_pod pod)) (get_port_info ovs pod p).0
          × AllGood (get_port_info ovs pod p).1.store
    unfolding get_port_info
    get_port_info-Good ovs p a h =
        from_cache-Good ovs (lookup (port_cache_key_for_pod pod) p.store) p a
          (lookup-Good (port_cache_key_for_pod pod) p.store h) h
