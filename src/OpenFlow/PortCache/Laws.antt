-- ===== src/OpenFlow/PortCache/Laws.antt =====
-- The port cache as a map from pods to ports.
use k_vswitch.Prelude.{
  ◌≡◌, refl, ap, sym, ◌∙◌, ◌≢◌, String, Option, none, some, List, [], ◌∷◌, arith, str_eq, eq_iff,
  if◌then◌else◌, Bool-cases, inl, inr, All,
}
use k_vswitch.Text.{◌++◌, split}
use k_vswitch.Text.Laws.{Lacks, split-append, append_cancel_left}
use k_vswitch.Result.{Result, ok, err, panic}
use text.Mathlib.TextPositions.{eq_refl}
use k_vswitch.OpenFlow.Kube.{Pod}
use k_vswitch.OpenFlow.Ovs.{Ovs, PortInfo, port_info_of}
use k_vswitch.OpenFlow.PortCache.{
  PortCache, port_cache_key_for_pod, lookup, without, store_info, remember, from_cache,
  get_port_info, del_port_info,
}

lookup-without :
    (gone wanted : String) (entries : List (String × PortInfo))
    → lookup wanted (without gone entries)
      ≡ (if str_eq gone wanted then none else lookup wanted entries)
unfolding lookup without
lookup-without gone wanted [] = ground arith
lookup-without gone wanted ((name, info) ∷ rest) =
    let tail = lookup-without gone wanted rest in
    ground (arith, tail, eq_iff gone wanted, eq_iff name wanted, eq_iff name gone)

-- Different pods have different keys, since a namespace holds no slash.
pub port_cache_key-injective :
    (p q : Pod)
    → Lacks "/" p.namespace
    → Lacks "/" q.namespace
    → port_cache_key_for_pod p ≡ port_cache_key_for_pod q
    → (p.namespace ≡ q.namespace) × (p.name ≡ q.name)
unfolding port_cache_key_for_pod
port_cache_key-injective p q hp hq e =
    let first : (p.namespace ∷ split "/" p.name) ≡ (q.namespace ∷ split "/" q.name) =
      sym (split-append "/" p.namespace p.name hp)
      ∙ ap (split "/") e
      ∙ split-append "/" q.namespace q.name hq in
    let same : p.namespace ≡ q.namespace = cc first in
    (
      same,
      append_cancel_left "/" p.name q.name (
          append_cancel_left q.namespace ("/" ++ p.name) ("/" ++ q.name)
            (ap (λ n. n ++ "/" ++ p.name) (sym same) ∙ e)),
    )

module _ (pod : Pod) where
  abbrev key : String
  key = port_cache_key_for_pod pod

  hit_again :
      (later : Ovs) (s : PortCache) (info : PortInfo)
      → lookup key s.store ≡ some info
      → get_port_info later pod s ≡ (ok info, s)
  unfolding get_port_info
  hit_again later s info h = rw h

  lookup-store_info :
      (info : PortInfo) (s : PortCache) → lookup key (store_info key info s).store ≡ some info
  unfolding lookup
  lookup-store_info info s = rw (eq_refl key)

  remember-lookup :
      (r : Result PortInfo) (s s' : PortCache) (info : PortInfo)
      → remember pod r s ≡ (ok info, s')
      → lookup key s'.store ≡ some info
  unfolding remember
  remember-lookup (ok i) s s' info h =
      rw (← ap (λ (x : Result PortInfo × PortCache). x.1) h) (lookup-store_info i s ∙ cc h)
  remember-lookup (err e) s s' info h = cc
  remember-lookup panic s s' info h = cc

  from_cache-lookup :
      (ovs : Ovs) (o : Option PortInfo) (s s' : PortCache) (info : PortInfo)
      → lookup key s.store ≡ o
      → from_cache ovs pod o s ≡ (ok info, s')
      → lookup key s'.store ≡ some info
  unfolding from_cache
  from_cache-lookup ovs (some port) s s' info e h =
      rw (← ap (λ (x : Result PortInfo × PortCache). x.1) h) (e ∙ cc h)
  from_cache-lookup ovs none s s' info e h =
      remember-lookup (port_info_of ovs pod.namespace pod.name) s s' info h

  remember-ne :
      (r : Result PortInfo) (s : PortCache) (other : String)
      → key ≢ other
      → lookup other (remember pod r s).1.store ≡ lookup other s.store
  unfolding remember lookup
  remember-ne (ok i) s other n = ground (arith, eq_iff key other, lookup-without key other s.store)
  remember-ne (err e) s other n = refl
  remember-ne panic s other n = refl

  from_cache-ne :
      (ovs : Ovs) (o : Option PortInfo) (s : PortCache) (other : String)
      → key ≢ other
      → lookup other (from_cache ovs pod o s).1.store ≡ lookup other s.store
  unfolding from_cache
  from_cache-ne ovs (some port) s other n = refl
  from_cache-ne ovs none s other n = remember-ne (port_info_of ovs pod.namespace pod.name) s other n

  -- A query, answered or failed, leaves the entries of other keys as they were, and so does a
  -- deletion, which drops the entry of its own pod.
  pub port_cache_frame :
      (ovs : Ovs) (s : PortCache) (other : String)
      → key ≢ other
      → (lookup other (get_port_info ovs pod s).1.store ≡ lookup other s.store)
        × (lookup other (del_port_info pod s).store ≡ lookup other s.store)
        × (lookup key (del_port_info pod s).store ≡ none)
  unfolding get_port_info del_port_info
  port_cache_frame ovs s other n = (
    from_cache-ne ovs (lookup key s.store) s other n,
    ground (arith, eq_iff key other, lookup-without key other s.store),
    ground (arith, eq_iff key key, lookup-without key key s.store),
  )

-- Asking for a port panics only where asking ovs-vsctl does.
pub get_port_info-panics :
    (ovs : Ovs) (pod : Pod) (s : PortCache)
    → port_info_of ovs pod.namespace pod.name ≢ panic
    → (get_port_info ovs pod s).0 ≢ panic
unfolding get_port_info from_cache remember
get_port_info-panics ovs pod s h = from_found (lookup (port_cache_key_for_pod pod) s.store)
  where
    remembered : (r : Result PortInfo) → r ≢ panic → (remember pod r s).0 ≢ panic
    remembered (ok info) k e = cc
    remembered (err e') k e = cc
    remembered panic k e = k refl

    from_found : (found : Option PortInfo) → (from_cache ovs pod found s).0 ≢ panic
    from_found (some info) e = cc
    from_found none e = remembered (port_info_of ovs pod.namespace pod.name) h e

-- What is done to the cache: queries, whatever ovs-vsctl answers to each, and deletions.
pub data Use : Type 0 where
  queries : Ovs → Pod → Use
  deletes : Pod → Use

abbrev pub run_uses : List Use → PortCache → PortCache
run_uses [] s = s
run_uses (queries ovs p ∷ uses) s = run_uses uses (get_port_info ovs p s).1
run_uses (deletes p ∷ uses) s = run_uses uses (del_port_info p s)

-- the pod's key is not deleted; it may be asked for
abbrev pub Spares : Pod → Use → Type 0
Spares pod (queries ovs p) = Unit
Spares pod (deletes p) = port_cache_key_for_pod p ≢ port_cache_key_for_pod pod

abbrev no_ovs : Ovs
no_ovs = record { vsctl = λ args. panic; decode = λ text. panic }

module _ (pod : Pod) (info : PortInfo) where
  abbrev Holds : PortCache → Type 0
  Holds s = lookup (port_cache_key_for_pod pod) s.store ≡ some info

  query-Holds : (ovs : Ovs) (p : Pod) (s : PortCache) → Holds s → Holds (get_port_info ovs p s).1
  query-Holds ovs p s h =
      elim (Bool-cases (str_eq (port_cache_key_for_pod p) (port_cache_key_for_pod pod))) [
        | inl e ↦
            let same : port_cache_key_for_pod p ≡ port_cache_key_for_pod pod = (eq_iff _ _).0 e in
            let found : lookup (port_cache_key_for_pod p) s.store ≡ some info =
              ap (λ k. lookup k s.store) same ∙ h in
            ap (λ (x : Result PortInfo × PortCache). lookup (port_cache_key_for_pod pod) x.1.store)
              (hit_again p ovs s info found)
            ∙ h
        | inr e ↦
            (port_cache_frame p ovs s (port_cache_key_for_pod pod) (λ q.
              ground (arith, eq_iff (port_cache_key_for_pod p) (port_cache_key_for_pod pod)))).0
            ∙ h
      ]

  uses-Holds :
      (uses : List Use) (s : PortCache) → All (Spares pod) uses → Holds s → Holds (run_uses uses s)
  uses-Holds [] s spared h = h
  uses-Holds (queries ovs p ∷ uses) s (spared, rest) h =
      uses-Holds uses (get_port_info ovs p s).1 rest (query-Holds ovs p s h)
  uses-Holds (deletes p ∷ uses) s (spared, rest) h =
      uses-Holds uses (del_port_info p s) rest
        ((port_cache_frame p no_ovs s (port_cache_key_for_pod pod) spared).1 ∙ h)

  -- What a successful query returned is what every later query of the pod returns, until its key is
  -- deleted: whatever is asked and deleted for other pods in between, no later answer of ovs-vsctl
  -- is looked at, and the query leaves the cache as it is.
  pub get_port_info-cached :
      (ovs later : Ovs) (s s' : PortCache) (uses : List Use)
      → get_port_info ovs pod s ≡ (ok info, s')
      → All (Spares pod) uses
      → get_port_info later pod (run_uses uses s') ≡ (ok info, run_uses uses s')
  get_port_info-cached ovs later s s' uses h spared = hit_again pod later (run_uses uses s') info (
      uses-Holds uses s' spared (
        from_cache-lookup pod ovs (lookup (port_cache_key_for_pod pod) s.store) s s' info refl
          (unfold get_port_info in h)))

-- a pod whose port ovs-vsctl tells is answered for, from the cache or anew
pub get_port_info-known :
    (ovs : Ovs) (pod : Pod) (p : PortCache) (info : PortInfo)
    → port_info_of ovs pod.namespace pod.name ≡ ok info
    → (port : PortInfo) × ((get_port_info ovs pod p).0 ≡ ok port)
unfolding get_port_info from_cache remember
get_port_info-known ovs pod p info h = by_entry (lookup (port_cache_key_for_pod pod) p.store)
  where
    by_entry : (o : Option PortInfo) → (port : PortInfo) × ((from_cache ovs pod o p).0 ≡ ok port)
    by_entry (some port) = (port, refl)
    by_entry none = (info, ap (λ r. (remember pod r p).0) h)
