-- ===== src/Cni/BridgeAddr/Laws.antt =====
-- The addresses that the bridge has after `ensureBridgeAddr`.
use k_vswitch.Prelude.{
  ◌≡◌, refl, sym, ap, ◌∙◌, Bool, true, false, ◌&&◌, List, [], ◌∷◌, if◌then◌else◌,
}
use k_vswitch.Bools.{true_not_false, or_first, or_second}
use k_vswitch.Result.{context, msg, Result, ok, err, panic}
use k_vswitch.Exec.{◌>>◌, continue, lift, skip, annotated}
use k_vswitch.Trace.{Trace, is_ok}
use k_vswitch.Cni.Network.{Family, Net, net_eq}
use k_vswitch.Cni.Host.{
  Interface, Call, link_set_hardware_addr, addr_list, addr_add, addr_del, Host, C, perform,
}
use k_vswitch.Cni.BridgeAddr.{
  conflicts, listed, delete_bridge_addr, add_bridge_addr, ensure_from, ensure_bridge_addr,
}
use k_vswitch.Cni.BridgeAddr.Addresses.{has, bridge_addrs, net_eq_same, net_eq_refl, has-remove_net}

abbrev value_of : Result (List Net) → List Net
value_of (ok addrs) = addrs
value_of (err e) = []
value_of panic = []

module _ (host : Host) (br : Interface) (family : Family) (ipn : Net) (base : List Net) where
  abbrev now : {A : Type 0} → Result A × Trace Call → List Net
  now x = bridge_addrs base x.1

  -- a call that ends well has its effect, and another has none
  del-addrs :
      (n a : Net) (t : Trace Call)
      → net_eq a n ≡ false
      → has n (bridge_addrs base t) ≡ true
      → has n (now (delete_bridge_addr host br a t)) ≡ true
  unfolding delete_bridge_addr bridge_addrs
  del-addrs n a t other h = by_answer (host.perform (addr_del br.name a) t)
    where
      by_answer :
          (r : Result (Unit {0}))
          → has n (bridge_addrs base ((addr_del br.name a, is_ok r) ∷ t)) ≡ true
      by_answer (ok u) = has-remove_net n a (bridge_addrs base t) other h
      by_answer (err e) = h
      by_answer panic = h

  -- the end of the code keeps what is there, and adds the address where it ends well
  add-keeps :
      (n : Net) (t : Trace Call)
      → has n (bridge_addrs base t) ≡ true
      → has n (now (add_bridge_addr host br ipn t)) ≡ true
  unfolding add_bridge_addr bridge_addrs
  add-keeps n t h = by_answer (host.perform (addr_add br.name ipn) t)
    where
      by_answer :
          (r : Result (Unit {0}))
          → has n (
              now (
                continue
                  (context "could not add IP address" r)
                  (λ u.
                    annotated "could not set bridge's mac"
                      (perform host (link_set_hardware_addr br.name br.mac)))
                  ((addr_add br.name ipn, is_ok r) ∷ t)))
            ≡ true
      by_answer (ok u) = or_second (net_eq ipn n) (has n (bridge_addrs base t)) h
      by_answer (err e) = h
      by_answer panic = h

  -- the end of the code, where it ends well, has added the address
  add-has :
      (t : Trace Call)
      → is_ok (add_bridge_addr host br ipn t).0 ≡ true
      → has ipn (now (add_bridge_addr host br ipn t)) ≡ true
  unfolding add_bridge_addr bridge_addrs
  add-has t good = by_answer (host.perform (addr_add br.name ipn) t) good
    where
      by_answer :
          (r : Result (Unit {0}))
          → let x =
              continue
                (context "could not add IP address" r)
                (λ u.
                  annotated "could not set bridge's mac"
                    (perform host (link_set_hardware_addr br.name br.mac)))
                ((addr_add br.name ipn, is_ok r) ∷ t) in
            is_ok x.0 ≡ true → has ipn (now x) ≡ true
      by_answer (ok u) good =
          or_first (net_eq ipn ipn) (has ipn (bridge_addrs base t)) (net_eq_refl ipn)
      by_answer (err e) good = cc
      by_answer panic good = cc

  -- an address that the code may not delete stays, whatever the outcome
  ensure_from-keeps :
      (force_address : Bool) (n : Net) (addrs : List Net) (t : Trace Call)
      → (force_address && conflicts family ipn n) ≡ false
      → has n (bridge_addrs base t) ≡ true
      → has n (now (ensure_from host br family ipn force_address addrs t)) ≡ true
  unfolding ensure_from
  ensure_from-keeps force_address n [] t spared h = add-keeps n t h
  ensure_from-keeps force_address n (a ∷ addrs) t spared h =
      by_tests (net_eq a ipn) (conflicts family ipn a) refl force_address spared
        (ensure_from host br family ipn force_address addrs)
        (λ t' h'. ensure_from-keeps force_address n addrs t' spared h')
    where
      then_rest :
          (m : C (Unit {0})) (x : Result (Unit {0}) × Trace Call)
          → ((t' : Trace Call) → has n (bridge_addrs base t') ≡ true → has n (now (m t')) ≡ true)
          → has n (now x) ≡ true
          → has n (now (continue x.0 (λ u. m) x.1)) ≡ true
      then_rest m (ok u, t') ih h' = ih t' h'
      then_rest m (err e, t') ih h' = h'
      then_rest m (panic, t') ih h' = h'

      apart :
          (force_address : Bool)
          → force_address ≡ true
          → (force_address && conflicts family ipn n) ≡ false
          → conflicts family ipn a ≡ true
          → (b : Bool) → net_eq a n ≡ b
          → b ≡ false
      apart false f s c b e = cc
      apart true f s c false e = refl
      apart true f s c true e =
          absurd (true_not_false (sym c ∙ ap (λ y. conflicts family ipn y) (net_eq_same a n e) ∙ s))

      by_tests :
          (eq c : Bool)
          → conflicts family ipn a ≡ c
          → (force : Bool) → (force && conflicts family ipn n) ≡ false
          → (m : C (Unit {0}))
          → ((t' : Trace Call) → has n (bridge_addrs base t') ≡ true → has n (now (m t')) ≡ true)
          → has n (
              now (
                (if eq
                    then skip
                    else if c
                    then (if force
                        then delete_bridge_addr host br a >> m
                        else lift (err (msg "bridge already has a different IP address")))
                    else m)
                  t))
            ≡ true
      by_tests true c e force s m ih = h
      by_tests false false e force s m ih = ih t h
      by_tests false true e false s m ih = h
      by_tests false true e true s m ih =
          then_rest m (delete_bridge_addr host br a t) ih
            (del-addrs n a t (apart true refl s e (net_eq a n) refl) h)

  -- where the code ends well, the address is on the bridge, if the listed addresses did not lie
  ensure_from-has :
      (force_address : Bool) (addrs : List Net) (t : Trace Call)
      → (has ipn addrs ≡ true → has ipn (bridge_addrs base t) ≡ true)
      → is_ok (ensure_from host br family ipn force_address addrs t).0 ≡ true
      → has ipn (now (ensure_from host br family ipn force_address addrs t)) ≡ true
  unfolding ensure_from
  ensure_from-has force_address [] t true_list good = add-has t good
  ensure_from-has force_address (a ∷ addrs) t true_list good =
      by_tests (net_eq a ipn) refl (conflicts family ipn a) force_address
        (ensure_from host br family ipn force_address addrs)
        (λ t'. ensure_from-has force_address addrs t') good
    where
      Rest : C (Unit {0}) → Type 0
      Rest m =
          (t' : Trace Call)
          → (has ipn addrs ≡ true → has ipn (bridge_addrs base t') ≡ true)
          → is_ok (m t').0 ≡ true
          → has ipn (now (m t')) ≡ true

      listed_now : has ipn addrs ≡ true → has ipn (bridge_addrs base t) ≡ true
      listed_now h = true_list (or_second (net_eq a ipn) (has ipn addrs) h)

      then_rest :
          (m : C (Unit {0})) (x : Result (Unit {0}) × Trace Call)
          → Rest m
          → (has ipn addrs ≡ true → has ipn (now x) ≡ true)
          → is_ok (continue x.0 (λ u. m) x.1).0 ≡ true
          → has ipn (now (continue x.0 (λ u. m) x.1)) ≡ true
      then_rest m (ok u, t') ih h good = ih t' h good
      then_rest m (err e, t') ih h good = cc
      then_rest m (panic, t') ih h good = cc

      by_tests :
          (eq : Bool)
          → net_eq a ipn ≡ eq
          → (c force : Bool) (m : C (Unit {0})) → Rest m
          → let x =
              (if eq
                  then skip
                  else if c
                  then (if force
                      then delete_bridge_addr host br a >> m
                      else lift (err (msg "bridge already has a different IP address")))
                  else m)
                t in
            is_ok x.0 ≡ true → has ipn (now x) ≡ true
      by_tests true e c force m ih good = true_list (or_first (net_eq a ipn) (has ipn addrs) e)
      by_tests false e false force m ih good = ih t listed_now good
      by_tests false e true false m ih good = cc
      by_tests false e true true m ih good =
          then_rest m (delete_bridge_addr host br a t) ih (λ h. del-addrs ipn a t e (listed_now h))
            good

  module _ (force_address : Bool) (t : Trace Call) where
    -- An address that was on the bridge is still there, whatever the outcome, unless the code was
    -- told to delete what conflicts with the wanted address and this one does.
    pub ensure_bridge_addr-keeps :
        (n : Net)
        → (force_address && conflicts family ipn n) ≡ false
        → has n (bridge_addrs base t) ≡ true
        → has n (bridge_addrs base (ensure_bridge_addr host br family ipn force_address t).1) ≡ true
    unfolding ensure_bridge_addr bridge_addrs
    ensure_bridge_addr-keeps n spared h = by_answer (listed (host.addrs br.name family t))
      where
        by_answer :
            (r : Result (List Net))
            → has n (
                now (
                  continue r
                    (λ addrs. ensure_from host br family ipn force_address addrs)
                    ((addr_list br.name family, is_ok (host.addrs br.name family t)) ∷ t)))
              ≡ true
        by_answer (ok addrs) = ensure_from-keeps force_address n addrs _ spared h
        by_answer (err e) = h
        by_answer panic = h

    -- Where the listing answers with the addresses of the bridge and the code ends well, the wanted
    -- address is on the bridge.
    pub ensure_bridge_addr-has :
        listed (host.addrs br.name family t) ≡ ok (bridge_addrs base t)
        → is_ok (ensure_bridge_addr host br family ipn force_address t).0 ≡ true
        → has ipn (bridge_addrs base (ensure_bridge_addr host br family ipn force_address t).1)
          ≡ true
    unfolding ensure_bridge_addr bridge_addrs
    ensure_bridge_addr-has listing good =
        by_answer (listed (host.addrs br.name family t)) listing good
      where
        by_answer :
            (r : Result (List Net))
            → r ≡ ok (bridge_addrs base t)
            → let x =
                continue r
                  (λ addrs. ensure_from host br family ipn force_address addrs)
                  ((addr_list br.name family, is_ok (host.addrs br.name family t)) ∷ t) in
              is_ok x.0 ≡ true → has ipn (now x) ≡ true
        by_answer (ok addrs) same good =
            ensure_from-has force_address addrs _
              (λ h. ap (λ l. has ipn (value_of l)) (sym same) ∙ h) good
        by_answer (err e) same good = cc
        by_answer panic same good = cc
