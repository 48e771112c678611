-- ===== src/Cni/Network/Gateways.antt =====
-- The default routes that `calcGateways` leaves.
use k_vswitch.Prelude.{
  ◌≡◌, refl, sym, ap, ◌∙◌, Bool, true, false, ◌&&◌, ◌||◌, not, Option, none, some, List, [], ◌∷◌,
  ◌++◌, any, str_eq, if◌then◌else◌,
}
use k_vswitch.Bools.{or_true, or_lift, or_none, or_swap}
use k_vswitch.Result.{msg, Result, ok, err, panic}
use k_vswitch.Cni.Network.{
  Family, family_v4, family_v6, Ip, IpConfig, Route, GwInfo, new_gw_info, NetConf, Calc,
  default_dst, is_set, is_default_route, info_of, with_default_route, calc_step, family_of,
  calc_from, calc_gateways,
}

-- a route to the default destination of a family
abbrev pub has_default : Family → List Route → Bool
has_default f routes = any (λ r. str_eq (default_dst f) r.dst) routes

abbrev same_family : Family → Option Family → Bool
same_family family_v4 (some family_v4) = true
same_family family_v6 (some family_v6) = true
same_family _ _ = false

abbrev pub has_address : Family → List IpConfig → Bool
has_address f ips = any (λ ipc. same_family f (family_of ipc.address.ip)) ips

any-append_left :
    {A : Type 0} (p : A → Bool) (xs ys : List A) → any p xs ≡ true → any p (xs ++ ys) ≡ true
any-append_left p [] ys h = cc
any-append_left p (x ∷ xs) ys h = by_first (p x) (any-append_left p xs ys) h
  where
    by_first :
        (b : Bool)
        → (any p xs ≡ true → any p (xs ++ ys) ≡ true)
        → (b || any p xs) ≡ true
        → (b || any p (xs ++ ys)) ≡ true
    by_first true ih h = refl
    by_first false ih h = ih h

any-append_last :
    {A : Type 0} (p : A → Bool) (xs : List A) (x : A) → p x ≡ true → any p (xs ++ (x ∷ [])) ≡ true
any-append_last p [] x h = rw h refl
any-append_last p (y ∷ xs) x h = by_first (p y) (any-append_last p xs x h)
  where
    by_first : (b : Bool) → any p (xs ++ (x ∷ [])) ≡ true → (b || any p (xs ++ (x ∷ []))) ≡ true
    by_first true h = refl
    by_first false h = h

default_dst_eq : (f : Family) → str_eq (default_dst f) (default_dst f) ≡ true
default_dst_eq family_v4 = refl
default_dst_eq family_v6 = refl

-- a route with a gateway that is the default route goes to the default destination
default_route-has_default :
    (f : Family) (routes : List Route)
    → any (is_default_route f) routes ≡ true
    → has_default f routes ≡ true
default_route-has_default f [] h = cc
default_route-has_default f (r ∷ routes) h =
    by_tests (is_set r.gw) (str_eq (default_dst f) r.dst) (default_route-has_default f routes) h
  where
    by_tests :
        (g d : Bool)
        → (any (is_default_route f) routes ≡ true → has_default f routes ≡ true)
        → (g && d || any (is_default_route f) routes) ≡ true
        → (d || has_default f routes) ≡ true
    by_tests g true ih h = refl
    by_tests true false ih h = ih h
    by_tests false false ih h = ih h

module _ (next_ip : Ip → Ip) (n : NetConf) where
  -- no route is lost
  with_default_route-keeps :
      (f g : Family) (gateway : Option Ip) (info : GwInfo) (routes : List Route)
      → has_default g routes ≡ true
      → has_default g (with_default_route next_ip n f gateway info routes) ≡ true
  with_default_route-keeps f g gateway info routes h =
      by_tests (n.is_default_gw && not info.default_route_found) (any (is_default_route f) routes)
    where
      by_tests :
          (b found : Bool)
          → has_default g (
              if b
              then (if found
                  then routes
                  else routes ++ (record { dst = default_dst f; gw = gateway } ∷ []))
              else routes)
            ≡ true
      by_tests true true = h
      by_tests true false = any-append_left (λ r. str_eq (default_dst g) r.dst) routes _ h
      by_tests false found = h

  with_default_route-has :
      (f : Family) (gateway : Option Ip) (info : GwInfo) (routes : List Route)
      → n.is_default_gw ≡ true
      → (info.default_route_found ≡ true → has_default f routes ≡ true)
      → has_default f (with_default_route next_ip n f gateway info routes) ≡ true
  with_default_route-has f gateway info routes default_gw h =
      rw default_gw (by_tests info.default_route_found (any (is_default_route f) routes) refl h)
    where
      by_tests :
          (found route_found : Bool)
          → any (is_default_route f) routes ≡ route_found
          → (found ≡ true → has_default f routes ≡ true)
          → has_default f (
              if true && not found
              then (if route_found
                  then routes
                  else routes ++ (record { dst = default_dst f; gw = gateway } ∷ []))
              else routes)
            ≡ true
      by_tests true b e h = h refl
      by_tests false true e h = default_route-has_default f routes e
      by_tests false false e h =
          any-append_last (λ r. str_eq (default_dst f) r.dst) routes _ (default_dst_eq f)

  -- A default route that was found, or added, is among the routes.
  abbrev IsRouted : Family → Calc → Type 0
  IsRouted g c = (info_of g c).default_route_found ≡ true → has_default g c.routes ≡ true

  calc_step-IsRouted :
      (f g : Family) (ipc : IpConfig) (c : Calc)
      → n.is_default_gw ≡ true
      → IsRouted f c
      → IsRouted g c
      → IsRouted g (calc_step next_ip n f ipc c)
  unfolding calc_step
  calc_step-IsRouted family_v4 family_v4 ipc c d hf hg found =
      with_default_route-has family_v4 _ c.gws_v4 c.routes d hf
  calc_step-IsRouted family_v4 family_v6 ipc c d hf hg found =
      with_default_route-keeps family_v4 family_v6 _ c.gws_v4 c.routes (hg found)
  calc_step-IsRouted family_v6 family_v4 ipc c d hf hg found =
      with_default_route-keeps family_v6 family_v4 _ c.gws_v6 c.routes (hg found)
  calc_step-IsRouted family_v6 family_v6 ipc c d hf hg found =
      with_default_route-has family_v6 _ c.gws_v6 c.routes d hf

  -- after an address of a family, a default route of it was found or added
  calc_step-found :
      (f g : Family) (ipc : IpConfig) (c : Calc)
      → n.is_default_gw ≡ true
      → (same_family g (some f) || (info_of g c).default_route_found) ≡ true
      → (info_of g (calc_step next_ip n f ipc c)).default_route_found ≡ true
  unfolding calc_step
  calc_step-found family_v4 family_v4 ipc c d h = rw d (or_true c.gws_v4.default_route_found)
  calc_step-found family_v4 family_v6 ipc c d h = h
  calc_step-found family_v6 family_v4 ipc c d h = h
  calc_step-found family_v6 family_v6 ipc c d h = rw d (or_true c.gws_v6.default_route_found)

  calc_from-has_default :
      (g : Family) (ips : List IpConfig) (c c' : Calc)
      → n.is_default_gw ≡ true
      → ((f : Family) → IsRouted f c)
      → ((info_of g c).default_route_found || has_address g ips) ≡ true
      → calc_from next_ip n ips c ≡ ok c'
      → has_default g c'.routes ≡ true
  unfolding calc_from
  calc_from-has_default g [] c c' d routed h e =
      ap (λ r. routes_has r) (sym e) ∙ routed g (or_none (info_of g c).default_route_found h)
    where
      routes_has : Result Calc → Bool
      routes_has (ok c) = has_default g c.routes
      routes_has (err e) = true
      routes_has panic = true
  calc_from-has_default g (ipc ∷ ips) c c' d routed h e =
      by_family (family_of ipc.address.ip) h e (λ c. calc_from-has_default g ips c c' d)
    where
      by_family :
          (o : Option Family)
          → ((info_of g c).default_route_found || (same_family g o || has_address g ips)) ≡ true
          → (elim o as (λ x. Result Calc) [
            | none ↦ err (msg "Unknown IP object")
            | some f ↦ calc_from next_ip n ips (calc_step next_ip n f ipc c)
          ])
            ≡ ok c'
          → ((c : Calc)
              → ((f : Family) → IsRouted f c)
              → ((info_of g c).default_route_found || has_address g ips) ≡ true
              → calc_from next_ip n ips c ≡ ok c'
              → has_default g c'.routes ≡ true)
          → has_default g c'.routes ≡ true
      by_family none h e ih = cc
      by_family (some f) h e ih =
          ih (calc_step next_ip n f ipc c)
            (λ g'. calc_step-IsRouted f g' ipc c d (routed f) (routed g'))
            (or_lift (same_family g (some f) || (info_of g c).default_route_found) _
              (has_address g ips) (calc_step-found f g ipc c d)
              (or_swap (info_of g c).default_route_found (same_family g (some f))
                (has_address g ips) h))
            e

  -- Where the plugin is the default gateway and the addresses are well formed, the routes after
  -- `calcGateways` have one to the default destination of each family of which there is an address.
  pub calc_gateways-has_default :
      (f : Family) (ips : List IpConfig) (routes : List Route) (c : Calc)
      → n.is_default_gw ≡ true
      → has_address f ips ≡ true
      → calc_gateways next_ip n ips routes ≡ ok c
      → has_default f c.routes ≡ true
  unfolding calc_gateways
  calc_gateways-has_default f ips routes c d h e =
      calc_from-has_default f ips _ c d start (or_start f h) e
    where
      none_yet : Calc
      none_yet = record { gws_v4 = new_gw_info; gws_v6 = new_gw_info; ips = []; routes = routes }

      start : (g : Family) → IsRouted g none_yet
      start family_v4 found = cc
      start family_v6 found = cc

      or_start :
          (g : Family)
          → has_address g ips ≡ true
          → ((info_of g none_yet).default_route_found || has_address g ips) ≡ true
      or_start family_v4 h = h
      or_start family_v6 h = h
