-- ===== src/Cni/BridgeAddr/Addresses.antt =====
-- The addresses of the bridge, as the calls of a trace leave them.
use k_vswitch.Prelude.{
  ◌≡◌, refl, ap, ◌∙◌, Bool, true, false, List, [], ◌∷◌, any, ◌==◌, if◌then◌else◌, ==_iff,
}
use mathlib.Core.Path.{ap₂}
use k_vswitch.Bools.{or_rest, or_map, and_both}
use k_vswitch.Trace.{Trace}
use k_vswitch.Cni.Network.{Ip, v4, v6, malformed, ip_eq, Net, net_eq}
use k_vswitch.Cni.Host.{Call, addr_add, addr_del}

abbrev pub has : Net → List Net → Bool
has n xs = any (λ a. net_eq a n) xs

unfoldable pub remove_net : Net → List Net → List Net
remove_net n [] = []
remove_net n (a ∷ xs) = let rest = remove_net n xs in if net_eq a n then rest else a ∷ rest

-- the addresses of the bridge after the calls, with those that it had before the first one; all
-- calls are taken to be about the one bridge
unfoldable pub bridge_addrs : List Net → Trace Call → List Net
unfolding remove_net
bridge_addrs base [] = base
bridge_addrs base ((addr_add name n, true) ∷ t) = n ∷ bridge_addrs base t
bridge_addrs base ((addr_del name n, true) ∷ t) = remove_net n (bridge_addrs base t)
bridge_addrs base (e ∷ t) = bridge_addrs base t

pub ip_eq_same : (a b : Ip) → ip_eq a b ≡ true → a ≡ b
ip_eq_same (v4 m) (v4 n) h = ap v4 ((==_iff m n).0 h)
ip_eq_same (v4 m) (v6 n) h = cc
ip_eq_same (v4 m) malformed h = cc
ip_eq_same (v6 m) (v4 n) h = cc
ip_eq_same (v6 m) (v6 n) h = ap v6 ((==_iff m n).0 h)
ip_eq_same (v6 m) malformed h = cc
ip_eq_same malformed (v4 n) h = cc
ip_eq_same malformed (v6 n) h = cc
ip_eq_same malformed malformed h = refl

pub ip_eq_refl : (a : Ip) → ip_eq a a ≡ true
ip_eq_refl (v4 m) = (==_iff m m).1 refl
ip_eq_refl (v6 m) = (==_iff m m).1 refl
ip_eq_refl malformed = refl

pub net_eq_same : (a b : Net) → net_eq a b ≡ true → a ≡ b
net_eq_same a b h =
    let both = and_both (ip_eq a.ip b.ip) (a.ones == b.ones) h in
    ap₂ (λ ip ones. record { ip = ip; ones = ones }) (ip_eq_same a.ip b.ip both.0)
      ((==_iff a.ones b.ones).0 both.1)

pub net_eq_refl : (a : Net) → net_eq a a ≡ true
net_eq_refl a = rw (ip_eq_refl a.ip) ((==_iff a.ones a.ones).1 refl)

-- an address that is not the removed one stays
pub has-remove_net :
    (n a : Net) (xs : List Net)
    → net_eq a n ≡ false
    → has n xs ≡ true
    → has n (remove_net a xs) ≡ true
unfolding remove_net
has-remove_net n a [] other h = h
has-remove_net n a (x ∷ xs) other h = by_eq (has-remove_net n a xs other) (net_eq x a) refl
  where
    by_eq :
        (has n xs ≡ true → has n (remove_net a xs) ≡ true)
        → (b : Bool) → net_eq x a ≡ b
        → has n (if b then remove_net a xs else x ∷ remove_net a xs) ≡ true
    by_eq ih true e =
        ih (or_rest (net_eq x n) (has n xs) (ap (λ y. net_eq y n) (net_eq_same x a e) ∙ other) h)
    by_eq ih false e = or_map (net_eq x n) (has n xs) (has n (remove_net a xs)) ih h
