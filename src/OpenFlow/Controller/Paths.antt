-- ===== src/OpenFlow/Controller/Paths.antt =====
-- The way of a packet through the tables of the bridge after one run of `syncFlows`.
use mathlib.Core.List.{Memᴰ}
use mathlib.Core.Path.{subst}
use k_vswitch.Prelude.{
  ℕ, suc, ℤ, pos, ◌≡◌, sym, ap, ◌∙◌, ◌⊎◌, inl, inr, String, Bool, true, false, not, List, str_eq,
}
use k_vswitch.Bools.{and_both, true_not_false}
use k_vswitch.Net.{IpNet}
use k_vswitch.Flows.{Flow}
use k_vswitch.VSwitchCfg.{VSwitchConfig}
use k_vswitch.OpenFlow.Kube.{Pod, NetworkPolicy}
use k_vswitch.OpenFlow.Config.{Config}
use k_vswitch.OpenFlow.PortCache.{PortCache}
use k_vswitch.OpenFlow.Policy.Table.{forbidden}
use k_vswitch.OpenFlow.Switch.{Packet, in_table, selects, Decides, Delivers, stops, goes_on}
use k_vswitch.OpenFlow.Controller.{Env}
use k_vswitch.OpenFlow.Controller.Sync.{wanted}
use k_vswitch.OpenFlow.Controller.Verdict.{applied_policies, wanted_verdict}
use k_vswitch.OpenFlow.Controller.Origins.{table-All}
use k_vswitch.OpenFlow.Controller.Routes.{route, taken_route}
use k_vswitch.OpenFlow.Controller.Classes.{
  next_table, for_host, next_table-for_host, classified, matches-dest,
}
use k_vswitch.OpenFlow.Controller.Tables.{
  IsPort, IsEntry, IsPass, origins-IsEntry, origins-IsPass, origins-IsPort,
}

stays_or_goes : (r : ℤ) (k : ℕ) → r ≡ pos 0 → r ≡ pos (suc k) → ⊥
stays_or_goes r k h e = cc

module _ {A : Type 0} (covers : String → A → Bool) (p : Packet A) (fs : List Flow) where
  -- a packet goes where the flow that decides sends it
  sent :
      (f g : Flow) (t : ℤ) (k : ℕ)
      → g.resubmit ≡ t
      → g.resubmit ≡ pos (suc k)
      → Delivers covers fs p (pos (suc k)) f
      → Delivers covers fs p t f
  sent f g t k h r rest = subst (λ z. Delivers covers fs p z f) (sym r ∙ h) rest

  goes :
      (f : Flow) (t : ℤ) (n : ℕ)
      → ((g : Flow) → Decides covers (in_table t fs) p g → g.resubmit ≡ pos (suc n))
      → Delivers covers fs p t f
      → Delivers covers fs p (pos (suc n)) f
  goes f t n each (stops d r) = absurd (stays_or_goes f.resubmit n r (each f d))
  goes f t n each (goes_on g k d r rest) = sent f g (pos (suc n)) k (each g d) r rest

  ends :
      (f : Flow) (t : ℤ)
      → ((g : Flow) → Decides covers (in_table t fs) p g → g.resubmit ≡ pos 0)
      → Delivers covers fs p t f
      → Decides covers (in_table t fs) p f
  ends f t each (stops d r) = d
  ends f t each (goes_on g k d r rest) = absurd (stays_or_goes g.resubmit k (each g d) r)

module _ {A : Type 0} (covers : String → A → Bool) (p : Packet A) (env : Env) (c : Config)
    (net : IpNet) (vs : List VSwitchConfig) (pods : List Pod) (nps : List NetworkPolicy)
    (cache : PortCache) where
  abbrev fs : List Flow
  fs = (wanted env c net vs pods nps cache).0

  abbrev is_forbidden : Bool
  is_forbidden = forbidden env.lookup covers p (applied_policies env c nps)

  pub entered : (f : Flow) → Decides covers (in_table (pos 0) fs) p f → f.resubmit ≡ pos 10
  entered f d = by_kind (
      table-All IsEntry (pos 0) env c net vs pods nps cache
        (origins-IsEntry c vs env.ovs cache pods) f d.listed)
    where
      by_kind : IsEntry f → f.resubmit ≡ pos 10
      by_kind (inl h) = h
      by_kind (inr raw) =
          absurd (true_not_false (sym (and_both _ _ d.matching).0 ∙ ap (λ b. not b) raw))

  pub passed : (f : Flow) → Decides covers (in_table (pos 10) fs) p f → IsPass f
  passed f d =
      table-All IsPass (pos 10) env c net vs pods nps cache (origins-IsPass c vs env.ovs cache pods)
        f d.listed

  verdict : (f : Flow) → Decides covers (in_table (pos 10) fs) p f → f.drop ≡ is_forbidden
  verdict = wanted_verdict env c net vs pods nps cache covers p

  -- A packet is dropped where it is forbidden, and else goes on at table 20.
  judged :
      (f : Flow)
      → Delivers covers fs p (pos 10) f
      → ((is_forbidden ≡ true) × (f.drop ≡ true))
        ⊎ ((is_forbidden ≡ false) × Delivers covers fs p (pos 20) f)
  judged f (stops d r) = elim (passed f d) [
    | inl (dropped, _) ↦ inl (sym (verdict f d) ∙ dropped, dropped)
    | inr (kept, r20) ↦ absurd (stays_or_goes f.resubmit 19 r r20)
  ]
  judged f (goes_on g k d r rest) = elim (passed g d) [
    | inl (dropped, r0) ↦ absurd (stays_or_goes g.resubmit k r0 r)
    | inr (kept, r20) ↦ inr (sym (verdict g d) ∙ kept, sent covers p fs f g (pos 20) k r20 r rest)
  ]

  -- What the last flow does: it drops a forbidden packet, and has the property for another.
  abbrev pub Handles : (Flow → Type 0) → Flow → Type 0
  Handles Q f = ((is_forbidden ≡ true) × (f.drop ≡ true)) ⊎ ((is_forbidden ≡ false) × Q f)

  handled :
      (Q : Flow → Type 0) (f : Flow)
      → (Delivers covers fs p (pos 20) f → Q f)
      → Delivers covers fs p (pos 0) f
      → Handles Q f
  handled Q f after way = elim (judged f (goes covers p fs f (pos 0) 9 entered way)) [
    | inl dropped ↦ inl dropped
    | inr (isnt, rest) ↦ inr (isnt, after rest)
  ]

  module _
      (other : (w : VSwitchConfig)
        → Memᴰ w vs
        → selects covers w.spec.overlay_ip p.dst ≡ false) where
    pub class_of :
        (f : Flow)
        → Decides covers (in_table (pos 20) fs) p f
        → (f.resubmit ≡ next_table covers c p.dst) × (f.local ≡ for_host covers c p.dst)
    class_of f d = classified covers p env c net vs pods nps cache f d other

    -- to the host
    pub host_path :
        (f : Flow)
        → for_host covers c p.dst ≡ true
        → Delivers covers fs p (pos 0) f
        → Handles (λ f. f.local ≡ true) f
    host_path f h =
        let none = next_table-for_host covers c p.dst h in
        handled (λ f. f.local ≡ true) f
          (λ rest.
            (class_of f (ends covers p fs f (pos 20) (λ g d. (class_of g d).0 ∙ none) rest)).1 ∙ h)

    pub at-IsPort :
        (g : Flow)
        → Decides covers (in_table (pos 60) fs) p g
        → IsPort env.ovs cache pods g × (selects covers g.ip_dest p.dst ≡ true)
    at-IsPort g d = (
      table-All (IsPort env.ovs cache pods) (pos 60) env c net vs pods nps cache
          (origins-IsPort c vs env.ovs cache pods) g d.listed,
      matches-dest covers p g d.matching,
    )

    -- to a pod of this node
    pub IsPort-path :
        (f : Flow)
        → next_table covers c p.dst ≡ pos 60
        → Delivers covers fs p (pos 0) f
        → Handles (λ f. IsPort env.ovs cache pods f × (selects covers f.ip_dest p.dst ≡ true)) f
    IsPort-path f h =
        handled (λ f. IsPort env.ovs cache pods f × (selects covers f.ip_dest p.dst ≡ true)) f
          (λ rest. at-IsPort f (
            ends covers p fs f (pos 60) (λ g d. (at-IsPort g d).0.is_last)
              (goes covers p fs f (pos 20) 59 (λ g d. (class_of g d).0 ∙ h) rest)))

    -- to a pod of another node
    pub route_path :
        (v : VSwitchConfig) (f : Flow)
        → next_table covers c p.dst ≡ pos 30
        → Memᴰ v vs
        → str_eq v.name c.node_name ≡ false
        → selects covers v.spec.pod_cidr p.dst ≡ true
        → ((w : VSwitchConfig)
            → Memᴰ w vs
            → selects covers w.spec.pod_cidr p.dst ≡ true
            → w.spec.overlay_ip ≡ v.spec.overlay_ip)
        → Delivers covers fs p (pos 0) f
        → Handles (λ f. (f.tun_dest ≡ v.spec.overlay_ip) × (f.output ≡ c.overlay_ofport)) f
    route_path v f h is_listed remote selected unique =
        handled (λ f. (f.tun_dest ≡ v.spec.overlay_ip) × (f.output ≡ c.overlay_ofport)) f
          (λ rest.
            let (w, address, same) = taken f (
              ends covers p fs f (pos 30) (λ g d. ap (λ (x : Flow). x.resubmit) (taken g d).2)
                (goes covers p fs f (pos 20) 29 (λ g d. (class_of g d).0 ∙ h) rest)) in
            (ap (λ (x : Flow). x.tun_dest) same ∙ address, ap (λ (x : Flow). x.output) same))
      where
        taken :
            (g : Flow)
            → Decides covers (in_table (pos 30) fs) p g
            → (w : VSwitchConfig) × (w.spec.overlay_ip ≡ v.spec.overlay_ip) × (g ≡ route c w)
        taken g d =
            taken_route covers c p env net vs pods nps cache v g is_listed remote selected unique d
