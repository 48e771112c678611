-- ===== src/OpenFlow/Policy/Table.antt =====
-- The whole of table 10: the default flow and the flows of every policy.
use mathlib.Core.Bool.{not, and-eq-true_iff}
use mathlib.Core.List.{Memᴰ}
use mathlib.Core.Path.{subst}
use k_vswitch.Prelude.{
  ℕ, ℤ, pos, ◌≡◌, refl, sym, ap, ◌∙◌, String, Bool, true, false, ◌&&◌, ◌||◌, List, [], ◌∷◌, ◌++◌,
  any, All, arith, inl, inr, ==_iff, Bool-cases, negsuc, ◌<◌,
}
use k_vswitch.Flows.{Flow, new_flow, ◌▸◌, with_table, with_priority, with_action_resubmit}
use k_vswitch.Flows.Buffer.Emits.{flat_map}
use k_vswitch.OpenFlow.Config.{table_network_policies, table_classification}
use k_vswitch.OpenFlow.Kube.{NetworkPolicy}
use k_vswitch.OpenFlow.Policy.{Lookup, ingress, egress}
use k_vswitch.OpenFlow.Policy.Flows.{direction_list}
use k_vswitch.OpenFlow.Policy.Permits.{at_pod, rule_allows, rule_excepts}
use k_vswitch.OpenFlow.Policy.Sorts.{
  IsPolicyFlow, isolating, allowing, excepting, hit, Sorts, Sorts-append, Sorts-flat_map,
}
use k_vswitch.OpenFlow.Policy.Verdict.{direction-Sorts}
use k_vswitch.OpenFlow.Switch.{Packet, int_eq, matches, Decides}

-- a policy, and the addresses of the pods of this node that it selects
abbrev pub Applied : Type 0
Applied = NetworkPolicy × List String

-- the flow of `defaultFlows` for the table
abbrev pub default_pass : Flow
default_pass =
    new_flow
    ▸ with_table table_network_policies
    ▸ with_priority (pos 0)
    ▸ with_action_resubmit table_classification

module _ (env : Lookup) where
  abbrev pub policy_list : Applied → List Flow
  policy_list (np, ips) =
      direction_list env ingress np.ingress np ips ++ direction_list env egress np.egress np ips

  abbrev pub policy_table : List Applied → List Flow
  policy_table applied = default_pass ∷ flat_map policy_list applied

  module _ {A : Type 0} (covers : String → A → Bool) where
    -- the packet is sent to, or comes from, a pod that some policy selects
    abbrev pub isolated_by : Packet A → Applied → Bool
    isolated_by p (np, ips) = at_pod env covers ingress ips p || at_pod env covers egress ips p

    abbrev pub allowed_by : Packet A → Applied → Bool
    allowed_by p (np, ips) =
        at_pod env covers ingress ips p
          && any (λ rule. rule_allows env covers ingress np rule p) np.ingress
        || at_pod env covers egress ips p
          && any (λ rule. rule_allows env covers egress np rule p) np.egress

    abbrev pub excepted_by : Packet A → Applied → Bool
    excepted_by p (np, ips) =
        at_pod env covers ingress ips p
          && any (λ rule. rule_excepts env covers ingress rule p) np.ingress
        || at_pod env covers egress ips p
          && any (λ rule. rule_excepts env covers egress rule p) np.egress

    -- An exception of any policy forbids; else a rule of any policy allows; else a packet of a
    -- selected pod is forbidden.
    abbrev pub forbidden : Packet A → List Applied → Bool
    forbidden p applied =
        any (excepted_by p) applied
        || (any (isolated_by p) applied && not (any (allowed_by p) applied))

or_left : (a b : Bool) → a ≡ true → (a || b) ≡ true
or_left a b h = ground arith

or_right : (a b : Bool) → b ≡ true → (a || b) ≡ true
or_right a b h = ground arith

module _ (drop i a e : Bool) where
  isolating_verdict : drop ≡ true → i ≡ true → a ≡ false → e ≡ false → drop ≡ (e || (i && not a))
  isolating_verdict d h k l = ground arith

  allowing_verdict : drop ≡ false → a ≡ true → e ≡ false → drop ≡ (e || (i && not a))
  allowing_verdict d h k = ground arith

  excepting_verdict : drop ≡ true → e ≡ true → drop ≡ (e || (i && not a))
  excepting_verdict d h = ground arith

  default_verdict : drop ≡ false → i ≡ false → e ≡ false → drop ≡ (e || (i && not a))
  default_verdict d h k = ground arith

int_eq-pos : (z : ℤ) (k : ℕ) → int_eq z (pos k) ≡ true → z ≡ pos k
int_eq-pos (pos n) k h = ap pos ((==_iff n k).0 h)
int_eq-pos (negsuc n) k h = cc

int_eq_self : (k : ℕ) → int_eq (pos k) (pos k) ≡ true
int_eq_self k = ground arith

module _ {A : Type 0} (covers : String → A → Bool) (p : Packet A) where
  abbrev hits : ℕ → Flow → Bool
  hits k f = int_eq f.priority (pos k) && matches covers f p

  -- a match at a priority comes from a flow of the list, and the other way round
  hit-Mem :
      (k : ℕ) (fs : List Flow)
      → hit covers p k fs ≡ true
      → (g : Flow) × Memᴰ g fs × (g.priority ≡ pos k) × (matches covers g p ≡ true)
  hit-Mem k [] h = cc
  hit-Mem k (f ∷ fs) h = elim (Bool-cases (hits k f)) [
    | inl e ↦
        let (at, m) = (and-eq-true_iff _ _).0 e in
        (f, Memᴰ.head refl, int_eq-pos f.priority k at, m)
    | inr e ↦ let (g, t, at, m) = hit-Mem k fs (rw e at h) in (g, Memᴰ.tail t, at, m)
  ]

  hits_of : (k : ℕ) (f : Flow) → f.priority ≡ pos k → matches covers f p ≡ true → hits k f ≡ true
  hits_of k f q m = (and-eq-true_iff _ _).1 (ap (λ z. int_eq z (pos k)) q ∙ int_eq_self k, m)

  Mem-hit :
      (k : ℕ) (f : Flow) (fs : List Flow)
      → Memᴰ f fs
      → f.priority ≡ pos k
      → matches covers f p ≡ true
      → hit covers p k fs ≡ true
  Mem-hit k f [] t q m = elim t [ ]
  Mem-hit k f (g ∷ fs) (Memᴰ.head e) q m =
      subst (λ h. hit covers p k (h ∷ fs) ≡ true) e
        (or_left (hits k f) (hit covers p k fs) (hits_of k f q m))
  Mem-hit k f (g ∷ fs) (Memᴰ.tail t) q m =
      or_right (hits k g) (hit covers p k fs) (Mem-hit k f fs t q m)

  kind_of : (f : Flow) (fs : List Flow) → Memᴰ f fs → All IsPolicyFlow fs → IsPolicyFlow f
  kind_of f [] t h = elim t [ ]
  kind_of f (g ∷ fs) (Memᴰ.head e) h = rw e h.0
  kind_of f (g ∷ fs) (Memᴰ.tail t) h = kind_of f fs t h.1

  module _ {fs : List Flow} {i a e : Bool} (sorts : Sorts covers p fs i a e) {f : Flow}
      (decides : Decides covers (default_pass ∷ fs) p f) where
    -- no flow of a higher priority matches
    none_above : (n k : ℕ) → f.priority ≡ pos n → n < k → hit covers p k fs ≡ false
    none_above n k at lt = elim (Bool-cases (hit covers p k fs)) [
      | inr off ↦ off
      | inl on ↦
          let (g, t, gk, m) = hit-Mem k fs on in
          absurd (omega (arith, decides.highest g (Memᴰ.tail t) m k n gk at))
    ]

    -- Each kind of flow that decides says what the three answers are.
    by_kind : Memᴰ f fs → IsPolicyFlow f → f.drop ≡ (e || (i && not a))
    by_kind t (isolating tab at d r) =
        isolating_verdict f.drop i a e d (sym sorts.drops ∙ Mem-hit 100 f fs t at decides.matching)
          (sym sorts.allows ∙ none_above 100 1000 at (omega arith))
          (sym sorts.excepts ∙ none_above 100 1100 at (omega arith))
    by_kind t (allowing tab at d r) =
        allowing_verdict f.drop i a e d (sym sorts.allows ∙ Mem-hit 1000 f fs t at decides.matching)
          (sym sorts.excepts ∙ none_above 1000 1100 at (omega arith))
    by_kind t (excepting tab at d r) =
        excepting_verdict f.drop i a e d
          (sym sorts.excepts ∙ Mem-hit 1100 f fs t at decides.matching)

    by_default : f ≡ default_pass → f.drop ≡ (e || (i && not a))
    by_default q =
        let at : f.priority ≡ pos 0 = ap (λ (g : Flow). g.priority) q in
        default_verdict f.drop i a e (ap (λ (g : Flow). g.drop) q)
          (sym sorts.drops ∙ none_above 0 100 at (omega arith))
          (sym sorts.excepts ∙ none_above 0 1100 at (omega arith))

    -- The flow that decides drops exactly if an exception matches, or if the packet is isolated
    -- and no rule matches.
    decided : f.drop ≡ (e || (i && not a))
    decided = decided_at decides.listed
      where
        decided_at : Memᴰ f (default_pass ∷ fs) → f.drop ≡ (e || (i && not a))
        decided_at (Memᴰ.head q) = by_default q
        decided_at (Memᴰ.tail t) = by_kind t (kind_of f fs t sorts.kinds)

module _ (env : Lookup) {A : Type 0} (covers : String → A → Bool) (p : Packet A) where
  pub applied-Sorts :
      (x : Applied)
      → Sorts covers p
          (policy_list env x)
          (isolated_by env covers p x)
          (allowed_by env covers p x)
          (excepted_by env covers p x)
  applied-Sorts (np, ips) =
      Sorts-append covers p (direction-Sorts covers p env ingress ips np.ingress np)
        (direction-Sorts covers p env egress ips np.egress np)

  -- Whatever flow of table 10 the switch takes for a packet, it drops the packet exactly if the
  -- policies forbid it.
  pub policy_verdict :
      (applied : List Applied) (f : Flow)
      → Decides covers (policy_table env applied) p f
      → f.drop ≡ forbidden env covers p applied
  policy_verdict applied f decides =
      decided covers p
        (Sorts-flat_map covers p (policy_list env) (isolated_by env covers p)
          (allowed_by env covers p) (excepted_by env covers p) applied applied-Sorts)
        decides
