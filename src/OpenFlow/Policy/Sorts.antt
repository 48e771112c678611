-- ===== src/OpenFlow/Policy/Sorts.antt =====
-- Which of three kinds of flows of table 10 match a packet: the drops of isolated pods, the flows of
-- rules, and the drops of exceptions.
use k_vswitch.Prelude.{
  ℕ, pos, ◌≡◌, refl, ◌∙◌, String, Bool, true, false, ◌&&◌, ◌||◌, List, [], ◌∷◌, ◌++◌, any, All,
  All-append, arith,
}
use k_vswitch.Flows.{Flow}
use k_vswitch.Flows.Buffer.Emits.{flat_map}
use k_vswitch.OpenFlow.Switch.{Packet, int_eq, matches}

pub any-append {ℓ} :
    {X : Type ℓ} (q : X → Bool) (xs ys : List X) → any q (xs ++ ys) ≡ (any q xs || any q ys)
any-append q [] ys = refl
any-append q (x ∷ xs) ys = ground (arith, any-append q xs ys)

pub any-false {ℓ} : {X : Type ℓ} (xs : List X) → any (λ x. false) xs ≡ false
any-false [] = refl
any-false (x ∷ xs) = any-false xs

-- a test that does not look at the element
pub any-and {ℓ} :
    {X : Type ℓ} (q : X → Bool) (b : Bool) (xs : List X) → any (λ x. q x && b) xs ≡ (any q xs && b)
any-and q b [] = refl
any-and q b (x ∷ xs) = ground (arith, any-and q b xs)

pub and-any {ℓ} :
    {X : Type ℓ} (b : Bool) (q : X → Bool) (xs : List X) → any (λ x. b && q x) xs ≡ (b && any q xs)
and-any b q [] = ground arith
and-any b q (x ∷ xs) = ground (arith, and-any b q xs)

-- the three kinds, by priority and action: a drop, or a resubmission to table 20
pub data IsPolicyFlow (f : Flow) : Type 0 where
  isolating :
      f.table ≡ pos 10 → f.priority ≡ pos 100 → f.drop ≡ true → f.resubmit ≡ pos 0 → IsPolicyFlow f
  allowing :
      f.table ≡ pos 10
      → f.priority ≡ pos 1000
      → f.drop ≡ false
      → f.resubmit ≡ pos 20
      → IsPolicyFlow f
  excepting :
      f.table ≡ pos 10 → f.priority ≡ pos 1100 → f.drop ≡ true → f.resubmit ≡ pos 0 → IsPolicyFlow f

module _ {A : Type 0} (covers : String → A → Bool) (p : Packet A) where
  -- some flow of the priority matches
  abbrev pub hit : ℕ → List Flow → Bool
  hit k = any (λ f. int_eq f.priority (pos k) && matches covers f p)

  -- All flows are of the three kinds, and the three answers say which kinds have a match.
  pub record Sorts (fs : List Flow) (isolated allowed excepted : Bool) : Type 0 where
    pub kinds : All IsPolicyFlow fs
    pub drops : hit 100 fs ≡ isolated
    pub allows : hit 1000 fs ≡ allowed
    pub excepts : hit 1100 fs ≡ excepted

  pub Sorts-nil : Sorts [] false false false
  Sorts-nil = record { kinds = tt; drops = refl; allows = refl; excepts = refl }

  pub Sorts-append :
      {fs gs : List Flow} {i a e j b x : Bool}
      → Sorts fs i a e
      → Sorts gs j b x
      → Sorts (fs ++ gs) (i || j) (a || b) (e || x)
  Sorts-append {fs} {gs} h k = record {
    kinds = All-append IsPolicyFlow fs gs h.kinds k.kinds;
    drops = rw (any-append _ fs gs, h.drops, k.drops);
    allows = rw (any-append _ fs gs, h.allows, k.allows);
    excepts = rw (any-append _ fs gs, h.excepts, k.excepts);
  }

  pub Sorts-flat_map {ℓ} :
      {X : Type ℓ} (f : X → List Flow) (i a e : X → Bool) (xs : List X)
      → ((x : X) → Sorts (f x) (i x) (a x) (e x))
      → Sorts (flat_map f xs) (any i xs) (any a xs) (any e xs)
  Sorts-flat_map f i a e [] each = Sorts-nil
  Sorts-flat_map f i a e (x ∷ xs) each = Sorts-append (each x) (Sorts-flat_map f i a e xs each)

  -- the answers may be written otherwise
  pub Sorts-eq :
      {fs : List Flow} {i a e j b x : Bool}
      → Sorts fs i a e
      → i ≡ j
      → a ≡ b
      → e ≡ x
      → Sorts fs j b x
  Sorts-eq h p q r = record {
    kinds = h.kinds;
    drops = h.drops ∙ p;
    allows = h.allows ∙ q;
    excepts = h.excepts ∙ r;
  }
