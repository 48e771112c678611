-- ===== src/OpenFlow/Switch/Best.antt =====
-- Where some flow of a table matches a packet, some flow of the table decides on it.
use mathlib.Core.List.{Memᴰ}
use mathlib.Core.Path.{subst}
use k_vswitch.Prelude.{
  ℕ, ℤ, pos, negsuc, ◌≤◌, ◌≡◌, refl, sym, ap, ◌∙◌, ◌⊎◌, inl, inr, String, Bool, true, false, List,
  [], ◌∷◌, leb, arith, Bool-cases,
}
use k_vswitch.Bools.{true_not_false}
use k_vswitch.Flows.{Flow}
use k_vswitch.OpenFlow.Switch.{Packet, matches, Decides}

abbrev rank : ℤ → ℕ
rank (pos n) = n
rank (negsuc n) = 0

module _ {A : Type 0} (covers : String → A → Bool) (p : Packet A) where
  -- a flow that matches, and none that matches has a higher priority
  record Best (fs : List Flow) (f : Flow) : Type 0 where
    pub listed : Memᴰ f fs
    pub matching : matches covers f p ≡ true
    pub highest :
        (g : Flow) → Memᴰ g fs → matches covers g p ≡ true → rank g.priority ≤ rank f.priority

  abbrev NoneMatches : List Flow → Type 0
  NoneMatches fs = (g : Flow) → Memᴰ g fs → matches covers g p ≡ false

  same_match : (f g : Flow) → g ≡ f → matches covers f p ≡ false → matches covers g p ≡ false
  same_match f g e h = ap (λ (x : Flow). matches covers x p) e ∙ h

  -- the first flow is the best if no later one matches
  only_first :
      (f : Flow) (fs : List Flow) → NoneMatches fs → matches covers f p ≡ true → Best (f ∷ fs) f
  only_first f fs no_other h = record { listed = Memᴰ.head refl; matching = h; highest = by_place }
    where
      by_place :
          (g : Flow)
          → Memᴰ g (f ∷ fs)
          → matches covers g p ≡ true
          → rank g.priority ≤ rank f.priority
      by_place g (Memᴰ.head e) k =
          subst (λ (x : Flow). rank g.priority ≤ rank x.priority) e (omega arith)
      by_place g (Memᴰ.tail m) k = absurd (true_not_false (sym k ∙ no_other g m))

  -- the first flow against the best of the others
  module _ (f : Flow) (fs : List Flow) (h : Flow) (best : Best fs h) where
    first_beats : matches covers f p ≡ true → rank h.priority ≤ rank f.priority → Best (f ∷ fs) f
    first_beats k le = record { listed = Memᴰ.head refl; matching = k; highest = by_place }
      where
        by_place :
            (g : Flow)
            → Memᴰ g (f ∷ fs)
            → matches covers g p ≡ true
            → rank g.priority ≤ rank f.priority
        by_place g (Memᴰ.head e) j =
            subst (λ (x : Flow). rank g.priority ≤ rank x.priority) e (omega arith)
        by_place g (Memᴰ.tail m) j = omega (arith, best.highest g m j, le)

    stays-Best :
        ((g : Flow) → g ≡ f → matches covers g p ≡ true → rank g.priority ≤ rank h.priority)
        → Best (f ∷ fs) h
    stays-Best first = record {
      listed = Memᴰ.tail best.listed;
      matching = best.matching;
      highest = by_place;
    }
      where
        by_place :
            (g : Flow)
            → Memᴰ g (f ∷ fs)
            → matches covers g p ≡ true
            → rank g.priority ≤ rank h.priority
        by_place g (Memᴰ.head e) j = first g e j
        by_place g (Memᴰ.tail m) j = best.highest g m j

    with_first : (g : Flow) × Best (f ∷ fs) g
    with_first = elim (Bool-cases (matches covers f p)) [
      | inr e ↦
          (h, stays-Best (λ g same k. absurd (true_not_false (sym k ∙ same_match f g same e))))
      | inl e ↦ elim (Bool-cases (leb (rank h.priority) (rank f.priority))) [
        | inl le ↦ (f, first_beats e (ground (arith, le)))
        | inr gt ↦ (
          h,
          stays-Best (λ g same k.
              subst (λ (x : Flow). rank x.priority ≤ rank h.priority) (sym same)
                (ground (arith, gt))),
        )
      ]
    ]

  find-Best : (fs : List Flow) → ((f : Flow) × Best fs f) ⊎ NoneMatches fs
  find-Best [] = inr (λ g m. elim m [ ])
  find-Best (f ∷ fs) = elim (find-Best fs) [
    | inl (h, best) ↦ inl (with_first f fs h best)
    | inr no_other ↦ elim (Bool-cases (matches covers f p)) [
      | inl e ↦ inl (f, only_first f fs no_other e)
      | inr e ↦ inr (none_of e no_other)
    ]
  ]
    where
      none_of : matches covers f p ≡ false → NoneMatches fs → NoneMatches (f ∷ fs)
      none_of e no_other g (Memᴰ.head same) = same_match f g same e
      none_of e no_other g (Memᴰ.tail m) = no_other g m

  Best-Decides : (fs : List Flow) (f : Flow) → Best fs f → Decides covers fs p f
  Best-Decides fs f best = record {
    listed = best.listed;
    matching = best.matching;
    highest = λ g m k a b ga fb.
        subst (λ x. a ≤ x) (ap rank fb)
          (subst (λ x. x ≤ rank f.priority) (ap rank ga) (best.highest g m k));
  }

  pub decided :
      (fs : List Flow) (g : Flow)
      → Memᴰ g fs
      → matches covers g p ≡ true
      → (f : Flow) × Decides covers fs p f
  decided fs g m h = elim (find-Best fs) [
    | inl (f, best) ↦ (f, Best-Decides fs f best)
    | inr no_other ↦ absurd (true_not_false (sym h ∙ no_other g m))
  ]
