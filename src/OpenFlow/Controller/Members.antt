-- ===== src/OpenFlow/Controller/Members.antt =====
-- The flows in a list of flows and in one table of it.
use mathlib.Core.List.{Memᴰ}
use mathlib.Core.Path.{subst}
use k_vswitch.Prelude.{
  ℤ, ◌≡◌, refl, sym, ap, ◌∙◌, Bool, true, false, List, [], ◌∷◌, ◌++◌, All, All-append,
  if◌then◌else◌,
}
use k_vswitch.Flows.{Flow}
use k_vswitch.Flows.Buffer.Emits.{flat_map}
use k_vswitch.OpenFlow.Switch.{int_eq, in_table}

pub All-map :
    {P Q : Flow → Type 0} → ((f : Flow) → P f → Q f) → (fs : List Flow) → All P fs → All Q fs
All-map k [] h = tt
All-map k (f ∷ fs) h = (k f h.0, All-map k fs h.1)

-- what holds of the flows of each listed element
pub All-each :
    {X : Type 0} (P : Flow → Type 0) (f : X → List Flow) (xs : List X)
    → ((x : X) → Memᴰ x xs → All P (f x))
    → All P (flat_map f xs)
All-each P f [] h = tt
All-each P f (x ∷ xs) h =
    All-append P (f x) (flat_map f xs) (h x (Memᴰ.head refl))
      (All-each P f xs (λ y m. h y (Memᴰ.tail m)))

pub mem_left : {X : Type 0} {x : X} (xs ys : List X) → Memᴰ x xs → Memᴰ x (xs ++ ys)
mem_left [] ys m = elim m [ ]
mem_left (x ∷ xs) ys (Memᴰ.head e) = Memᴰ.head e
mem_left (x ∷ xs) ys (Memᴰ.tail m) = Memᴰ.tail (mem_left xs ys m)

pub mem_right : {X : Type 0} {x : X} (xs ys : List X) → Memᴰ x ys → Memᴰ x (xs ++ ys)
mem_right [] ys m = m
mem_right (x ∷ xs) ys m = Memᴰ.tail (mem_right xs ys m)

pub mem_of_table :
    (t : ℤ) (fs : List Flow) (f : Flow)
    → Memᴰ f (in_table t fs)
    → Memᴰ f fs × (int_eq f.table t ≡ true)
mem_of_table t [] f m = elim m [ ]
mem_of_table t (g ∷ fs) f m = by_test (int_eq g.table t) refl (mem_of_table t fs f) m
  where
    by_test :
        (b : Bool)
        → int_eq g.table t ≡ b
        → (Memᴰ f (in_table t fs) → Memᴰ f fs × (int_eq f.table t ≡ true))
        → Memᴰ f (if b then g ∷ in_table t fs else in_table t fs)
        → Memᴰ f (g ∷ fs) × (int_eq f.table t ≡ true)
    by_test true e ih (Memᴰ.head same) =
        (Memᴰ.head same, ap (λ (x : Flow). int_eq x.table t) same ∙ e)
    by_test true e ih (Memᴰ.tail m) = (Memᴰ.tail (ih m).0, (ih m).1)
    by_test false e ih m = (Memᴰ.tail (ih m).0, (ih m).1)

pub mem_in_table :
    (t : ℤ) (fs : List Flow) (f : Flow)
    → Memᴰ f fs
    → int_eq f.table t ≡ true
    → Memᴰ f (in_table t fs)
mem_in_table t [] f m h = elim m [ ]
mem_in_table t (g ∷ fs) f (Memᴰ.head e) h =
    rw (ap (λ (x : Flow). int_eq x.table t) (sym e) ∙ h) (Memᴰ.head e)
mem_in_table t (g ∷ fs) f (Memᴰ.tail m) h = by_test (int_eq g.table t) (mem_in_table t fs f m h)
  where
    by_test :
        (b : Bool)
        → Memᴰ f (in_table t fs)
        → Memᴰ f (if b then g ∷ in_table t fs else in_table t fs)
    by_test true m = Memᴰ.tail m
    by_test false m = m

pub All-mem : (P : Flow → Type 0) (fs : List Flow) (f : Flow) → Memᴰ f fs → All P fs → P f
All-mem P [] f m h = elim m [ ]
All-mem P (g ∷ fs) f (Memᴰ.head e) h = subst P (sym e) h.0
All-mem P (g ∷ fs) f (Memᴰ.tail m) h = All-mem P fs f m h.1
