-- ===== src/Flows/Buffer/Emits.antt =====
-- Code that does nothing but add flows: which flows, in which order.
use k_vswitch.Prelude.{◌≡◌, refl, Bool, true, false, List, [], ◌∷◌, ◌++◌, All, if◌then◌else◌}
use k_vswitch.Flows.{Flow}
use k_vswitch.Result.{ok}
use k_vswitch.Exec.{Exec, ◌>>◌, skip, for_each}
use k_vswitch.Flows.Buffer.{FlowsBuffer, put_flow, add_flow}

-- the buffer after flows are added, the first of the list first
abbrev pub put_flows : List Flow → FlowsBuffer → FlowsBuffer
put_flows [] b = b
put_flows (f ∷ fs) b = put_flows fs (put_flow f b)

pub put_flows-append :
    (fs gs : List Flow) (b : FlowsBuffer) → put_flows (fs ++ gs) b ≡ put_flows gs (put_flows fs b)
put_flows-append [] gs b = refl
put_flows-append (f ∷ fs) gs b = put_flows-append fs gs (put_flow f b)

pub record Emits (m : Exec FlowsBuffer (Unit {0})) (fs : List Flow) : Type 0 where
  pub at : (b : FlowsBuffer) → m b ≡ (ok tt, put_flows fs b)

pub Emits-skip : Emits skip []
Emits-skip = record { at = λ b. refl }

pub Emits-add_flow : (f : Flow) → Emits (add_flow f) (f ∷ [])
Emits-add_flow f = record { at = λ b. refl }

pub Emits-seq :
    {m n : Exec FlowsBuffer (Unit {0})} {fs gs : List Flow}
    → Emits m fs
    → Emits n gs
    → Emits (m >> n) (fs ++ gs)
Emits-seq {m} {n} {fs} {gs} h k = record {
  at = λ b. rw (h.at b, k.at (put_flows fs b), put_flows-append fs gs b);
}

pub Emits-if :
    (t : Bool) {m n : Exec FlowsBuffer (Unit {0})} {fs gs : List Flow}
    → Emits m fs
    → Emits n gs
    → Emits (if t then m else n) (if t then fs else gs)
Emits-if true h k = h
Emits-if false h k = k

-- the lists for the elements, one after the other
abbrev pub flat_map {ℓ κ} : {X : Type ℓ} {Y : Type κ} → (X → List Y) → List X → List Y
flat_map f [] = []
flat_map f (x ∷ xs) = f x ++ flat_map f xs

-- A loop emits what its body emits for each element. The body may rely on what all elements have.
pub Emits-for_each {ℓ κ} :
    {X : Type ℓ} (P : X → Type κ) (xs : List X) (body : X → Exec FlowsBuffer (Unit {0}))
    (spec : X → List Flow)
    → ((x : X) → P x → Emits (body x) (spec x))
    → All P xs
    → Emits (for_each xs body) (flat_map spec xs)
unfolding for_each
Emits-for_each P [] body spec each h = Emits-skip
Emits-for_each P (x ∷ xs) body spec each h =
    Emits-seq (each x h.0) (Emits-for_each P xs body spec each h.1)
