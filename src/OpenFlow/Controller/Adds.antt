-- ===== src/OpenFlow/Controller/Adds.antt =====
-- Steps of the controller that do nothing but add flows and fill the port cache.
use k_vswitch.Prelude.{◌≡◌, refl, List, [], ◌∷◌, ◌++◌, All}
use k_vswitch.Result.{ok}
use k_vswitch.Exec.{◌>>◌, skip, logged, for_each}
use k_vswitch.Flows.{Flow}
use k_vswitch.Flows.Buffer.{FlowsBuffer, Command}
use k_vswitch.Flows.Buffer.Emits.{flat_map, Emits, put_flows, put_flows-append}
use k_vswitch.OpenFlow.Config.{Config}
use k_vswitch.OpenFlow.PortCache.{PortCache}
use k_vswitch.OpenFlow.Controller.{Controller, M, on_flows}

abbrev pub controller : Config → FlowsBuffer → PortCache → List Command → Controller
controller c b p i = record { config = c; flows = b; port_cache = p; issued = i }

-- From a port cache `p`, the code adds the flows of the list and leaves the port cache `p'`. It
-- neither fails nor panics, and runs no command.
pub record Adds (c : Config) (p : PortCache) (m : M (Unit {0})) (fs : List Flow) (p' : PortCache)
    : Type 0 where
  pub at :
      (b : FlowsBuffer) (i : List Command)
      → m (controller c b p i) ≡ (ok tt, controller c (put_flows fs b) p' i)

-- what each element adds, from the port cache that the elements before it leave
abbrev pub each_of :
    {X : Type 0}
    → (X → PortCache → List Flow × PortCache)
    → List X
    → PortCache
    → List Flow × PortCache
each_of step [] p = ([], p)
each_of step (x ∷ xs) p = let (fs, q) = step x p in let (gs, r) = each_of step xs q in (fs ++ gs, r)

module _ {c : Config} where
  pub Adds-skip : (p : PortCache) → Adds c p skip [] p
  Adds-skip p = record { at = λ b i. refl }

  pub Adds-on_flows :
      (p : PortCache) {m : _} {fs : List Flow} → Emits m fs → Adds c p (logged (on_flows m)) fs p
  Adds-on_flows p {m} {fs} h = record { at = λ b i. rw (h.at b) }

  pub Adds-seq :
      {p q r : PortCache} {m n : M (Unit {0})} {fs gs : List Flow}
      → Adds c p m fs q
      → Adds c q n gs r
      → Adds c p (m >> n) (fs ++ gs) r
  Adds-seq {p} {q} {r} {m} {n} {fs} {gs} h k = record {
    at = λ b i. rw (h.at b i, k.at (put_flows fs b) i, put_flows-append fs gs b);
  }

  pub Adds-for_each :
      {X : Type 0} (P : X → Type 0) (xs : List X) (body : X → M (Unit {0}))
      (step : X → PortCache → List Flow × PortCache)
      → ((x : X) → P x → (p : PortCache) → Adds c p (body x) (step x p).0 (step x p).1)
      → All P xs
      → (p : PortCache) → Adds c p (for_each xs body) (each_of step xs p).0 (each_of step xs p).1
  unfolding for_each
  Adds-for_each P [] body step each h p = Adds-skip p
  Adds-for_each P (x ∷ xs) body step each h p =
      Adds-seq (each x h.0 p) (Adds-for_each P xs body step each h.1 (step x p).1)

  pub Adds-loop :
      {X : Type 0} (P : X → Type 0) (xs : List X) (body : X → M (Unit {0})) (spec : X → List Flow)
      → ((x : X) → P x → (p : PortCache) → Adds c p (body x) (spec x) p)
      → All P xs
      → (p : PortCache) → Adds c p (for_each xs body) (flat_map spec xs) p
  unfolding for_each
  Adds-loop P [] body spec each h p = Adds-skip p
  Adds-loop P (x ∷ xs) body spec each h p =
      Adds-seq (each x h.0 p) (Adds-loop P xs body spec each h.1 p)
