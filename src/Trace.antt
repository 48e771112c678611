-- ===== src/Trace.antt =====
-- Code that makes calls of the outside one after the other. The state is the list of the calls that
-- were made, the newest first, each with whether it succeeded; an answer may depend on all calls
-- before it.
pub mod Plan
pub mod Keeps
use k_vswitch.Prelude.{Bool, true, false, List, ◌∷◌}
use k_vswitch.Result.{Result, ok, err, panic}
use k_vswitch.Exec.{Exec}

abbrev pub Trace : Type 0 → Type 0
Trace E = List (E × Bool)

abbrev pub is_ok {ℓ} : {A : Type ℓ} → Result A → Bool
is_ok (ok a) = true
is_ok (err e) = false
is_ok panic = false

-- a call, and the answer to it
abbrev pub call : {E A : Type 0} → E → (Trace E → Result A) → Exec (Trace E) A
call e answer t = let r = answer t in (r, (e, is_ok r) ∷ t)

-- a call whose failure the code handles itself
abbrev pub attempt : {E A : Type 0} → E → (Trace E → Result A) → Exec (Trace E) (Result A)
attempt e answer t = let r = answer t in (ok r, (e, is_ok r) ∷ t)
