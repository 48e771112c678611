-- ===== src/Exec.antt =====
-- Code that changes a state and may return an error or panic. What was written before stays
-- written, so the state comes back beside the outcome.
use k_vswitch.Prelude.{String, List, [], ◌∷◌}
use k_vswitch.Result.{Result, ok, err, panic, context}

abbrev pub Exec {ℓ} : Type ℓ → Type ℓ → Type ℓ
Exec S A = S → Result A × S

module _ {ℓ} {S A : Type ℓ} where
  abbrev pub pure : A → Exec S A
  pure a s = (ok a, s)

  abbrev pub lift : Result A → Exec S A
  lift r s = (r, s)

  abbrev pub gets : (S → A) → Exec S A
  gets f s = (ok (f s), s)

module _ {ℓ} {S A B : Type ℓ} where
  abbrev pub continue : Result A → (A → Exec S B) → Exec S B
  continue (ok a) f s = f a s
  continue (err e) f s = (err e, s)
  continue panic f s = (panic, s)

  infixl 10 ◌>>=◌ ◌>>◌
  abbrev pub ◌>>=◌ : Exec S A → (A → Exec S B) → Exec S B
  ◌>>=◌ m f s = let (r, s') = m s in continue r f s'

  abbrev pub ◌>>◌ : Exec S A → Exec S B → Exec S B
  m >> n = m >>= λ _. n

module _ {S A : Type 0} where
  -- if err != nil { return fmt.Errorf("context: %v", err) }
  abbrev pub annotated : String → Exec S A → Exec S A
  annotated text m s = let (r, s') = m s in (context text r, s')

module _ {S A : Type 0} where
  -- defer after()
  abbrev pub deferred : Exec S (Unit {0}) → Exec S A → Exec S A
  deferred after m s = let (r, s') = m s in (r, (after s').1)

  -- defer func() { if !success { after() } }()
  abbrev pub unless_ok : Exec S (Unit {0}) → Result A × S → Result A × S
  unless_ok after (ok a, s) = (ok a, s)
  unless_ok after (err e, s) = (err e, (after s).1)
  unless_ok after (panic, s) = (panic, (after s).1)

module _ {S : Type 0} where
  abbrev pub modify : (S → S) → Exec S (Unit {0})
  modify f s = (ok tt, f s)

  abbrev pub skip : Exec S (Unit {0})
  skip s = (ok tt, s)

  -- if err != nil { klog.Errorf(...) }, with the error dropped
  abbrev pub logged_result : Result (Unit {0}) × S → Result (Unit {0}) × S
  logged_result (ok a, s) = (ok a, s)
  logged_result (err e, s) = (ok tt, s)
  logged_result (panic, s) = (panic, s)

  abbrev pub logged : Exec S (Unit {0}) → Exec S (Unit {0})
  logged m s = logged_result (m s)

  -- for _, x := range xs { body(x) }
  unfoldable pub for_each {ℓ} : {X : Type ℓ} → List X → (X → Exec S (Unit {0})) → Exec S (Unit {0})
  for_each [] body = skip
  for_each (x ∷ xs) body = body x >> for_each xs body
