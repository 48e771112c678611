-- ===== src/Trace/Keeps.antt =====
-- Code that leaves what is read off the trace as it was.
use k_vswitch.Prelude.{◌≡◌, refl, ap, ◌∙◌, String, Bool, true, false, List, [], ◌∷◌, if◌then◌else◌}
use k_vswitch.Result.{Result, ok, err, panic}
use k_vswitch.Exec.{Exec, ◌>>=◌, continue, pure, lift, skip, annotated, deferred, for_each}
use k_vswitch.Trace.{Trace, call, attempt, is_ok}

module _ {E V : Type 0} (view : Trace E → V) where
  pub record Keeps {A : Type 0} (m : Exec (Trace E) A) : Type 0 where
    pub at : (t : Trace E) → view (m t).1 ≡ view t

  abbrev pub IsSilent : E → Type 0
  IsSilent e = (b : Bool) (t : Trace E) → view ((e, b) ∷ t) ≡ view t

  module _ {A : Type 0} where
    pub Keeps-call : (e : E) (answer : Trace E → Result A) → IsSilent e → Keeps (call e answer)
    Keeps-call e answer silent = record { at = λ t. silent (is_ok (answer t)) t }

    pub Keeps-attempt :
        (e : E) (answer : Trace E → Result A) → IsSilent e → Keeps (attempt e answer)
    Keeps-attempt e answer silent = record { at = λ t. silent (is_ok (answer t)) t }

    pub Keeps-lift : (r : Result A) → Keeps (lift r)
    Keeps-lift r = record { at = λ t. refl }

    pub Keeps-pure : (a : A) → Keeps (pure a)
    Keeps-pure a = record { at = λ t. refl }

    pub Keeps-annotated :
        (text : String) {m : Exec (Trace E) A} → Keeps m → Keeps (annotated text m)
    Keeps-annotated text h = record { at = λ t. h.at t }

    pub Keeps-deferred :
        {after : Exec (Trace E) (Unit {0})} {m : Exec (Trace E) A}
        → Keeps after
        → Keeps m
        → Keeps (deferred after m)
    Keeps-deferred {m} h k = record { at = λ t. h.at (m t).1 ∙ k.at t }

    pub Keeps-if :
        (b : Bool) {m n : Exec (Trace E) A} → Keeps m → Keeps n → Keeps (if b then m else n)
    Keeps-if true h k = h
    Keeps-if false h k = k

  module _ {A B : Type 0} {m : Exec (Trace E) A} {f : A → Exec (Trace E) B} where
    pub Keeps-bind : Keeps m → ((a : A) → Keeps (f a)) → Keeps (m >>= f)
    Keeps-bind h k = record { at = λ t. by_outcome t (m t).0 (m t).1 (h.at t) }
      where
        by_outcome :
            (t : Trace E) (r : Result A) (t' : Trace E)
            → view t' ≡ view t
            → view (continue r f t').1 ≡ view t
        by_outcome t (ok a) t' h = (k a).at t' ∙ h
        by_outcome t (err e) t' h = h
        by_outcome t panic t' h = h

  pub Keeps-skip : Keeps skip
  Keeps-skip = record { at = λ t. refl }

  pub Keeps-for_each :
      {X : Type 0} (xs : List X) (body : X → Exec (Trace E) (Unit {0}))
      → ((x : X) → Keeps (body x))
      → Keeps (for_each xs body)
  unfolding for_each
  Keeps-for_each [] body h = Keeps-skip
  Keeps-for_each (x ∷ xs) body h = Keeps-bind (h x) (λ u. Keeps-for_each xs body h)

  -- Where the code ends well, what is read off the trace is `s'` if it was `s` before.
  pub record Reaches {A : Type 0} (m : Exec (Trace E) A) (s s' : V) : Type 0 where
    pub at : (t : Trace E) → view t ≡ s → is_ok (m t).0 ≡ true → view (m t).1 ≡ s'

  pub Keeps-Reaches : {A : Type 0} {m : Exec (Trace E) A} (s : V) → Keeps m → Reaches m s s
  Keeps-Reaches s h = record { at = λ t start good. h.at t ∙ start }

  module _ {A : Type 0} where
    pub Reaches-call :
        (e : E) (answer : Trace E → Result A) (s s' : V)
        → ((t : Trace E) → view t ≡ s → view ((e, true) ∷ t) ≡ s')
        → Reaches (call e answer) s s'
    Reaches-call e answer s s' h = record {
      at = λ t start good. ap (λ b. view ((e, b) ∷ t)) good ∙ h t start;
    }

    pub Reaches-if :
        (b : Bool) {m n : Exec (Trace E) A} (s : V) (to : Bool → V)
        → Reaches m s (to true)
        → Reaches n s (to false)
        → Reaches (if b then m else n) s (to b)
    Reaches-if true s to h k = h
    Reaches-if false s to h k = k

  module _ {A B : Type 0} {m : Exec (Trace E) A} {f : A → Exec (Trace E) B} (s s' s'' : V) where
    pub Reaches-bind : Reaches m s s' → ((a : A) → Reaches (f a) s' s'') → Reaches (m >>= f) s s''
    Reaches-bind h k = record { at = λ t start. by_outcome (m t).0 (m t).1 (h.at t start) }
      where
        by_outcome :
            (r : Result A) (t' : Trace E)
            → (is_ok r ≡ true → view t' ≡ s')
            → is_ok (continue r f t').0 ≡ true
            → view (continue r f t').1 ≡ s''
        by_outcome (ok a) t' there good = (k a).at t' (there refl) good
        by_outcome (err e) t' there good = cc
        by_outcome panic t' there good = cc
