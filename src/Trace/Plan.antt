-- ===== src/Trace/Plan.antt =====
-- Code that follows a plan: it makes the planned calls in their order, and stops at the first
-- failure.
use mathlib.Core.List.{append_assoc}
use k_vswitch.Prelude.{
  ◌≡◌, refl, ap, sym, ◌∙◌, ◌≢◌, ◌⊎◌, inl, inr, String, Bool, true, false, List, [], ◌∷◌, ◌++◌, All,
  All-append,
}
use k_vswitch.Result.{Result, ok, err, panic, context}
use k_vswitch.Exec.{annotated, Exec, ◌>>=◌, continue, lift}
use k_vswitch.Trace.{Trace, is_ok, call}

context-is_ok : {A : Type 0} (text : String) (r : Result A) → is_ok (context text r) ≡ is_ok r
context-is_ok text (ok a) = refl
context-is_ok text (err e) = refl
context-is_ok text panic = refl

false_not_true : false ≢ true
false_not_true h = cc

-- What a plan lists: a call, or a value that the code computes, with whether it has one. Where it has
-- none, the code stops there, without a call.
pub data Item (E : Type 0) : Type 0 where
  makes : E → Item E
  checks : Bool → Item E

module _ {E : Type 0} where
  -- the trace after calls that all succeeded
  abbrev pub done : List (Item E) → Trace E → Trace E
  done [] t = t
  done (makes e ∷ items) t = done items ((e, true) ∷ t)
  done (checks b ∷ items) t = done items t

  abbrev pub failing : Item E → Trace E → Trace E
  failing (makes e) t = (e, false) ∷ t
  failing (checks b) t = t

  -- a computed value that is there
  abbrev pub Passes : Item E → Type 0
  Passes (makes e) = Unit
  Passes (checks b) = b ≡ true

  -- a call, which may fail, or a computed value that is not there
  abbrev pub CanStop : Item E → Type 0
  CanStop (makes e) = Unit
  CanStop (checks b) = b ≡ false

  -- The items before the last one went well, the last one is the next of the plan, a call that
  -- failed or a value that is not there, and the rest was not tried.
  pub record Stopped (A : Type 0) (plan : List (Item E)) (t : Trace E) (x : Result A × Trace E)
      : Type 0 where
    pub before : List (Item E)
    pub last : Item E
    pub rest : List (Item E)
    pub is_plan : plan ≡ before ++ (last ∷ rest)
    pub passed : All Passes before
    pub stops : CanStop last
    pub outcome : Result A
    pub failed : is_ok outcome ≡ false
    pub ends : x ≡ (outcome, failing last (done before t))

  pub record Finished {A : Type 0} (plan : List (Item E)) (P : A → Type 0) (t : Trace E)
      (x : Result A × Trace E) : Type 0 where
    pub value : A
    pub holds : P value
    pub passed : All Passes plan
    pub ends : x ≡ (ok value, done plan t)

  -- The code makes all calls of the plan, with a value of which `P` holds, or it stops.
  pub record Follows {A : Type 0} (m : Exec (Trace E) A) (plan : List (Item E)) (P : A → Type 0)
      : Type 0 where
    pub at : (t : Trace E) → Finished plan P t (m t) ⊎ Stopped A plan t (m t)

  done-append : (ps qs : List (Item E)) (t : Trace E) → done (ps ++ qs) t ≡ done qs (done ps t)
  done-append [] qs t = refl
  done-append (makes e ∷ ps) qs t = done-append ps qs ((e, true) ∷ t)
  done-append (checks b ∷ ps) qs t = done-append ps qs t

  module _ {A : Type 0} where
    Stopped-first :
        (item : Item E) (r : Result A) (t : Trace E)
        → is_ok r ≡ false
        → CanStop item
        → Stopped A (item ∷ []) t (r, failing item t)
    Stopped-first item r t bad stops = record {
      before = [];
      last = item;
      rest = [];
      is_plan = refl;
      passed = tt;
      stops = stops;
      outcome = r;
      failed = bad;
      ends = refl;
    }

    pub Follows-call :
        (e : E) (answer : Trace E → Result A) (P : A → Type 0)
        → ((t : Trace E) (a : A) → answer t ≡ ok a → P a)
        → Follows (call e answer) (makes e ∷ []) P
    Follows-call e answer P holds = record { at = λ t. by_answer t (answer t) refl }
      where
        by_answer :
            (t : Trace E) (r : Result A)
            → answer t ≡ r
            → Finished (makes e ∷ []) P t (r, (e, is_ok r) ∷ t)
              ⊎ Stopped A (makes e ∷ []) t (r, (e, is_ok r) ∷ t)
        by_answer t (ok a) h =
            inl (record { value = a; holds = holds t a h; passed = (tt, tt); ends = refl })
        by_answer t (err x) h = inr (Stopped-first (makes e) (err x) t refl tt)
        by_answer t panic h = inr (Stopped-first (makes e) panic t refl tt)

    pub Follows-lift :
        (r : Result A) (P : A → Type 0)
        → ((a : A) → r ≡ ok a → P a)
        → Follows (lift r) (checks (is_ok r) ∷ []) P
    Follows-lift (ok a) P holds = record {
      at = λ t. inl (record { value = a; holds = holds a refl; passed = (refl, tt); ends = refl });
    }
    Follows-lift (err x) P holds = record {
      at = λ t. inr (Stopped-first (checks false) (err x) t refl refl);
    }
    Follows-lift panic P holds = record {
      at = λ t. inr (Stopped-first (checks false) panic t refl refl);
    }

    -- a text around the error changes no call
    pub Follows-annotated :
        (text : String) {m : Exec (Trace E) A} {plan : List (Item E)} {P : A → Type 0}
        → Follows m plan P
        → Follows (annotated text m) plan P
    Follows-annotated text {m} {plan} {P} h = record {
      at = λ t. elim (h.at t) [
        | inl x ↦ inl (record {
          value = x.value;
          holds = x.holds;
          passed = x.passed;
          ends = ap (λ (y : Result A × Trace E). (context text y.0, y.1)) x.ends;
        })
        | inr x ↦ inr (record {
          before = x.before;
          last = x.last;
          rest = x.rest;
          is_plan = x.is_plan;
          passed = x.passed;
          stops = x.stops;
          outcome = context text x.outcome;
          failed = context-is_ok text x.outcome ∙ x.failed;
          ends = ap (λ (y : Result A × Trace E). (context text y.0, y.1)) x.ends;
        })
      ];
    }

  module _ {A B : Type 0} (m : Exec (Trace E) A) (f : A → Exec (Trace E) B) (ps qs : List (Item E))
      (P : A → Type 0) (Q : B → Type 0) where
    -- the second part of the plan comes after the whole first part
    then_part :
        (t : Trace E) (a : A)
        → All Passes ps
        → m t ≡ (ok a, done ps t)
        → Finished qs Q (done ps t) (f a (done ps t)) ⊎ Stopped B qs (done ps t) (f a (done ps t))
        → Finished (ps ++ qs) Q t ((m >>= f) t) ⊎ Stopped B (ps ++ qs) t ((m >>= f) t)
    then_part t a passed e (inl h) = inl (record {
      value = h.value;
      holds = h.holds;
      passed = All-append Passes ps qs passed h.passed;
      ends =
          ap (λ (x : Result A × Trace E). continue x.0 f x.1) e
          ∙ h.ends
          ∙ ap (λ l. (ok h.value, l)) (sym (done-append ps qs t));
    })
    then_part t a passed e (inr h) = inr (record {
      before = ps ++ h.before;
      last = h.last;
      rest = h.rest;
      is_plan = ap (λ l. ps ++ l) h.is_plan ∙ sym (append_assoc ps h.before (h.last ∷ h.rest));
      passed = All-append Passes ps h.before passed h.passed;
      stops = h.stops;
      outcome = h.outcome;
      failed = h.failed;
      ends =
          ap (λ (x : Result A × Trace E). continue x.0 f x.1) e
          ∙ h.ends
          ∙ ap (λ l. (h.outcome, failing h.last l)) (sym (done-append ps h.before t));
    })

    Stopped-part : (t : Trace E) → Stopped A ps t (m t) → Stopped B (ps ++ qs) t ((m >>= f) t)
    Stopped-part t h = by_outcome h.outcome h.failed h.ends
      where
        by_outcome :
            (r : Result A)
            → is_ok r ≡ false
            → m t ≡ (r, failing h.last (done h.before t))
            → Stopped B (ps ++ qs) t ((m >>= f) t)
        by_outcome (ok a) bad e = cc
        by_outcome (err x) bad e = record {
          before = h.before;
          last = h.last;
          rest = h.rest ++ qs;
          is_plan = ap (λ l. l ++ qs) h.is_plan ∙ append_assoc h.before (h.last ∷ h.rest) qs;
          passed = h.passed;
          stops = h.stops;
          outcome = err x;
          failed = refl;
          ends = ap (λ (x : Result A × Trace E). continue x.0 f x.1) e;
        }
        by_outcome panic bad e = record {
          before = h.before;
          last = h.last;
          rest = h.rest ++ qs;
          is_plan = ap (λ l. l ++ qs) h.is_plan ∙ append_assoc h.before (h.last ∷ h.rest) qs;
          passed = h.passed;
          stops = h.stops;
          outcome = panic;
          failed = refl;
          ends = ap (λ (x : Result A × Trace E). continue x.0 f x.1) e;
        }

    bind-at : Follows m ps P → ((a : A) → P a → Follows (f a) qs Q) → Follows (m >>= f) (ps ++ qs) Q
    bind-at h k = record {
      at = λ t. elim (h.at t) [
        | inl x ↦ then_part t x.value x.passed x.ends ((k x.value x.holds).at (done ps t))
        | inr x ↦ inr (Stopped-part t x)
      ];
    }

  pub Follows-bind :
      {A B : Type 0} {m : Exec (Trace E) A} {f : A → Exec (Trace E) B} {ps qs : List (Item E)}
      {P : A → Type 0} {Q : B → Type 0}
      → Follows m ps P
      → ((a : A) → P a → Follows (f a) qs Q)
      → Follows (m >>= f) (ps ++ qs) Q
  Follows-bind {m} {f} {ps} {qs} {P} {Q} h k = bind-at m f ps qs P Q h k

  -- Code that ends well has made all its calls.
  pub Follows-done :
      {A : Type 0} {m : Exec (Trace E) A} {plan : List (Item E)} {P : A → Type 0} (t t' : Trace E)
      (a : A)
      → Follows m plan P
      → m t ≡ (ok a, t')
      → t' ≡ done plan t
  Follows-done {A} t t' a h e = elim (h.at t) [
    | inl x ↦ ap (λ (y : Result A × Trace E). y.1) (sym e ∙ x.ends)
    | inr x ↦
        let same : ok a ≡ x.outcome = ap (λ (y : Result A × Trace E). y.0) (sym e ∙ x.ends) in
        absurd (false_not_true (sym x.failed ∙ ap is_ok (sym same)))
  ]
