-- ===== src/Bools.antt =====
-- The laws of the Boolean connectives that the components share.
use k_vswitch.Prelude.{◌≡◌, refl, ◌≢◌, Bool, true, false, ◌&&◌, ◌||◌}

pub true_not_false : true ≢ false
true_not_false h = cc

pub or_rest : (p q : Bool) → p ≡ false → (p || q) ≡ true → q ≡ true
or_rest true q h e = cc
or_rest false q h e = e

pub or_first : (p q : Bool) → p ≡ true → (p || q) ≡ true
or_first true q h = refl
or_first false q h = cc

pub or_second : (p q : Bool) → q ≡ true → (p || q) ≡ true
or_second true q h = refl
or_second false q h = h

pub or_map : (p q r : Bool) → (q ≡ true → r ≡ true) → (p || q) ≡ true → (p || r) ≡ true
or_map true q r k e = refl
or_map false q r k e = k e

pub and_both : (p q : Bool) → (p && q) ≡ true → (p ≡ true) × (q ≡ true)
and_both true q e = (refl, e)
and_both false q e = cc

pub or_true : (b : Bool) → (b || true) ≡ true
or_true true = refl
or_true false = refl

pub or_lift : (p q r : Bool) → (p ≡ true → q ≡ true) → (p || r) ≡ true → (q || r) ≡ true
or_lift true q r k h = rw (k refl) refl
or_lift false true r k h = refl
or_lift false false r k h = h

pub or_none : (p : Bool) → (p || false) ≡ true → p ≡ true
or_none true h = refl
or_none false h = h

pub or_swap : (p q r : Bool) → (p || (q || r)) ≡ true → ((q || p) || r) ≡ true
or_swap true true r h = refl
or_swap true false r h = refl
or_swap false true r h = refl
or_swap false false r h = h

pub and_true : (b : Bool) → (b && true) ≡ b
and_true true = refl
and_true false = refl

pub and_false : (b : Bool) → (b && false) ≡ false
and_false true = refl
and_false false = refl
