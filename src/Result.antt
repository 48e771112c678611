-- ===== src/Result.antt =====
-- Go's `(T, error)` returns and panics.
use k_vswitch.Prelude.{String, Bool, true, false}

-- The values that an error text interpolates are left out; the text around them, and the error
-- that it wraps, are kept. `not_found` is an error for which apierr.IsNotFound answers true.
pub data Error : Type 0 where
  not_found : Error
  msg : String → Error
  wrap : String → Error → Error

pub data Result {ℓ} (A : Type ℓ) : Type ℓ where
  ok : A → Result A
  err : Error → Result A
  panic : Result A

infixl 5 ◌>>=◌
abbrev pub ◌>>=◌ {ℓ κ} : {A : Type ℓ} {B : Type κ} → Result A → (A → Result B) → Result B
ok a >>= f = f a
err e >>= f = err e
panic >>= f = panic

-- if err != nil { return fmt.Errorf("context: %v", err) }
abbrev pub context {ℓ} : {A : Type ℓ} → String → Result A → Result A
context text (ok a) = ok a
context text (err e) = err (wrap text e)
context text panic = panic

abbrev pub is_not_found : Error → Bool
is_not_found not_found = true
is_not_found _ = false
