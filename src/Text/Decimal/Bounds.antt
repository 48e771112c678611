-- ===== src/Text/Decimal/Bounds.antt =====
-- What strconv.Atoi returns is an integer of 64 bits.
use Prim.Native.Char.{code}
use Prim.Native.String.{[], ◌∷◌}
use k_vswitch.Prelude.{
  ℕ, zero, suc, ◌^◌, ◌<◌, ◌≡◌, String, Bool, true, false, Option, none, some, arith, ltb, ◌==◌,
  Bool-cases, inl, inr, if◌then◌else◌,
}
use k_vswitch.Text.Decimal.{digits_of, in_range, in_range_negated, atoi}
use k_vswitch.Text.Decimal.RoundTrip.{FitsInt}

-- the number that was read, if one was
abbrev pub OnSome : {A : Type 0} → (A → Type 0) → Option A → Type 0
OnSome P none = Unit
OnSome P (some a) = P a

below : (n : ℕ) → ltb n (2 ^ 63) ≡ true → n < 2 ^ 63
below n h = ground (arith, h)

in_range-FitsInt : (o : Option ℕ) → OnSome FitsInt (in_range o)
in_range-FitsInt none = tt
in_range-FitsInt (some n) = elim (Bool-cases (ltb n (2 ^ 63))) [
  | inl e ↦ rw e (below n e)
  | inr e ↦ rw e tt
]

in_range_negated-FitsInt : (o : Option ℕ) → OnSome FitsInt (in_range_negated o)
in_range_negated-FitsInt none = tt
in_range_negated-FitsInt (some zero) = omega arith
in_range_negated-FitsInt (some (suc n)) = elim (Bool-cases (ltb n (2 ^ 63))) [
  | inl e ↦ rw e (below n e)
  | inr e ↦ rw e tt
]

pub atoi-FitsInt : (s : String) → OnSome FitsInt (atoi s)
unfolding atoi
atoi-FitsInt [] = tt
atoi-FitsInt (c ∷ s) = by_sign (code c == b'-') (code c == b'+')
  where
    by_sign :
        (minus plus : Bool)
        → OnSome FitsInt (
            if minus
            then in_range_negated (digits_of s)
            else if plus
            then in_range (digits_of s)
            else in_range (digits_of (c ∷ s)))
    by_sign true plus = in_range_negated-FitsInt (digits_of s)
    by_sign false true = in_range-FitsInt (digits_of s)
    by_sign false false = in_range-FitsInt (digits_of (c ∷ s))
