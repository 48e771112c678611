-- ===== src/Text/Decimal.antt =====
-- The decimal text of a number: `%d`, and strconv.Atoi, which reads it back.
pub mod Bounds
pub mod RoundTrip
use Prim.Native.Char.{Char, code}
use Prim.Native.String.{[], ◌∷◌, char_at}
use mathlib.Core.Logic.{dite}
use mathlib.Core.WellFounded.{Acc, WellFounded}
use native.Mathlib.Decide.{dec_lt}
use k_vswitch.Prelude.{
  ℕ, zero, suc, ◌+◌, ◌-◌, ◌*◌, ◌/◌, ◌%◌, ◌^◌, ◌<◌, ◌≡◌, refl, ◌||◌, String, Option, none, some, ℤ,
  pos, negsuc, arith, ltb, leb, ◌==◌, if◌then◌else◌,
}

acc_below : (k n : ℕ) → n < k → Acc ◌<◌ n
acc_below zero n h = absurd (omega arith)
acc_below (suc k) n h = Acc.intro n λ m lt. acc_below k m (omega arith)

pub lt_wf : WellFounded ◌<◌
unfolding acc_below
lt_wf = record { apply = λ n. acc_below (suc n) n (omega arith) }

pub tenth_lt : {n : ℕ} → 0 < n → n / 10 < n
tenth_lt h = omega arith

-- the character of a digit
abbrev pub digit : ℕ → Char
digit d = char_at "0123456789" d

digits : (n : ℕ) → Acc ◌<◌ n → String → String
digits n (Acc.intro _ smaller) out =
    dite (dec_lt 0 n) (λ h. digits (n / 10) (smaller (n / 10) (tenth_lt h)) (digit (n % 10) ∷ out))
      (λ _. out)

unfoldable pub format_nat : ℕ → String
unfolding digits lt_wf dec_lt
format_nat n = if n == 0 then "0" else digits n (lt_wf.apply n) []

-- `%d`
unfoldable pub format : ℤ → String
unfolding format_nat
format (pos n) = format_nat n
format (negsuc n) = "-" ∷ format_nat (suc n)

-- the digits of a text, read after the number `n`
unfoldable pub scan : String → ℕ → Option ℕ
scan [] n = some n
scan (c ∷ s) n =
    let d = code c in if ltb d b'0' || ltb b'9' d then none else scan s (n * 10 + (d - b'0'))

abbrev pub digits_of : String → Option ℕ
unfolding scan
digits_of [] = none
digits_of (c ∷ s) = scan (c ∷ s) 0

-- the bounds of a signed integer of 64 bits
abbrev pub in_range : Option ℕ → Option ℤ
in_range none = none
in_range (some n) = if ltb n (2 ^ 63) then some (pos n) else none

abbrev pub in_range_negated : Option ℕ → Option ℤ
in_range_negated none = none
in_range_negated (some zero) = some (pos 0)
in_range_negated (some (suc n)) = if ltb n (2 ^ 63) then some (negsuc n) else none

-- strconv.Atoi, `none` for an error
unfoldable pub atoi : String → Option ℤ
unfolding scan digits_of
atoi [] = none
atoi (c ∷ s) =
    if code c == b'-'
    then in_range_negated (digits_of s)
    else if code c == b'+'
    then in_range (digits_of s)
    else in_range (digits_of (c ∷ s))

format_test : (format (pos 6653) ≡ "6653") × (format (negsuc 0) ≡ "-1") × (format (pos 0) ≡ "0")
unfolding format
format_test = (refl, refl, refl)

atoi_test :
    (atoi "-17" ≡ some (negsuc 16))
    × (atoi "9223372036854775808" ≡ none)
    × (atoi "[]" ≡ none)
    × (atoi "+3" ≡ some (pos 3))
unfolding atoi
atoi_test = (refl, refl, refl, refl)
