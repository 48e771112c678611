-- ===== src/Text/Decimal/RoundTrip.antt =====
-- strconv.Atoi reads back what `%d` prints.
use Prim.Native.Char.{Char, code}
use mathlib.Core.Logic.{dite}
use native.Mathlib.Decide.{dec_lt}
use k_vswitch.Text.Laws.{Lacks}
use k_vswitch.Text.{is_space}
use k_vswitch.Text.Trim.{HasNoSpace}
use Prim.Native.String.{[], ◌∷◌}
use mathlib.Core.WellFounded.{Acc}
use k_vswitch.Prelude.{
  ℕ, zero, suc, ◌+◌, ◌-◌, ◌*◌, ◌/◌, ◌%◌, ◌^◌, ◌<◌, ◌≡◌, refl, String, false, ◌||◌, some, ℤ, pos,
  negsuc, arith, ltb, ◌==◌,
}
use k_vswitch.Text.Decimal.{
  tenth_lt, lt_wf, digit, digits, format_nat, format, scan, digits_of, atoi,
}

code-digit : (d : ℕ) → d < 10 → code (digit d) ≡ 48 + d
code-digit zero h = refl
code-digit (suc zero) h = refl
code-digit (suc (suc zero)) h = refl
code-digit (suc (suc (suc zero))) h = refl
code-digit (suc (suc (suc (suc zero)))) h = refl
code-digit (suc (suc (suc (suc (suc zero))))) h = refl
code-digit (suc (suc (suc (suc (suc (suc zero)))))) h = refl
code-digit (suc (suc (suc (suc (suc (suc (suc zero))))))) h = refl
code-digit (suc (suc (suc (suc (suc (suc (suc (suc zero)))))))) h = refl
code-digit (suc (suc (suc (suc (suc (suc (suc (suc (suc zero))))))))) h = refl
code-digit (suc (suc (suc (suc (suc (suc (suc (suc (suc (suc d)))))))))) h = absurd (omega arith)

in_digits : (d : ℕ) → d < 10 → (ltb (48 + d) 48 || ltb 57 (48 + d)) ≡ false
in_digits d h = ground arith

digit_value : (d : ℕ) → 48 + d - 48 ≡ d
digit_value d = omega arith

scan-digit : (d n : ℕ) (s : String) → d < 10 → scan (digit d ∷ s) n ≡ scan s (n * 10 + d)
unfolding scan
scan-digit d n s h = rw (code-digit d h, in_digits d h, digit_value d)

scan-digits : (n : ℕ) (w : Acc ◌<◌ n) (out : String) → scan (digits n w out) 0 ≡ scan out n
unfolding digits
scan-digits n (Acc.intro _ smaller) out = grind (
  arith,
  scan-digit (n % 10) (n / 10) out,
  λ (p : 0 < n). scan-digits (n / 10) (smaller (n / 10) (tenth_lt p)) (digit (n % 10) ∷ out),
)

format_nat-suc : (n : ℕ) → format_nat (suc n) ≡ digits (suc n) (lt_wf.apply (suc n)) []
unfolding format_nat
format_nat-suc n = ground arith

scan-format_nat : (n : ℕ) → scan (format_nat n) 0 ≡ some n
unfolding scan
scan-format_nat zero = unfold format_nat in refl
scan-format_nat (suc n) = rw format_nat-suc (scan-digits (suc n) (lt_wf.apply (suc n)) [])

-- a text that scans to a number other than 0 is not empty
digits_of-scan : (s : String) (n : ℕ) → scan s 0 ≡ some (suc n) → digits_of s ≡ some (suc n)
unfolding scan
digits_of-scan [] n h = cc
digits_of-scan (c ∷ s) n h = h

pub digits_of-format_nat : (n : ℕ) → digits_of (format_nat n) ≡ some n
unfolding scan
digits_of-format_nat zero = unfold format_nat in refl
digits_of-format_nat (suc n) = digits_of-scan (format_nat (suc n)) n (scan-format_nat (suc n))

-- a text of digits is read as it is: its first character is no sign
atoi_of_digits : (s : String) (n : ℕ) → n < 2 ^ 63 → digits_of s ≡ some n → atoi s ≡ some (pos n)
unfolding atoi scan
atoi_of_digits [] n b h = cc
atoi_of_digits (c ∷ s) n b h = ground arith

atoi_negated :
    (s : String) (n : ℕ)
    → n < 2 ^ 63
    → digits_of s ≡ some (suc n)
    → atoi ("-" ∷ s) ≡ some (negsuc n)
unfolding atoi scan
atoi_negated [] n b h = cc
atoi_negated (c ∷ s) n b h = rw h (ground arith)

abbrev pub FitsInt : ℤ → Type 0
FitsInt (pos n) = n < 2 ^ 63
FitsInt (negsuc n) = n < 2 ^ 63

-- Atoi returns the number that `%d` printed, for every integer of 64 bits.
pub atoi-format : (z : ℤ) → FitsInt z → atoi (format z) ≡ some z
unfolding format
atoi-format (pos n) h = atoi_of_digits (format_nat n) n h (digits_of-format_nat n)
atoi-format (negsuc n) h = atoi_negated (format_nat (suc n)) n h (digits_of-format_nat (suc n))

not_digit : (c : Char) (d : ℕ) → code c < 48 → d < 10 → (code (digit d) == code c) ≡ false
not_digit c d below h = rw (code-digit d h) (ground arith)

-- A character below the digits stands in no decimal text.
digits-Lacks :
    (c : Char)
    → code c < 48
    → (n : ℕ) (w : Acc ◌<◌ n) (out : String) → Lacks c out
    → Lacks c (digits n w out)
unfolding digits
digits-Lacks c below n (Acc.intro _ smaller) out h =
    elim (dec_lt 0 n)
      as (λ d. Lacks c (
        dite d (λ p. digits (n / 10) (smaller (n / 10) (tenth_lt p)) (digit (n % 10) ∷ out))
          (λ _. out))) [
            | yes p ↦
                digits-Lacks c below (n / 10) (smaller (n / 10) (tenth_lt p)) (digit (n % 10) ∷ out)
                  (not_digit c (n % 10) below (omega arith), h)
            | no p ↦ h
          ]

pub format_nat-Lacks : (c : Char) (n : ℕ) → code c < 48 → Lacks c (format_nat n)
format_nat-Lacks c zero h = unfold format_nat in (ground arith, tt)
format_nat-Lacks c (suc n) h =
    rw format_nat-suc (digits-Lacks c h (suc n) (lt_wf.apply (suc n)) [] tt)

digit_is_visible : (d : ℕ) → d < 10 → is_space (digit d) ≡ false
digit_is_visible d h = rw (code-digit d h) (ground arith)

-- A decimal text holds no white space.
digits-HasNoSpace :
    (n : ℕ) (w : Acc ◌<◌ n) (out : String) → HasNoSpace out → HasNoSpace (digits n w out)
unfolding digits
digits-HasNoSpace n (Acc.intro _ smaller) out h =
    elim (dec_lt 0 n)
      as (λ d. HasNoSpace (
        dite d (λ p. digits (n / 10) (smaller (n / 10) (tenth_lt p)) (digit (n % 10) ∷ out))
          (λ _. out))) [
            | yes p ↦
                digits-HasNoSpace (n / 10) (smaller (n / 10) (tenth_lt p)) (digit (n % 10) ∷ out)
                  (digit_is_visible (n % 10) (omega arith), h)
            | no p ↦ h
          ]

format_nat-HasNoSpace : (n : ℕ) → HasNoSpace (format_nat n)
format_nat-HasNoSpace zero = unfold format_nat in (refl, tt)
format_nat-HasNoSpace (suc n) =
    rw format_nat-suc (digits-HasNoSpace (suc n) (lt_wf.apply (suc n)) [] tt)

pub format-HasNoSpace : (z : ℤ) → HasNoSpace (format z)
unfolding format
format-HasNoSpace (pos n) = format_nat-HasNoSpace n
format-HasNoSpace (negsuc n) = (refl, format_nat-HasNoSpace (suc n))
