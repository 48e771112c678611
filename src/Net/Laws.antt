-- ===== src/Net/Laws.antt =====
-- The network of a CIDR, and the text of an address.
use mathlib.Core.Path.{subst}
use k_vswitch.Prelude.{
  ◌↔◌, ◌∙◌, ap, sym, ==_iff, ℕ, ◌+◌, ◌-◌, ◌*◌, ◌/◌, ◌%◌, ◌^◌, ◌≤◌, ◌<◌, ◌≡◌, String, true, some,
  List, arith,
}
use k_vswitch.Text.{◌++◌, split}
use k_vswitch.Text.Laws.{Lacks, split-append, split_of_Lacks}
use k_vswitch.Text.Decimal.{format_nat}
use k_vswitch.Text.Decimal.RoundTrip.{digits_of-format_nat, format_nat-Lacks}
use native.Mathlib.Nat.{
  one-le-pow, div-mul-le_self, lt-div-mul-add, mul-div_cancel, div-eq_of_lt-le,
}
use k_vswitch.Net.{octet, parse_ip, ip_string, block_size, mask, contains}

octet-format_nat : (n : ℕ) → n < 256 → octet (format_nat n) ≡ some n
unfolding octet
octet-format_nat n h = rw (digits_of-format_nat n) (ground arith)

parse_dotted :
    (a b c d : String) {w x y z : ℕ}
    → split "." (a ++ "." ++ b ++ "." ++ c ++ "." ++ d)
      ≡ List.◌∷◌ a (List.◌∷◌ b (List.◌∷◌ c (List.◌∷◌ d List.[])))
    → octet a ≡ some w
    → octet b ≡ some x
    → octet c ≡ some y
    → octet d ≡ some z
    → parse_ip (a ++ "." ++ b ++ "." ++ c ++ "." ++ d) ≡ some (((w * 256 + x) * 256 + y) * 256 + z)
unfolding parse_ip
parse_dotted a b c d e ha hb hc hd = rw (e, ha, hb, hc, hd)

dotted :
    (a b c d : String)
    → Lacks "." a
    → Lacks "." b
    → Lacks "." c
    → Lacks "." d
    → split "." (a ++ "." ++ b ++ "." ++ c ++ "." ++ d)
      ≡ List.◌∷◌ a (List.◌∷◌ b (List.◌∷◌ c (List.◌∷◌ d List.[])))
dotted a b c d ha hb hc hd = rw (
  split-append "." a (b ++ "." ++ c ++ "." ++ d) ha,
  split-append "." b (c ++ "." ++ d) hb,
  split-append "." c d hc,
  split_of_Lacks "." d hd,
)

four_octets :
    (n : ℕ)
    → n < 2 ^ 32
    → ((n / 2 ^ 24 % 256 * 256 + n / 2 ^ 16 % 256) * 256 + n / 2 ^ 8 % 256) * 256 + n % 256 ≡ n
four_octets n h = omega arith

-- ParseIP reads back what String prints, for every address of 32 bits.
pub parse_ip-ip_string : (n : ℕ) → n < 2 ^ 32 → parse_ip (ip_string n) ≡ some n
unfolding parse_ip ip_string
parse_ip-ip_string n h =
    let no_dot = λ (m : ℕ). format_nat-Lacks "." m (omega arith) in
    parse_dotted _ _ _ _
      (dotted _ _ _ _ (no_dot (n / 2 ^ 24 % 256)) (no_dot (n / 2 ^ 16 % 256))
        (no_dot (n / 2 ^ 8 % 256)) (no_dot (n % 256)))
      (octet-format_nat (n / 2 ^ 24 % 256) (omega arith))
      (octet-format_nat (n / 2 ^ 16 % 256) (omega arith))
      (octet-format_nat (n / 2 ^ 8 % 256) (omega arith)) (octet-format_nat (n % 256) (omega arith))
    ∙ ap some (four_octets n h)

block-pos : (ones : ℕ) → 0 < block_size ones
block-pos ones = one-le-pow (32 - ones) 2 (omega arith)

mask-div : (n ones : ℕ) → mask n ones / block_size ones ≡ n / block_size ones
mask-div n ones = mul-div_cancel (n / block_size ones) (block-pos ones)

-- The network of a CIDR contains the address that the CIDR was written with.
pub contains-mask :
    (n ones : ℕ) → contains (record { ip = mask n ones; ones = ones }) (some n) ≡ true
unfolding contains
contains-mask n ones = rw (mask-div n ones) (ground arith)

in_block : (q b a : ℕ) → 0 < b → (a / b ≡ q) ↔ ((q * b ≤ a) × (a < q * b + b))
in_block q b a h = (
  λ e. subst (λ k. (k * b ≤ a) × (a < k * b + b)) e (div-mul-le_self a b, lt-div-mul-add h),
  λ k. div-eq_of_lt-le b k.0 (grind (arith, k)),
)

-- It contains exactly the block of addresses that begins at its own.
pub contains_iff :
    (n ones a : ℕ)
    → (contains (record { ip = mask n ones; ones = ones }) (some a) ≡ true)
      ↔ ((mask n ones ≤ a) × (a < mask n ones + block_size ones))
unfolding contains
contains_iff n ones a =
    let block = in_block (n / block_size ones) (block_size ones) a (block-pos ones) in
    let same = ==_iff (a / block_size ones) (mask n ones / block_size ones) in
    (λ h. block.0 (same.0 h ∙ mask-div n ones), λ h. same.1 (block.1 h ∙ sym (mask-div n ones)))
