-- ===== src/Net/Parsed.antt =====
-- What the parsers of addresses and of blocks guarantee of their results.
use k_vswitch.Prelude.{
  ℕ, ◌^◌, ◌≤◌, ◌<◌, ◌≡◌, refl, String, Option, none, some, List, [], ◌∷◌, arith, ◌>>=◌,
}
use mathlib.Core.Path.{subst}
use k_vswitch.Text.{split}
use k_vswitch.Text.Decimal.{digits_of}
use k_vswitch.Result.{msg, ok, err}
use k_vswitch.Net.{at_most, octet, four_parts, parse_ip, IpNet, mask, two_parts, parse_cidr}

-- What holds of the values of the second step holds of those of a chain.
>>=-any :
    {A B : Type 0} (Q : B → Type 0) (m : Option A) (f : A → Option B)
    → ((a : A) → m ≡ some a → (b : B) → f a ≡ some b → Q b)
    → (b : B) → (m >>= f) ≡ some b
    → Q b
>>=-any Q none f each b h = cc
>>=-any Q (some a) f each b h = each a refl b h

some_value : {A : Type 0} (a b : A) → some a ≡ some b → a ≡ b
some_value a b h = cc

at_most-le : (bound n m : ℕ) → at_most bound n ≡ some m → m ≤ bound
at_most-le bound n m h = ground arith

octet-le : (s : String) (n : ℕ) → octet s ≡ some n → n ≤ 255
unfolding octet
octet-le s = >>=-any (λ n. n ≤ 255) (digits_of s) (at_most 255) (λ d e n h. at_most-le 255 d n h)

four_parts-lt : (parts : List String) (n : ℕ) → four_parts parts ≡ some n → n < 2 ^ 32
unfolding four_parts octet
four_parts-lt (a ∷ b ∷ c ∷ d ∷ []) value all =
    >>=-any (λ n. n < 2 ^ 32) (octet a) _
      (λ w hw.
        >>=-any (λ n. n < 2 ^ 32) (octet b) _
          (λ x hx.
            >>=-any (λ n. n < 2 ^ 32) (octet c) _
              (λ y hy.
                >>=-any (λ n. n < 2 ^ 32) (octet d) _
                  (λ z hz n h. omega (
                    arith,
                    octet-le a w hw,
                    octet-le b x hx,
                    octet-le c y hy,
                    octet-le d z hz,
                    some_value _ _ h,
                  )))))
      value all
four_parts-lt [] n h = cc
four_parts-lt (a ∷ []) n h = cc
four_parts-lt (a ∷ b ∷ []) n h = cc
four_parts-lt (a ∷ b ∷ c ∷ []) n h = cc
four_parts-lt (a ∷ b ∷ c ∷ d ∷ e ∷ rest) n h = cc

pub parse_ip-lt : (s : String) (n : ℕ) → parse_ip s ≡ some n → n < 2 ^ 32
unfolding parse_ip
parse_ip-lt s n h = four_parts-lt (split "." s) n h

-- A block that was read: the first address of the block of some address.
pub record IsBlock (net : IpNet) : Type 0 where
  pub address : ℕ
  pub bounded : address < 2 ^ 32
  pub bits : net.ones ≤ 32
  pub masked : net.ip ≡ mask address net.ones

two_parts-IsBlock : (parts : List String) (net : IpNet) → two_parts parts ≡ some net → IsBlock net
unfolding two_parts
two_parts-IsBlock (address ∷ length ∷ []) value all =
    >>=-any IsBlock (parse_ip address) _
      (λ n hn. >>=-any IsBlock (digits_of length) _ (λ digits hd.
        >>=-any IsBlock (at_most 32 digits) _ (λ ones ho net h.
          let same : record { ip = mask n ones; ones = ones } ≡ net = some_value _ _ h in
          subst IsBlock same (record {
            address = n;
            bounded = parse_ip-lt address n hn;
            bits = at_most-le 32 digits ones ho;
            masked = refl;
          }))))
      value all
two_parts-IsBlock [] net h = cc
two_parts-IsBlock (a ∷ []) net h = cc
two_parts-IsBlock (a ∷ b ∷ c ∷ rest) net h = cc

pub parse_cidr-IsBlock : (s : String) (net : IpNet) → parse_cidr s ≡ ok net → IsBlock net
unfolding parse_cidr
parse_cidr-IsBlock s net h = by_parts (two_parts (split "/" s)) refl h
  where
    by_parts :
        (o : Option IpNet)
        → two_parts (split "/" s) ≡ o
        → (elim o [ none ↦ err (msg "invalid CIDR address") | some n ↦ ok n ]) ≡ ok net
        → IsBlock net
    by_parts none e k = cc
    by_parts (some n) e k = two_parts-IsBlock (split "/" s) net (cc)
