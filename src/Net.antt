-- ===== src/Net.antt =====
-- What the program uses of Go's `net`, for IPv4: an address is its number of 32 bits.
pub mod Laws
pub mod Parsed
use k_vswitch.Prelude.{
  ℕ, ◌+◌, ◌-◌, ◌*◌, ◌/◌, ◌%◌, ◌^◌, ◌≡◌, refl, String, Bool, true, false, Option, none, some, List,
  [], ◌∷◌, leb, ◌==◌, if◌then◌else◌, ◌>>=◌,
}
use k_vswitch.Text.{◌++◌, split}
use k_vswitch.Text.Decimal.{format_nat, digits_of, scan}
use k_vswitch.Result.{msg, Result, ok, err}

abbrev at_most : ℕ → ℕ → Option ℕ
at_most bound n = if leb n bound then some n else none

-- a part of a dotted address
octet : String → Option ℕ
octet s = do n ← digits_of s; at_most 255 n

abbrev four_parts : List String → Option ℕ
unfolding octet
four_parts (a ∷ b ∷ c ∷ d ∷ []) = do
  w ← octet a
  x ← octet b
  y ← octet c
  z ← octet d
  some (((w * 256 + x) * 256 + y) * 256 + z)
four_parts _ = none

-- net.ParseIP, `none` for nil
unfoldable pub parse_ip : String → Option ℕ
unfolding four_parts octet split scan
parse_ip s = four_parts (split "." s)

-- net.IP.String
unfoldable pub ip_string : ℕ → String
unfolding format_nat
ip_string n =
    format_nat (n / 2 ^ 24 % 256)
    ++ "."
    ++ format_nat (n / 2 ^ 16 % 256)
    ++ "."
    ++ format_nat (n / 2 ^ 8 % 256)
    ++ "."
    ++ format_nat (n % 256)

-- net.IPNet: the network's first address, and how many leading bits are its own
pub record IpNet : Type 0 where
  pub ip : ℕ
  pub ones : ℕ

-- 2 to the number of host bits
abbrev pub block_size : ℕ → ℕ
block_size ones = 2 ^ (32 - ones)

-- ip.Mask(net.CIDRMask(ones, 32))
abbrev pub mask : ℕ → ℕ → ℕ
mask n ones = n / block_size ones * block_size ones

abbrev two_parts : List String → Option IpNet
unfolding parse_ip scan
two_parts (address ∷ length ∷ []) = do
  n ← parse_ip address
  digits ← digits_of length
  ones ← at_most 32 digits
  some (record { ip = mask n ones; ones = ones })
two_parts _ = none

-- net.ParseCIDR, of whose two results the program uses the network
unfoldable pub parse_cidr : String → Result IpNet
unfolding two_parts parse_ip split scan
parse_cidr s = elim (two_parts (split "/" s)) [
  | none ↦ err (msg "invalid CIDR address")
  | some net ↦ ok net
]

-- ipnet.Contains, false for nil
unfoldable pub contains : IpNet → Option ℕ → Bool
contains net none = false
contains net (some n) = n / block_size net.ones == net.ip / block_size net.ones

parse_test :
    (parse_ip "10.1.7.5" ≡ some 167839493)
    × (parse_ip "10.1.7" ≡ none)
    × (parse_ip "10.1.7.256" ≡ none)
    × (parse_ip "" ≡ none)
    × (ip_string 167839493 ≡ "10.1.7.5")
unfolding parse_ip ip_string
parse_test = (refl, refl, refl, refl, refl)

cidr_test :
    (parse_cidr "10.1.7.9/24" ≡ ok (record { ip = 167839488; ones = 24 }))
    × (parse_cidr "10.1.7.0" ≡ err (msg "invalid CIDR address"))
    × (contains (record { ip = 167839488; ones = 24 }) (some 167839493) ≡ true)
    × (contains (record { ip = 167839488; ones = 24 }) (some 167839744) ≡ false)
unfolding parse_cidr contains
cidr_test = (refl, refl, refl, refl)
