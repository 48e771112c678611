-- ===== src/Text.antt =====
-- What the program uses of Go's `strings` and `strconv`, over native texts.
pub mod Decimal
pub mod Laws
pub mod Trim
use Prim.Native.Char.{Char, code}
use Prim.Native.String.{[], ◌∷◌, char_at}
use k_vswitch.Prelude.{
  ◌-◌, ◌≡◌, refl, String, Bool, true, false, ◌&&◌, ◌||◌, List, leb, ◌==◌, str_eq, if◌then◌else◌,
}

-- s + t, by clauses, so that it computes where only `s` is known
infixr 65 ◌++◌
abbrev pub ◌++◌ : String → String → String
[] ++ t = t
(c ∷ s) ++ t = c ∷ (s ++ t)

-- s != ""
abbrev pub non_empty : String → Bool
non_empty [] = false
non_empty (c ∷ s) = true

-- unicode.IsSpace
abbrev pub is_space : Char → Bool
is_space c =
    let n = code c in
    leb 9 n && leb n 13
    || n == 0x20
    || n == 0x85
    || n == 0xa0
    || n == 0x1680
    || leb 0x2000 n && leb n 0x200a
    || n == 0x2028
    || n == 0x2029
    || n == 0x202f
    || n == 0x205f
    || n == 0x3000

unfoldable pub trim_left : String → String
trim_left [] = []
trim_left (c ∷ s) = if is_space c then trim_left s else c ∷ s

-- a space is dropped if nothing is left behind it
abbrev pub keep_head : Char → String → String
keep_head c [] = if is_space c then [] else c ∷ []
keep_head c (d ∷ s) = c ∷ d ∷ s

unfoldable pub trim_right : String → String
trim_right [] = []
trim_right (c ∷ s) = keep_head c (trim_right s)

-- strings.TrimSpace
unfoldable pub trim_space : String → String
unfolding trim_left trim_right
trim_space s = trim_right (trim_left s)

-- strings.HasPrefix, prefix first
unfoldable pub has_prefix : String → String → Bool
has_prefix [] s = true
has_prefix (p ∷ ps) [] = false
has_prefix (p ∷ ps) (c ∷ s) = code p == code c && has_prefix ps s

-- `s` without as many characters as the first text has
unfoldable pub drop_like : String → String → String
drop_like [] s = s
drop_like (p ∷ ps) [] = []
drop_like (p ∷ ps) (c ∷ s) = drop_like ps s

-- strings.TrimPrefix(s, prefix), prefix first
unfoldable pub trim_prefix : String → String → String
unfolding has_prefix drop_like
trim_prefix prefix s = if has_prefix prefix s then drop_like prefix s else s

-- strings.TrimSuffix(s, suffix), suffix first: what is left from the suffix on is dropped
unfoldable pub trim_suffix : String → String → String
trim_suffix suffix [] = []
trim_suffix suffix (c ∷ s) =
    let rest = trim_suffix suffix s in if str_eq (c ∷ s) suffix then [] else c ∷ rest

-- strings.Contains(s, part), part first
unfoldable pub contains : String → String → Bool
unfolding has_prefix
contains part [] = has_prefix part []
contains part (c ∷ s) = has_prefix part (c ∷ s) || contains part s

-- the first part grows by a character
abbrev pub grow : Char → List String → List String
grow c List.[] = List.◌∷◌ (c ∷ []) List.[]
grow c (List.◌∷◌ part parts) = List.◌∷◌ (c ∷ part) parts

-- strings.Split at a separator of one character
unfoldable pub split : Char → String → List String
split sep [] = List.◌∷◌ [] List.[]
split sep (c ∷ s) =
    let parts = split sep s in if code c == code sep then List.◌∷◌ [] parts else grow c parts

-- strings.Replace(s, c, "", -1)
unfoldable pub remove : Char → String → String
remove gone [] = []
remove gone (c ∷ s) = let rest = remove gone s in if code c == code gone then rest else c ∷ rest

-- strings.Join
unfoldable pub join : String → List String → String
join sep List.[] = []
join sep (List.◌∷◌ s List.[]) = s
join sep (List.◌∷◌ s (List.◌∷◌ t rest)) = s ++ sep ++ join sep (List.◌∷◌ t rest)

-- unicode.ToLower, on the letters of ASCII
abbrev pub lower_char : Char → Char
lower_char c =
    if leb 65 (code c) && leb (code c) 90
    then char_at "abcdefghijklmnopqrstuvwxyz" (code c - 65)
    else c

-- strings.ToLower
unfoldable pub to_lower : String → String
to_lower [] = []
to_lower (c ∷ s) = lower_char c ∷ to_lower s

-- The functions on an input that each of them changes.
lower_test : (to_lower "TCP" ≡ "tcp") × (to_lower "Udp" ≡ "udp")
unfolding to_lower
lower_test = (refl, refl)

trim_test :
    (trim_space " \"aa:bb\" \n" ≡ "\"aa:bb\"")
    × (trim_prefix "\"" "\"aa\"" ≡ "aa\"")
    × (trim_suffix "\"" "aa\"" ≡ "aa")
unfolding trim_space trim_prefix trim_suffix
trim_test = (refl, refl, refl)

split_test : join "+" (split ";" "a;bc;;d") ≡ "a+bc++d"
unfolding join split
split_test = refl

remove_test : (remove "/" "/var/run" ≡ "varrun") × (contains "b" "abc" ≡ true)
unfolding remove contains
remove_test = (refl, refl)
