-- ===== src/Text/Laws.antt =====
-- Removing a character, trimming and splitting.
use Prim.Native.Char.{Char, code}
use Prim.Native.String.{[], ◌∷◌}
use k_vswitch.Prelude.{
  ◌≡◌, refl, ap, ◌∙◌, String, Bool, true, false, not, ◌&&◌, List, All, arith, ◌==◌,
}
use k_vswitch.Bools.{and_both}
use k_vswitch.Text.{◌++◌, has_prefix, drop_like, split, remove, join}

pub append_assoc : (s t u : String) → (s ++ t) ++ u ≡ s ++ (t ++ u)
append_assoc [] t u = refl
append_assoc (c ∷ s) t u = ap (λ r. c ∷ r) (append_assoc s t u)

pub append-nil : (s : String) → s ++ "" ≡ s
append-nil [] = refl
append-nil (c ∷ s) = ap (λ r. c ∷ r) (append-nil s)

pub has_prefix-append : (s t : String) → has_prefix s (s ++ t) ≡ true
unfolding has_prefix
has_prefix-append [] t = refl
has_prefix-append (c ∷ s) t = ground (arith, has_prefix-append s t)

pub drop_like-append : (s t : String) → drop_like s (s ++ t) ≡ t
unfolding drop_like
drop_like-append [] t = refl
drop_like-append (c ∷ s) t = drop_like-append s t

-- the text does not hold the character
abbrev pub Lacks : Char → String → Type 0
Lacks c [] = Unit
Lacks c (d ∷ s) = ((code d == code c) ≡ false) × Lacks c s

pub Lacks-append : (c : Char) (s t : String) → Lacks c s → Lacks c t → Lacks c (s ++ t)
Lacks-append c [] t h k = k
Lacks-append c (d ∷ s) t h k = (h.0, Lacks-append c s t h.1 k)

-- the test of it
abbrev pub lacks : Char → String → Bool
lacks c [] = true
lacks c (d ∷ s) = not (code d == code c) && lacks c s

pub Lacks-of_test : (c : Char) (s : String) → lacks c s ≡ true → Lacks c s
Lacks-of_test c [] h = tt
Lacks-of_test c (d ∷ s) h =
    let (other, more) = and_both (not (code d == code c)) (lacks c s) h in
    (ground (arith, other), Lacks-of_test c s more)

pub Lacks-join :
    (c : Char) (sep : String) (parts : List String)
    → Lacks c sep
    → All (Lacks c) parts
    → Lacks c (join sep parts)
unfolding join
Lacks-join c sep List.[] h k = tt
Lacks-join c sep (List.◌∷◌ s List.[]) h k = k.0
Lacks-join c sep (List.◌∷◌ s (List.◌∷◌ t rest)) h k =
    Lacks-append c s (sep ++ join sep (List.◌∷◌ t rest)) k.0
      (Lacks-append c sep (join sep (List.◌∷◌ t rest)) h (Lacks-join c sep (List.◌∷◌ t rest) h k.1))

pub remove-Lacks : (c : Char) (s : String) → Lacks c (remove c s)
unfolding remove
remove-Lacks c [] = tt
remove-Lacks c (d ∷ s) = ground (arith, remove-Lacks c s)

pub remove_of_Lacks : (c : Char) (s : String) → Lacks c s → remove c s ≡ s
unfolding remove
remove_of_Lacks c [] h = refl
remove_of_Lacks c (d ∷ s) h = ground (arith, remove_of_Lacks c s h.1)

-- A part with no separator is split off whole.
pub split-append :
    (sep : Char) (s : String) (rest : String)
    → Lacks sep s
    → split sep (s ++ sep ∷ rest) ≡ List.◌∷◌ s (split sep rest)
unfolding split
split-append sep [] rest h = ground arith
split-append sep (c ∷ s) rest h = ground (arith, split-append sep s rest h.1)

pub split_of_Lacks : (sep : Char) (s : String) → Lacks sep s → split sep s ≡ List.◌∷◌ s List.[]
unfolding split
split_of_Lacks sep [] h = refl
split_of_Lacks sep (c ∷ s) h = ground (arith, split_of_Lacks sep s h.1)

pub append_cancel_left : (s t u : String) → s ++ t ≡ s ++ u → t ≡ u
append_cancel_left [] t u h = h
append_cancel_left (c ∷ s) t u h = append_cancel_left s t u (cc)

-- Parts with no separator are split where they were joined.
pub split-join :
    (sep : Char) (part : String) (parts : List String)
    → All (Lacks sep) (List.◌∷◌ part parts)
    → split sep (join (sep ∷ []) (List.◌∷◌ part parts)) ≡ List.◌∷◌ part parts
unfolding join
split-join sep part List.[] h = split_of_Lacks sep part h.0
split-join sep part (List.◌∷◌ next parts) h =
    split-append sep part (join (sep ∷ []) (List.◌∷◌ next parts)) h.0
    ∙ ap (λ l. List.◌∷◌ part l) (split-join sep next parts h.1)
