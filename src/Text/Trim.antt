-- ===== src/Text/Trim.antt =====
-- Trimming a text that a command prints on a line of its own, in quotes or not.
use Prim.Native.Char.{Char, code}
use Prim.Native.String.{[], ◌∷◌}
use k_vswitch.Prelude.{
  ℕ, ◌≡◌, refl, sym, ap, ◌∙◌, String, false, ◌==◌, ==_iff, Bool-cases, inl, inr, str_eq, eq_iff,
}
use k_vswitch.Bools.{true_not_false}
use k_vswitch.Text.{
  ◌++◌, is_space, trim_left, keep_head, trim_right, trim_space, has_prefix, drop_like, trim_prefix,
  trim_suffix,
}
use k_vswitch.Text.Laws.{append_assoc, Lacks}

-- the text holds no white space
abbrev pub HasNoSpace : String → Type 0
HasNoSpace [] = Unit
HasNoSpace (c ∷ s) = (is_space c ≡ false) × HasNoSpace s

pub HasNoSpace-append : (s t : String) → HasNoSpace s → HasNoSpace t → HasNoSpace (s ++ t)
HasNoSpace-append [] t h k = k
HasNoSpace-append (c ∷ s) t h k = (h.0, HasNoSpace-append s t h.1 k)

keep_head_of_visible : (c : Char) (s : String) → is_space c ≡ false → keep_head c s ≡ c ∷ s
keep_head_of_visible c [] h = rw h refl
keep_head_of_visible c (d ∷ s) h = refl

trim_right-line : (s : String) → HasNoSpace s → trim_right (s ++ "\n") ≡ s
unfolding trim_right
trim_right-line [] h = refl
trim_right-line (c ∷ s) h = ap (keep_head c) (trim_right-line s h.1) ∙ keep_head_of_visible c s h.0

pub trim_space-line : (s : String) → HasNoSpace s → trim_space (s ++ "\n") ≡ s
unfolding trim_space trim_left
trim_space-line [] h = unfold trim_right in refl
trim_space-line (c ∷ s) h = rw h.0 (trim_right-line (c ∷ s) h)

abbrev head_code : String → ℕ
head_code [] = 0
head_code (c ∷ s) = code c

not_quote : (c : Char) (s : String) → (code c == b'"') ≡ false → str_eq (c ∷ s) "\"" ≡ false
not_quote c s h = elim (Bool-cases (str_eq (c ∷ s) "\"")) [
  | inl same ↦
      let quote : code c ≡ 34 = ap head_code ((eq_iff (c ∷ s) "\"").0 same) in
      absurd (true_not_false (sym ((==_iff (code c) 34).1 quote) ∙ h))
  | inr other ↦ other
]

trim_suffix-quote : (s : String) → Lacks "\"" s → trim_suffix "\"" (s ++ "\"") ≡ s
unfolding trim_suffix
trim_suffix-quote [] h = refl
trim_suffix-quote (c ∷ s) h =
    rw (not_quote c (s ++ "\"") h.0) (ap (λ r. c ∷ r) (trim_suffix-quote s h.1))

-- What a command prints in quotes, on a line, is read without them.
pub trim-quoted :
    (s : String)
    → HasNoSpace s
    → Lacks "\"" s
    → trim_suffix "\"" (trim_prefix "\"" (trim_space ("\"" ++ s ++ "\"\n"))) ≡ s
unfolding trim_prefix has_prefix drop_like
trim-quoted s visible h =
    ap (λ t. trim_suffix "\"" (trim_prefix "\"" t))
      (ap trim_space line ∙ trim_space-line ("\"" ++ s ++ "\"") quoted)
    ∙ trim_suffix-quote s h
  where
    line : ("\"" ++ s ++ "\"\n") ≡ (("\"" ++ s ++ "\"") ++ "\n")
    line = ap (λ t. "\"" ++ t) (sym (append_assoc s "\"" "\n"))

    quoted : HasNoSpace ("\"" ++ s ++ "\"")
    quoted = (refl, HasNoSpace-append s "\"" visible (refl, tt))
