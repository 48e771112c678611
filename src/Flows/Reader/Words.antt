-- ===== src/Flows/Reader/Words.antt =====
-- The words of a flow's text, and the actions of a list, are read one by one.
use Prim.Native.Char.{Char, code}
use Prim.Native.String.{[], ◌∷◌}
use mathlib.Core.List
use mathlib.Core.Path.{subst}
use k_vswitch.Prelude.{
  ℕ, suc, not, ◌<◌, ◌≡◌, refl, sym, ap, ◌∙◌, String, Bool, true, false, ◌&&◌, ◌||◌, some, List, ℤ,
  pos, negsuc, ◌==◌, if◌then◌else◌, arith, All,
}
use k_vswitch.Bools.{and_both}
use k_vswitch.Text.{◌++◌, split, grow, join}
use k_vswitch.Text.Laws.{append_assoc, append-nil, Lacks, Lacks-append, split-append}
use k_vswitch.Text.Decimal.{format}
use k_vswitch.Text.Decimal.RoundTrip.{format_nat-Lacks}
use k_vswitch.Flows.{Flow, new_flow}
use k_vswitch.Flows.Reader.{
  key_of, value_of, read_action, read_actions, arguments, read_field, read_words,
}

-- the characters that end a word, or an argument
abbrev pub ends_argument : Char → Bool
ends_argument c = let n = code c in n == b' ' || n == b'\n' || n == b',' || n == b'(' || n == b')'

abbrev pub is_argument : String → Bool
is_argument [] = true
is_argument (c ∷ s) = not (ends_argument c) && is_argument s

pub is_argument-append :
    (s t : String) → is_argument s ≡ true → is_argument t ≡ true → is_argument (s ++ t) ≡ true
is_argument-append [] t h k = k
is_argument-append (c ∷ s) t h k =
    let (visible, more) = and_both (not (ends_argument c)) (is_argument s) h in
    rw (visible, is_argument-append s t more k)

pub argument-Lacks : (s : String) → is_argument s ≡ true → Lacks " " s
argument-Lacks [] h = tt
argument-Lacks (c ∷ s) h =
    let (visible, more) = and_both (not (ends_argument c)) (is_argument s) h in
    (ground (arith, visible), argument-Lacks s more)

pub argument_on_line : (s : String) → is_argument s ≡ true → Lacks "\n" s
argument_on_line [] h = tt
argument_on_line (c ∷ s) h =
    let (visible, more) = and_both (not (ends_argument c)) (is_argument s) h in
    (ground (arith, visible), argument_on_line s more)

-- no decimal text holds a character below the digits, but for its sign
pub format-Lacks :
    (c : Char) → code c < 48 → ((45 == code c) ≡ false) → (z : ℤ) → Lacks c (format z)
unfolding format
format-Lacks c below other (pos n) = format_nat-Lacks c n below
format-Lacks c below other (negsuc n) = (other, format_nat-Lacks c (suc n) below)

-- a text on one line, in one word
abbrev pub IsWord : String → Type 0
IsWord s = Lacks " " s × Lacks "\n" s

pub argument-IsWord : (s : String) → is_argument s ≡ true → IsWord s
argument-IsWord s h = (argument-Lacks s h, argument_on_line s h)

argument_of_Lacks :
    (s : String)
    → Lacks " " s
    → Lacks "\n" s
    → Lacks "," s
    → Lacks "(" s
    → Lacks ")" s
    → is_argument s ≡ true
argument_of_Lacks [] h l i j k = refl
argument_of_Lacks (c ∷ s) h l i j k =
    rw (h.0, l.0, i.0, j.0, k.0) (argument_of_Lacks s h.1 l.1 i.1 j.1 k.1)

pub is_argument-format : (z : ℤ) → is_argument (format z) ≡ true
is_argument-format z =
    argument_of_Lacks (format z) (format-Lacks " " (omega arith) refl z)
      (format-Lacks "\n" (omega arith) refl z) (format-Lacks "," (omega arith) refl z)
      (format-Lacks "(" (omega arith) refl z) (format-Lacks ")" (omega arith) refl z)

-- A text before the actions is read as a flow, whatever is written behind it on its line.
pub record Reads (t : String) (f : Flow) : Type 0 where
  pub at :
      (rest : String)
      → read_words (split " " (t ++ " " ++ rest)) new_flow ≡ read_words (split " " rest) f
  pub line : Lacks "\n" t

pub read_word :
    (w rest : String) (f g : Flow)
    → IsWord w
    → read_field (key_of w) (value_of w) f ≡ some g
    → read_words (split " " (w ++ " " ++ rest)) f ≡ read_words (split " " rest) g
read_word w rest f g h e = rw (split-append " " w rest h.0, e) refl

pub Reads-next :
    (t w : String) (f g : Flow)
    → Reads t f
    → IsWord w
    → read_field (key_of w) (value_of w) f ≡ some g
    → Reads (t ++ " " ++ w) g
Reads-next t w f g reads h written = record {
  at = λ rest.
      ap (λ s. read_words (split " " s) new_flow) (append_assoc t (" " ++ w) (" " ++ rest))
      ∙ reads.at (w ++ " " ++ rest)
      ∙ read_word w rest f g h written;
  line = Lacks-append "\n" t (" " ++ w) reads.line (refl, h.1);
}

pub Reads-word :
    (b : Bool) (t w : String) (f g : Flow)
    → Reads t f
    → IsWord w
    → (b ≡ true → read_field (key_of w) (value_of w) f ≡ some g)
    → (b ≡ false → f ≡ g)
    → Reads (if b then t ++ " " ++ w else t) g
Reads-word true t w f g reads h written absent = Reads-next t w f g reads h (written refl)
Reads-word false t w f g reads h written absent = subst (Reads t) (absent refl) reads

-- a list of texts is read as actions, whatever actions follow
abbrev pub Acts : List String → Flow → Flow → Type 0
Acts actions f g =
    (more : List String) → read_actions (List.◌++◌ actions more) f ≡ read_actions more g

pub Acts-action :
    (b : Bool) (actions : List String) (a : String) (first f g : Flow)
    → Acts actions first f
    → (b ≡ true → read_action a f ≡ some g)
    → (b ≡ false → f ≡ g)
    → Acts (if b then List.◌++◌ actions (List.◌∷◌ a List.[]) else actions) first g
Acts-action true actions a first f g acts written absent more =
    ap (λ l. read_actions l first) (List.append_assoc actions (List.◌∷◌ a List.[]) more)
    ∙ acts (List.◌∷◌ a more)
    ∙ rw (written refl) refl
Acts-action false actions a first f g acts written absent more =
    acts more ∙ ap (read_actions more) (absent refl)

-- a text in front of the first of some texts
abbrev pub prepend : String → List String → List String
prepend [] l = l
prepend (c ∷ s) l = grow c (prepend s l)

prepend-nil : (s : String) (l : List String) → prepend s (List.◌∷◌ [] l) ≡ List.◌∷◌ s l
prepend-nil [] l = refl
prepend-nil (c ∷ s) l = ap (grow c) (prepend-nil s l)

prepend-append : (s t : String) (l : List String) → prepend (s ++ t) l ≡ prepend s (prepend t l)
prepend-append [] t l = refl
prepend-append (c ∷ s) t l = ap (grow c) (prepend-append s t l)

-- what stands behind the text is read at the depth that the text was read at
abbrev pub IsClosed : ℕ → String → Type 0
IsClosed depth s = (rest : String) → arguments depth (s ++ rest) ≡ prepend s (arguments depth rest)

pub argument-IsClosed : (depth : ℕ) (s : String) → is_argument s ≡ true → IsClosed depth s
unfolding arguments
argument-IsClosed depth [] h rest = refl
argument-IsClosed depth (c ∷ s) h rest =
    let (visible, more) = and_both (not (ends_argument c)) (is_argument s) h in
    ground (arith, visible, argument-IsClosed depth s more rest)

-- an argument in parentheses
pub resubmit-IsClosed : (x : String) → is_argument x ≡ true → IsClosed 0 ("resubmit(," ++ x ++ ")")
unfolding arguments
resubmit-IsClosed x h rest = ap (prepend "resubmit(,") (
    ap (arguments 1) (append_assoc x ")" rest)
    ∙ argument-IsClosed 1 x h (")" ++ rest)
    ∙ sym (prepend-append x ")" (arguments 0 rest)))

arguments-join_some :
    (a : String) (rest : List String)
    → All (IsClosed 0) (List.◌∷◌ a rest)
    → arguments 0 (join "," (List.◌∷◌ a rest)) ≡ List.◌∷◌ a rest
unfolding arguments join
arguments-join_some a List.[] h =
    ap (arguments 0) (sym (append-nil a)) ∙ h.0 [] ∙ prepend-nil a List.[]
arguments-join_some a (List.◌∷◌ b rest) h =
    h.0 ("," ∷ join "," (List.◌∷◌ b rest))
    ∙ prepend-nil a (arguments 0 (join "," (List.◌∷◌ b rest)))
    ∙ ap (λ l. List.◌∷◌ a l) (arguments-join_some b rest h.1)

pub arguments-join :
    (actions : List String) (f : Flow)
    → All (IsClosed 0) actions
    → read_actions (arguments 0 (join "," actions)) f ≡ read_actions actions f
arguments-join List.[] f h = unfold arguments join read_action in refl
arguments-join (List.◌∷◌ a rest) f h = ap (λ l. read_actions l f) (arguments-join_some a rest h)
