-- ===== src/Flows/Reader/RoundTrip.antt =====
-- ovs-ofctl reads from the text of a flow that flow, and from the buffer of flows/buffer.go the
-- flows that were added.
use Prim.Native.Char.{Char}
use mathlib.Core.List
use k_vswitch.Prelude.{◌≡◌, refl, sym, ap, ◌∙◌, String, true, some, List, All, ◌>>=◌}
use k_vswitch.Text.{◌++◌, split, join}
use k_vswitch.Text.Laws.{
  Lacks, Lacks-append, split_of_Lacks, Lacks-append, Lacks-join, lacks, Lacks-of_test,
}
use k_vswitch.Flows.{Flow, new_flow, to_string, matches_text, action_set}
use k_vswitch.Flows.Reader.{read_flow, read_actions, read_field, read_words, read_flow}
use k_vswitch.Flows.Reader.Words.{IsWord, IsWord, IsClosed, arguments-join}
use k_vswitch.Flows.Reader.Matches.{IsPlain, matched, matches-Reads}
use k_vswitch.Flows.Reader.Actions.{IsAction, Done, action_set-Done}

All-map_words :
    (P Q : String → Type 0) → ((s : String) → P s → Q s) → (l : List String) → All P l → All Q l
All-map_words P Q k List.[] h = tt
All-map_words P Q k (List.◌∷◌ s l) h = (k s h.0, All-map_words P Q k l h.1)

-- the actions are one word
last-Lacks :
    (c : Char) (actions : List String)
    → lacks c "actions=" ≡ true
    → lacks c "," ≡ true
    → ((a : String) → IsAction a → Lacks c a)
    → All IsAction actions
    → Lacks c ("actions=" ++ join "," actions)
last-Lacks c actions h h' each words =
    Lacks-append c "actions=" (join "," actions) (Lacks-of_test c "actions=" h) (
      Lacks-join c "," actions (Lacks-of_test c "," h')
        (All-map_words IsAction (Lacks c) each actions words))

pub last-IsWord :
    (actions : List String) → All IsAction actions → IsWord ("actions=" ++ join "," actions)
last-IsWord actions words = (
  last-Lacks " " actions refl refl (λ a k. k.0.0) words,
  last-Lacks "\n" actions refl refl (λ a k. k.0.1) words,
)

-- it is read as the actions
last_word :
    (actions : List String) (f g : Flow)
    → Done actions f g
    → read_words (split " " ("actions=" ++ join "," actions)) f ≡ some g
unfolding read_field
last_word actions f g d =
    ap (λ l. read_words l f)
      (split_of_Lacks " " ("actions=" ++ join "," actions) (last-IsWord actions d.words).0)
    ∙ ap (λ o. o >>= some)
        (arguments-join actions f (All-map_words IsAction (IsClosed 0) (λ a k. k.1) actions d.words)
          ∙ ap (λ l. read_actions l f) (sym (List.append-nil actions))
          ∙ d.acts List.[])

pub plain_text :
    (f : Flow)
    → f.raw ≡ ""
    → to_string f ≡ matches_text f ++ " " ++ "actions=" ++ join "," (action_set f)
unfolding to_string
plain_text f h = rw h refl

-- For a flow with no raw text: `String` writes a text from which the same flow is read, whatever its
-- fields are, if its protocol is a known one, its texts hold no space, comma or parenthesis, and its
-- numbers are integers of 64 bits.
pub read_flow-to_string : (f : Flow) → IsPlain f → read_flow (to_string f) ≡ some f
unfolding read_flow
read_flow-to_string f h =
    ap (λ t. read_words (split " " t) new_flow) (plain_text f h.not_raw)
    ∙ (matches-Reads f h).at ("actions=" ++ join "," (action_set f))
    ∙ last_word (action_set f) (matched f) (record f { raw = "" }) (action_set-Done f h)
    ∙ ap (λ s. some (record f { raw = s })) (sym h.not_raw)
