-- ===== src/Flows/Reader/Actions.antt =====
-- What ovs-ofctl reads from the actions that `Flow.String` of flows/flows.go writes.
use Prim.Native.Char.{Char}
use Prim.Native.String.{[], ◌∷◌}
use mathlib.Core.List
use k_vswitch.Prelude.{
  ℕ, suc, ◌+◌, ◌≡◌, refl, sym, ap, inl, inr, String, Bool, true, false, some, List, ℤ, non_zero,
  if◌then◌else◌, str_eq, eq_iff, arith, All, All-append, Bool-cases,
}
use k_vswitch.Text.{◌++◌, non_empty, trim_suffix, trim_prefix, has_prefix, drop_like}
use k_vswitch.Text.Laws.{Lacks, lacks, Lacks-of_test, Lacks-append}
use k_vswitch.Text.Decimal.{format}
use k_vswitch.Text.Decimal.RoundTrip.{FitsInt, atoi-format}
use k_vswitch.Flows.{
  Flow, add_action, action_set, with_action_tunnel_dest, with_action_mod_dl_dest,
  with_action_output_port, with_action_resubmit,
}
use k_vswitch.Flows.Reader.{number_into, read_set_field, read_action}
use k_vswitch.Flows.Reader.Words.{
  is_argument-append, argument_on_line, argument-IsWord, IsWord, is_argument, argument-Lacks,
  is_argument-format, Acts, Acts-action, IsClosed, argument-IsClosed, resubmit-IsClosed,
}
use k_vswitch.Flows.Reader.Matches.{matched, IsPlain, empty_of, zero_of, str_eq_refl}

-- what the text of an action is read as
abbrev pub IsAction : String → Type 0
IsAction a = IsWord a × IsClosed 0 a

argument-IsAction : (a : String) → is_argument a ≡ true → IsAction a
argument-IsAction a h = (argument-IsWord a h, argument-IsClosed 0 a h)

size : String → ℕ
size [] = 0
size (c ∷ s) = suc (size s)

size-append : (s t : String) → size (s ++ t) ≡ size s + size t
unfolding size
size-append [] t = omega arith
size-append (c ∷ s) t = omega (arith, size-append s t)

longer : (c : Char) (s t : String) → str_eq (c ∷ (s ++ t)) t ≡ false
unfolding size
longer c s t = elim (Bool-cases (str_eq (c ∷ (s ++ t)) t)) [
  | inl e ↦ absurd (omega (arith, ap size ((eq_iff (c ∷ (s ++ t)) t).0 e), size-append s t))
  | inr e ↦ e
]

-- a suffix that is there is taken away
trim_suffix-append :
    (suffix s : String) → non_empty suffix ≡ true → trim_suffix suffix (s ++ suffix) ≡ s
unfolding trim_suffix
trim_suffix-append [] s h = cc
trim_suffix-append (p ∷ ps) [] h = rw (str_eq_refl (p ∷ ps)) refl
trim_suffix-append (p ∷ ps) (c ∷ s) h =
    rw (longer c s (p ∷ ps)) (ap (λ r. c ∷ r) (trim_suffix-append (p ∷ ps) s h))

set_field_is_read :
    (address : String) (f : Flow)
    → read_action ("set_field:" ++ address ++ "->tun_dst") f
      ≡ some (with_action_tunnel_dest address f)
unfolding read_action read_set_field
set_field_is_read address f =
    rw (trim_suffix-append "->tun_dst" address refl, str_eq_refl (address ++ "->tun_dst")) refl

resubmit_is_read :
    (z : ℤ) (f : Flow)
    → FitsInt z
    → read_action ("resubmit(," ++ format z ++ ")") f ≡ some (with_action_resubmit z f)
unfolding read_action trim_prefix has_prefix drop_like
resubmit_is_read z f h =
    rw (trim_suffix-append ")" ("," ++ format z) refl)
      (ap (number_into with_action_resubmit f) (atoi-format z h))

-- a character that stands neither around the number nor in it
resubmit-Lacks :
    (c : Char) (x : String)
    → lacks c "resubmit(," ≡ true
    → lacks c ")" ≡ true
    → Lacks c x
    → Lacks c ("resubmit(," ++ x ++ ")")
resubmit-Lacks c x h h' k =
    Lacks-append c "resubmit(," (x ++ ")") (Lacks-of_test c "resubmit(," h)
      (Lacks-append c x ")" k (Lacks-of_test c ")" h'))

resubmit-IsAction : (z : ℤ) → IsAction ("resubmit(," ++ format z ++ ")")
resubmit-IsAction z =
    let number = is_argument-format z in
    let x = format z in
    (
      (
        resubmit-Lacks " " x refl refl (argument-Lacks x number),
        resubmit-Lacks "\n" x refl refl (argument_on_line x number),
      ),
      resubmit-IsClosed x number,
    )

labelled-IsAction :
    (label v : String) → is_argument label ≡ true → is_argument v ≡ true → IsAction (label ++ v)
labelled-IsAction label v h k = argument-IsAction (label ++ v) (is_argument-append label v h k)

-- the actions written so far are read, and each of them is an action of its own
pub record Done (actions : List String) (first f : Flow) : Type 0 where
  pub acts : Acts actions first f
  pub words : All IsAction actions

add_action-Done :
    (b : Bool) (a : String) (actions : List String) (first f g : Flow)
    → Done actions first f
    → IsAction a
    → (b ≡ true → read_action a f ≡ some g)
    → (b ≡ false → f ≡ g)
    → Done (add_action b a actions) first g
unfolding add_action
add_action-Done b a actions first f g d h written absent = record {
  acts = Acts-action b actions a first f g d.acts written absent;
  words = by_test b;
}
  where
    by_test :
        (b : Bool) → All IsAction (if b then List.◌++◌ actions (List.◌∷◌ a List.[]) else actions)
    by_test true = All-append IsAction actions (List.◌∷◌ a List.[]) d.words (h, tt)
    by_test false = d.words

-- the first two actions, whose arguments are texts
addresses-Done :
    (f : Flow)
    → is_argument f.mod_dl_dest ≡ true
    → is_argument f.tun_dest ≡ true
    → Done
        (add_action
          (non_empty f.tun_dest)
          ("set_field:" ++ f.tun_dest ++ "->tun_dst")
          (add_action (non_empty f.mod_dl_dest) ("mod_dl_dst:" ++ f.mod_dl_dest) List.[]))
        (matched f)
        (with_action_tunnel_dest f.tun_dest (with_action_mod_dl_dest f.mod_dl_dest (matched f)))
unfolding read_action
addresses-Done f mod_dl_dest tun_dest =
    let m : Flow = matched f in
    let f1 : Flow = with_action_mod_dl_dest f.mod_dl_dest m in
    let f2 : Flow = with_action_tunnel_dest f.tun_dest f1 in
    let d0 : Done List.[] m m = record { acts = λ more. refl; words = tt } in
    let d1 =
      add_action-Done (non_empty f.mod_dl_dest) ("mod_dl_dst:" ++ f.mod_dl_dest) List.[] m m f1 d0
        (labelled-IsAction "mod_dl_dst:" f.mod_dl_dest refl mod_dl_dest) (λ e. refl)
        (λ e. ap (λ x. with_action_mod_dl_dest x m) (sym (empty_of f.mod_dl_dest e))) in
    add_action-Done (non_empty f.tun_dest) ("set_field:" ++ f.tun_dest ++ "->tun_dst") _ m f1 f2 d1
      (labelled-IsAction "set_field:" (f.tun_dest ++ "->tun_dst") refl
        (is_argument-append f.tun_dest "->tun_dst" tun_dest refl))
      (λ e. set_field_is_read f.tun_dest f1)
      (λ e. ap (λ x. with_action_tunnel_dest x f1) (sym (empty_of f.tun_dest e)))

pub action_set-Done :
    (f : Flow) → IsPlain f → Done (action_set f) (matched f) (record f { raw = "" })
unfolding action_set read_action
action_set-Done f h =
    let (tun_dest, (mod_dl_dest, none)) = h.texts.1.1.1.1 in
    let (output, (resubmit, none)) = h.numbers.1.1.1.1.1.1 in
    let m : Flow = matched f in
    let f2 : Flow = with_action_tunnel_dest f.tun_dest (with_action_mod_dl_dest f.mod_dl_dest m) in
    let f3 : Flow = with_action_output_port f.output f2 in
    let f4 : Flow = with_action_resubmit f.resubmit f3 in
    let f5 : Flow = record f4 { drop = f.drop } in
    let d3 =
      add_action-Done (non_zero f.output) ("output:" ++ format f.output) _ m f2 f3
        (addresses-Done f mod_dl_dest tun_dest)
        (labelled-IsAction "output:" (format f.output) refl (is_argument-format f.output))
        (λ e. ap (number_into with_action_output_port f2) (atoi-format f.output output))
        (λ e. ap (λ x. with_action_output_port x f2) (sym (zero_of f.output e))) in
    let d4 =
      add_action-Done (non_zero f.resubmit) ("resubmit(," ++ format f.resubmit ++ ")") _ m f3 f4 d3
        (resubmit-IsAction f.resubmit) (λ e. resubmit_is_read f.resubmit f3 resubmit)
        (λ e. ap (λ x. with_action_resubmit x f3) (sym (zero_of f.resubmit e))) in
    let d5 =
      add_action-Done f.drop "drop" _ m f4 f5 d4 (argument-IsAction "drop" refl)
        (λ e. ap (λ b. some (record f4 { drop = b })) (sym e))
        (λ e. ap (λ b. record f4 { drop = b }) (sym e)) in
    add_action-Done f.local "local" _ m f5 (record f { raw = "" }) d5
      (argument-IsAction "local" refl) (λ e. ap (λ b. some (record f5 { local = b })) (sym e))
      (λ e. ap (λ b. record f5 { local = b }) (sym e))
