-- ===== src/Daemon/Rules.antt =====
-- The rules of `setupBridgeForwarding`: what is left of them when the daemon starts again, and which
-- packets they masquerade.
use k_vswitch.Prelude.{
  ◌≡◌, refl, ap, sym, ◌∙◌, inl, inr, Bool-cases, String, Bool, true, false, ◌&&◌, ◌||◌, not, List,
  [], ◌∷◌, ◌++◌, any, All, arith, str_eq, eq_iff, if◌then◌else◌,
}
use k_vswitch.Text.{non_empty}
use k_vswitch.Result.{ok}
use k_vswitch.Trace.{Trace}
use k_vswitch.Trace.Plan.{Follows-done}
use k_vswitch.Daemon.{setup_bridge_forwarding}
use k_vswitch.Daemon.Outside.{
  Call, append_unique, Host, bridge_name, accept_out, accept_in, masquerade_pods,
  masquerade_outside, cluster_comment, service_comment,
}
use k_vswitch.Daemon.Setup.{forwarding-Follows}

abbrev pub Rule : Type 0
Rule = List String

abbrev pub rule_eq : Rule → Rule → Bool
rule_eq [] [] = true
rule_eq (v ∷ vs) (w ∷ ws) = str_eq v w && rule_eq vs ws
rule_eq _ _ = false

abbrev pub has_rule : Rule → List Rule → Bool
has_rule r = any (λ q. rule_eq r q)

-- AppendUnique: a rule that the chain has is not added again.
abbrev pub add_unique : Rule → List Rule → List Rule
add_unique r rules = if has_rule r rules then rules else rules ++ (r ∷ [])

abbrev pub add_call : (table chain : String) → Call → List Rule → List Rule
add_call table chain (append_unique t c r) rules =
    if str_eq t table && str_eq c chain then add_unique r rules else rules
add_call table chain _ rules = rules

-- the rules of a chain after the calls of a trace, on a chain that was empty
abbrev pub rules_in : (table chain : String) → Trace Call → List Rule
rules_in table chain [] = []
rules_in table chain ((c, true) ∷ t) = add_call table chain c (rules_in table chain t)
rules_in table chain ((c, false) ∷ t) = rules_in table chain t

rule_eq_self : (r : Rule) → rule_eq r r ≡ true
rule_eq_self [] = refl
rule_eq_self (w ∷ ws) = ground (arith, rule_eq_self ws, eq_iff w w)

has_rule-append :
    (r q : Rule) (rules : List Rule)
    → has_rule r rules ≡ true
    → has_rule r (rules ++ (q ∷ [])) ≡ true
has_rule-append r q [] h = cc
has_rule-append r q (x ∷ rules) h = elim (Bool-cases (rule_eq r x)) [
  | inl e ↦ rw e refl
  | inr e ↦ rw e (has_rule-append r q rules (rw e at h))
]

has_rule_last : (r : Rule) (rules : List Rule) → has_rule r (rules ++ (r ∷ [])) ≡ true
has_rule_last r [] = rw (rule_eq_self r) refl
has_rule_last r (x ∷ rules) = elim (Bool-cases (rule_eq r x)) [
  | inl e ↦ rw e refl
  | inr e ↦ rw e (has_rule_last r rules)
]

has_rule-add_unique : (r : Rule) (rules : List Rule) → has_rule r (add_unique r rules) ≡ true
has_rule-add_unique r rules = elim (Bool-cases (has_rule r rules)) [
  | inl e ↦ rw (e, e) refl
  | inr e ↦ rw e (has_rule_last r rules)
]

has_rule-keeps :
    (r q : Rule) (rules : List Rule)
    → has_rule r rules ≡ true
    → has_rule r (add_unique q rules) ≡ true
has_rule-keeps r q rules h = elim (Bool-cases (has_rule q rules)) [
  | inl e ↦ rw e h
  | inr e ↦ rw e (has_rule-append r q rules h)
]

add_unique_known :
    (r : Rule) (rules : List Rule) → has_rule r rules ≡ true → add_unique r rules ≡ rules
add_unique_known r rules h = rw h refl

-- rules added one after the other
abbrev pub add_all : List Rule → List Rule → List Rule
add_all [] rules = rules
add_all (r ∷ rs) rules = add_all rs (add_unique r rules)

has_rule-add_all :
    (r : Rule) (rs rules : List Rule)
    → has_rule r rules ≡ true
    → has_rule r (add_all rs rules) ≡ true
has_rule-add_all r [] rules h = h
has_rule-add_all r (q ∷ rs) rules h =
    has_rule-add_all r rs (add_unique q rules) (has_rule-keeps r q rules h)

add_all-All : (rs rules : List Rule) → All (λ r. has_rule r (add_all rs rules) ≡ true) rs
add_all-All [] rules = tt
add_all-All (r ∷ rs) rules = (
  has_rule-add_all r rs (add_unique r rules) (has_rule-add_unique r rules),
  add_all-All rs (add_unique r rules),
)

add_all_known :
    (rs rules : List Rule) → All (λ r. has_rule r rules ≡ true) rs → add_all rs rules ≡ rules
add_all_known [] rules h = refl
add_all_known (r ∷ rs) rules (h, rest) =
    ap (add_all rs) (add_unique_known r rules h) ∙ add_all_known rs rules rest

add_all_twice : (rs rules : List Rule) → add_all rs (add_all rs rules) ≡ add_all rs rules
add_all_twice rs rules = add_all_known rs (add_all rs rules) (add_all-All rs rules)

abbrev pub forward_rules : List Rule
forward_rules = accept_out ∷ accept_in ∷ []

abbrev pub nat_rules : (pod_cidr cluster_cidr service_cidr : String) → List Rule
nat_rules pod_cidr cluster_cidr service_cidr =
    masquerade_pods pod_cidr
    ∷ masquerade_outside cluster_cidr cluster_comment
    ∷ masquerade_outside service_cidr service_comment
    ∷ []

-- Where it succeeds, setting up the forwarding adds the rules that the two chains lack, in their
-- order; where it succeeds again, both chains stay as they are.
pub forwarding_twice :
    (host : Host) (pod_cidr cluster_cidr service_cidr : String) (t t' t'' : Trace Call)
    → setup_bridge_forwarding host pod_cidr cluster_cidr service_cidr t ≡ (ok tt, t')
    → setup_bridge_forwarding host pod_cidr cluster_cidr service_cidr t' ≡ (ok tt, t'')
    → (rules_in "filter" "FORWARD" t' ≡ add_all forward_rules (rules_in "filter" "FORWARD" t))
      × (rules_in "nat" "POSTROUTING" t'
          ≡ add_all (nat_rules pod_cidr cluster_cidr service_cidr) (rules_in "nat" "POSTROUTING" t))
      × (rules_in "filter" "FORWARD" t'' ≡ rules_in "filter" "FORWARD" t')
      × (rules_in "nat" "POSTROUTING" t'' ≡ rules_in "nat" "POSTROUTING" t')
forwarding_twice host pod_cidr cluster_cidr service_cidr t t' t'' first second =
    let follows = forwarding-Follows host pod_cidr cluster_cidr service_cidr in
    let first_done = Follows-done t t' tt follows first in
    let second_done = Follows-done t' t'' tt follows second in
    let forward = ap (rules_in "filter" "FORWARD") first_done in
    let nat = ap (rules_in "nat" "POSTROUTING") first_done in
    (
      forward,
      nat,
      ap (rules_in "filter" "FORWARD") second_done
          ∙ ap (add_all forward_rules) forward
          ∙ add_all_twice forward_rules (rules_in "filter" "FORWARD" t)
          ∙ sym forward,
      ap (rules_in "nat" "POSTROUTING") second_done
          ∙ ap (add_all (nat_rules pod_cidr cluster_cidr service_cidr)) nat
          ∙ add_all_twice (nat_rules pod_cidr cluster_cidr service_cidr)
              (rules_in "nat" "POSTROUTING" t)
          ∙ sym nat,
    )

-- a packet that leaves the host
pub record Leaving (A : Type 0) : Type 0 where
  pub src : A
  pub dst : A
  pub out : String
  pub dst_is_local : Bool

in_one_test :
    (a b c d e : Bool)
    → (a && (b && true) || (c && (e && true) || (d && (e && true) || false)))
      ≡ (a && b || e && (c || d))
in_one_test a b c d e = ground arith

module _ {A : Type 0} (covers : String → A → Bool) (p : Leaving A) where
  -- What a rule's words test, for the words that the program writes: this is the documented
  -- behaviour of iptables.
  abbrev pub test : (option value : String) → Bool
  test option value =
      if str_eq option "-s"
      then covers value p.src
      else if str_eq option "-d"
      then covers value p.dst
      else if str_eq option "-o"
      then str_eq value p.out
      else if str_eq option "--dst-type"
      then p.dst_is_local
      else true

  abbrev pub negate_if : Bool → Bool → Bool
  negate_if negated b = if negated then not b else b

  -- the words of a rule, with the option that waits for its value
  abbrev pub meets : (negated : Bool) (option : String) → Rule → Bool
  meets negated option [] = true
  meets negated option (w ∷ ws) =
      let waits = non_empty option in
      let is_negation = str_eq w "!" in
      (if waits then negate_if negated (test option w) else true)
      && meets (if waits then false else if is_negation then true else negated)
          (if waits then "" else if is_negation then option else w) ws

  -- Every rule of the chain has the target MASQUERADE, so that any that matches masquerades.
  abbrev pub masquerades : List Rule → Bool
  masquerades = any (meets false "")

  -- The rules masquerade exactly the packets that come from the node's pods and do not go to the
  -- bridge, and those to an address that is not the node's own and lies outside the cluster CIDR or
  -- outside the service CIDR.
  pub masquerades-nat_rules :
      (pod_cidr cluster_cidr service_cidr : String)
      → masquerades (nat_rules pod_cidr cluster_cidr service_cidr) ≡ (
          (covers pod_cidr p.src && not (str_eq bridge_name p.out))
          || (not p.dst_is_local
              && (not (covers cluster_cidr p.dst) || not (covers service_cidr p.dst))))
  masquerades-nat_rules pod_cidr cluster_cidr service_cidr =
      in_one_test (covers pod_cidr p.src) (not (str_eq bridge_name p.out))
        (not (covers cluster_cidr p.dst)) (not (covers service_cidr p.dst)) (not p.dst_is_local)
