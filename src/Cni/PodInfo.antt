-- ===== src/Cni/PodInfo.antt =====
-- What `getPodInfo` reads back of the arguments that the kubelet writes.
use Prim.Native.String.{[], ◌∷◌}
use mathlib.Core.List.{Memᴰ}
use mathlib.Core.Path.{subst}
use k_vswitch.Bools.{true_not_false}
use k_vswitch.Prelude.{
  ◌≡◌, refl, sym, ap, ◌∙◌, ◌⊎◌, inl, inr, String, true, false, List, All, arith,
}
use k_vswitch.Text.{◌++◌, has_prefix, contains, trim_prefix, drop_like, split, join}
use k_vswitch.Text.Laws.{Lacks, split-join}
use k_vswitch.Result.{ok}
use k_vswitch.Cni.{pod_info_from, get_pod_info}

-- A text with no K does not hold a word that begins with one.
contains_of_Lacks : (w s : String) → Lacks "K" s → contains ("K" ∷ w) s ≡ false
unfolding contains has_prefix
contains_of_Lacks w [] h = refl
contains_of_Lacks w (c ∷ s) h = ground (arith, contains_of_Lacks w s h.1)

-- an argument of CNI_ARGS: the namespace, the name, or one that holds neither of the two words
pub data Says (namespace name arg : String) : Type 0 where
  says_namespace : arg ≡ "K8S_POD_NAMESPACE=" ++ namespace → Says namespace name arg
  says_name : arg ≡ "K8S_POD_NAME=" ++ name → Says namespace name arg
  says_other :
      contains "K8S_POD_NAMESPACE" arg ≡ false
      → contains "K8S_POD_NAME" arg ≡ false
      → Says namespace name arg

abbrev namespace_arg : String → String
namespace_arg namespace = "K8S_POD_NAMESPACE=" ++ namespace

abbrev name_arg : String → String
name_arg name = "K8S_POD_NAME=" ++ name

namespace_arg-contains :
    (namespace : String) → contains "K8S_POD_NAMESPACE" (namespace_arg namespace) ≡ true
unfolding contains has_prefix
namespace_arg-contains namespace = refl

namespace_arg-trim :
    (namespace : String) → trim_prefix "K8S_POD_NAMESPACE=" (namespace_arg namespace) ≡ namespace
unfolding trim_prefix has_prefix drop_like
namespace_arg-trim namespace = refl

name_arg-contains : (name : String) → contains "K8S_POD_NAME" (name_arg name) ≡ true
unfolding contains has_prefix
name_arg-contains name = refl

name_arg-trim : (name : String) → trim_prefix "K8S_POD_NAME=" (name_arg name) ≡ name
unfolding trim_prefix has_prefix drop_like
name_arg-trim name = refl

name_arg-Lacks :
    (name : String) → Lacks "K" name → contains "K8S_POD_NAMESPACE" (name_arg name) ≡ false
unfolding contains has_prefix
name_arg-Lacks name h = contains_of_Lacks "8S_POD_NAMESPACE" name h

-- a value is found, or an argument is still to say it
abbrev Pending : String → String → String → List String → Type 0
Pending found wanted arg args = (found ≡ wanted) ⊎ Memᴰ arg args

-- an argument on which a test answers otherwise is not the one that is waited for
not_here :
    (word found wanted says arg : String) (args : List String)
    → contains word says ≡ true
    → contains word arg ≡ false
    → Pending found wanted says (List.◌∷◌ arg args)
    → Pending found wanted says args
not_here word found wanted says arg args h k (inl e) = inl e
not_here word found wanted says arg args h k (inr (Memᴰ.head e)) =
    absurd (true_not_false (sym h ∙ ap (contains word) e ∙ k))
not_here word found wanted says arg args h k (inr (Memᴰ.tail m)) = inr m

module _ (namespace name : String) (no_k : Lacks "K" name) where
  -- the namespace is not said by the argument for the name
  other_arg :
      (found arg : String) (args : List String)
      → arg ≡ namespace_arg namespace
      → Pending found name (name_arg name) (List.◌∷◌ arg args)
      → Pending found name (name_arg name) args
  other_arg found arg args e (inl h) = inl h
  other_arg found arg args e (inr (Memᴰ.head h)) = absurd (
      true_not_false (
        sym (namespace_arg-contains namespace)
        ∙ ap (contains "K8S_POD_NAMESPACE") (sym (h ∙ e))
        ∙ name_arg-Lacks name no_k))
  other_arg found arg args e (inr (Memᴰ.tail m)) = inr m

  pod_info_from_lem :
      (args : List String) (x y : String)
      → All (Says namespace name) args
      → Pending x namespace (namespace_arg namespace) args
      → Pending y name (name_arg name) args
      → pod_info_from args x y ≡ (namespace, name)
  unfolding pod_info_from
  pod_info_from_lem List.[] x y h (inl e) (inl k) = cc
  pod_info_from_lem List.[] x y h (inr m) k = elim m [ ]
  pod_info_from_lem List.[] x y h (inl e) (inr m) = elim m [ ]
  pod_info_from_lem (List.◌∷◌ arg args) x y (says_namespace e, h) p q =
      rw
        (
          ap (contains "K8S_POD_NAMESPACE") e ∙ namespace_arg-contains namespace,
          ap (trim_prefix "K8S_POD_NAMESPACE=") e ∙ namespace_arg-trim namespace,
        )
        (pod_info_from_lem args namespace y h (inl refl) (other_arg y arg args e q))
  pod_info_from_lem (List.◌∷◌ arg args) x y (says_name e, h) p q =
      let not_namespace = ap (contains "K8S_POD_NAMESPACE") e ∙ name_arg-Lacks name no_k in
      rw
        (
          not_namespace,
          ap (contains "K8S_POD_NAME") e ∙ name_arg-contains name,
          ap (trim_prefix "K8S_POD_NAME=") e ∙ name_arg-trim name,
        )
        (pod_info_from_lem args x name h
          (not_here "K8S_POD_NAMESPACE" x namespace (namespace_arg namespace) arg args
            (namespace_arg-contains namespace) not_namespace p)
          (inl refl))
  pod_info_from_lem (List.◌∷◌ arg args) x y (says_other no_namespace no_name, h) p q =
      rw (no_namespace, no_name)
        (pod_info_from_lem args x y h
          (not_here "K8S_POD_NAMESPACE" x namespace (namespace_arg namespace) arg args
            (namespace_arg-contains namespace) no_namespace p)
          (not_here "K8S_POD_NAME" y name (name_arg name) arg args (name_arg-contains name) no_name
            q))

  -- CNI_ARGS is any list of arguments with no semicolons, in any order, joined by semicolons. If one
  -- of them gives the pod's namespace and one its name, and every other one holds neither of the
  -- words K8S_POD_NAMESPACE and K8S_POD_NAME, then the namespace and the name are read back. The
  -- name holds no K, as no name of a Kubernetes object does.
  pub get_pod_info_lem :
      (arg : String) (args : List String)
      → All (Lacks ";") (List.◌∷◌ arg args)
      → All (Says namespace name) (List.◌∷◌ arg args)
      → Memᴰ ("K8S_POD_NAMESPACE=" ++ namespace) (List.◌∷◌ arg args)
      → Memᴰ ("K8S_POD_NAME=" ++ name) (List.◌∷◌ arg args)
      → get_pod_info (join ";" (List.◌∷◌ arg args)) ≡ ok (namespace, name)
  unfolding get_pod_info split
  get_pod_info_lem arg args no_semi says has_namespace has_name =
      by_text (join ";" (List.◌∷◌ arg args)) (split-join ";" arg args no_semi)
    where
      by_text :
          (text : String)
          → split ";" text ≡ List.◌∷◌ arg args
          → get_pod_info text ≡ ok (namespace, name)
      by_text [] e =
          absurd (nothing_said (subst (Memᴰ (namespace_arg namespace)) (sym e) has_namespace))
        where
          nothing_said : Memᴰ (namespace_arg namespace) (List.◌∷◌ [] List.[]) → ⊥
          nothing_said (Memᴰ.head h) = cc
          nothing_said (Memᴰ.tail m) = elim m [ ]
      by_text (c ∷ text) e =
          ap (λ l. ok (pod_info_from l "" "")) e
          ∙ ap ok
              (pod_info_from_lem (List.◌∷◌ arg args) "" "" says (inr has_namespace) (inr has_name))
