-- ===== src/OpenFlow/Kube.antt =====
-- The objects of Kubernetes that the controller reads, with the fields that it looks at.
use k_vswitch.Prelude.{ℤ, String, Option, List}
use k_vswitch.Result.{Error}

pub record Pod : Type 0 where
  pub namespace : String
  pub name : String
  pub pod_ip : String

pub record Namespace : Type 0 where
  pub name : String

-- labels.Set
abbrev pub Labels : Type 0
Labels = List (String × String)

-- labels.Everything(), and labels.Set.AsSelector()
pub data Selector : Type 0 where
  everything : Selector
  from_set : Labels → Selector

-- intstr.IntOrString
pub data IntOrString : Type 0 where
  int : ℤ → IntOrString
  str : String → IntOrString

-- Pointer fields are options: `none` is nil.
pub record PolicyPort : Type 0 where
  pub protocol : Option String
  pub port : Option IntOrString

pub record IpBlock : Type 0 where
  pub cidr : String
  pub except : List String

-- netv1.NetworkPolicyPeer, with the match labels of its selectors
pub record Peer : Type 0 where
  pub ip_block : Option IpBlock
  pub pod_selector : Option Labels
  pub namespace_selector : Option Labels

-- an ingress rule with its `From`, or an egress rule with its `To`
pub record PolicyRule : Type 0 where
  pub ports : List PolicyPort
  pub peers : List Peer

pub record NetworkPolicy : Type 0 where
  pub namespace : String
  pub name : String
  pub pod_selector : Labels
  pub ingress : List PolicyRule
  pub egress : List PolicyRule

-- the answer of a lister
pub data Listing (A : Type 0) : Type 0 where
  listed : List A → Listing A
  failed : Error → Listing A
