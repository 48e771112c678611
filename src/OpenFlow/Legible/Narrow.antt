-- ===== src/OpenFlow/Legible/Narrow.antt =====
-- A flow of a network policy of controllers/openflow/flows.go can be read back, whatever addresses
-- and ports it is narrowed to.
use k_vswitch.Prelude.{◌≡◌, refl, String, true, ℤ, pos, arith}
use k_vswitch.Text.Decimal.RoundTrip.{FitsInt}
use k_vswitch.Flows.{Flow, new_flow, ◌▸◌, with_table, with_priority, with_protocol}
use k_vswitch.Flows.Reader.{is_protocol}
use k_vswitch.Flows.Reader.Matches.{IsPlain}
use k_vswitch.Flows.Reader.Plain.{
  IsPlain-head, IsPlain-with_protocol, IsPlain-with_ip_dest, IsPlain-with_ip_src,
  IsPlain-with_action_resubmit, IsPlain-with_action_drop,
}
use k_vswitch.Flows.Reader.Lines.{IsLegible, plain}
use k_vswitch.OpenFlow.Policy.{
  Direction, ingress, egress, with_pod, with_peer, default_drop, allow, drop_block,
}
use k_vswitch.OpenFlow.Legible.{IsText}

-- what the tests of addresses and ports do to a flow
abbrev pub Narrows : (Flow → Flow) → Type 0
Narrows narrow = (f : Flow) → IsPlain f → IsPlain (narrow f)

pub pod-Narrows : (d : Direction) (ip : String) → IsText ip → Narrows (with_pod d ip)
pod-Narrows ingress ip h f k = IsPlain-with_ip_dest f k ip h
pod-Narrows egress ip h f k = IsPlain-with_ip_src f k ip h

peer-Narrows : (d : Direction) (ip : String) → IsText ip → Narrows (with_peer d ip)
peer-Narrows ingress ip h f k = IsPlain-with_ip_src f k ip h
peer-Narrows egress ip h f k = IsPlain-with_ip_dest f k ip h

-- a flow of table 10 for a protocol
policy_head-IsPlain :
    (priority : ℤ) (p : String)
    → FitsInt priority
    → is_protocol p ≡ true
    → IsPlain (new_flow ▸ with_table (pos 10) ▸ with_priority priority ▸ with_protocol p)
policy_head-IsPlain priority p h k =
    IsPlain-with_protocol _ (IsPlain-head (pos 10) priority (omega arith) h) p k

pub allow-IsLegible :
    (p : String) (narrow : Flow → Flow)
    → is_protocol p ≡ true
    → Narrows narrow
    → IsLegible (allow p narrow)
allow-IsLegible p narrow h k = plain (
    IsPlain-with_action_resubmit _ (k _ (policy_head-IsPlain (pos 1000) p (omega arith) h)) (pos 20)
      (omega arith))

pub default_drop-IsLegible :
    (d : Direction) (ip : String) → IsText ip → IsLegible (default_drop d ip)
default_drop-IsLegible d ip h = plain (
    IsPlain-with_action_drop _
      (pod-Narrows d ip h _ (policy_head-IsPlain (pos 100) "ip" (omega arith) refl)))

-- the addresses of a peer and of a pod
pub pair-Narrows :
    (d : Direction) (peer pod : String)
    → IsText peer
    → IsText pod
    → Narrows (λ f. f ▸ with_peer d peer ▸ with_pod d pod)
pair-Narrows d peer pod h k f l = pod-Narrows d pod k _ (peer-Narrows d peer h f l)

pub drop_block-IsLegible :
    (d : Direction) (cidr ip : String) → IsText cidr → IsText ip → IsLegible (drop_block d cidr ip)
drop_block-IsLegible d cidr ip h k = plain (
    IsPlain-with_action_drop _
      (pair-Narrows d cidr ip h k _ (policy_head-IsPlain (pos 1100) "ip" (omega arith) refl)))
