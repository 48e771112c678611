-- ===== src/OpenFlow/Switch.antt =====
-- What a switch does with the flows of one table, as far as the proofs need it: which packets a
-- flow matches, and that a matching flow of the highest priority decides. This is the documented
-- behaviour of Open vSwitch, stated over the fields of `Flow`; how it reads an address or a block
-- is a parameter.
pub mod Best
use k_vswitch.Prelude.{
  ℕ, suc, ℤ, pos, negsuc, ◌≤◌, ◌≡◌, String, Bool, true, false, ◌&&◌, not, List, [], ◌∷◌, str_eq,
  non_zero, ◌==◌, if◌then◌else◌,
}
use mathlib.Core.List.{Memᴰ}
use k_vswitch.Text.{non_empty}
use k_vswitch.Flows.{Flow}

-- the protocol of an IP packet, with the destination port where it has one
pub data Transport : Type 0 where
  tcp udp : ℤ → Transport
  other_ip : Transport

pub record Packet (A : Type 0) : Type 0 where
  pub src : A
  pub dst : A
  pub transport : Transport

abbrev pub int_eq : ℤ → ℤ → Bool
int_eq (pos m) (pos n) = m == n
int_eq (negsuc m) (negsuc n) = m == n
int_eq _ _ = false

abbrev pub is_tcp : Transport → Bool
is_tcp (tcp port) = true
is_tcp _ = false

abbrev pub is_udp : Transport → Bool
is_udp (udp port) = true
is_udp _ = false

-- a port of 0 is not written, and tests nothing
abbrev pub tcp_port_is : ℤ → Transport → Bool
tcp_port_is wanted (tcp port) = if non_zero wanted then int_eq wanted port else true
tcp_port_is wanted (udp port) = if non_zero wanted then false else true
tcp_port_is wanted other_ip = if non_zero wanted then false else true

abbrev pub udp_port_is : ℤ → Transport → Bool
udp_port_is wanted (udp port) = if non_zero wanted then int_eq wanted port else true
udp_port_is wanted (tcp port) = if non_zero wanted then false else true
udp_port_is wanted other_ip = if non_zero wanted then false else true

-- the protocol words that the program writes; a flow with none is not narrowed to a protocol
abbrev pub protocol_is : String → Transport → Bool
protocol_is word t =
    if str_eq word ""
    then true
    else if str_eq word "ip"
    then true
    else if str_eq word "tcp"
    then is_tcp t
    else if str_eq word "udp"
    then is_udp t
    else false

-- the flows of one table; a raw flow has table 0 in its fields
abbrev pub in_table : ℤ → List Flow → List Flow
in_table t [] = []
in_table t (f ∷ fs) = let rest = in_table t fs in if int_eq f.table t then f ∷ rest else rest

module _ {A : Type 0} (covers : String → A → Bool) where
  -- an address that is not written tests nothing
  abbrev pub selects : String → A → Bool
  selects block a = if non_empty block then covers block a else true

  -- A raw text is not read: the program writes one for ARP packets only.
  abbrev pub matches : Flow → Packet A → Bool
  matches f p =
      not (non_empty f.raw)
      && (protocol_is f.protocol p.transport
          && (selects f.ip_dest p.dst
              && (selects f.ip_src p.src
                  && (tcp_port_is f.tcp_dest_port p.transport
                      && udp_port_is f.udp_dest_port p.transport))))

  -- The flow decides on the packet: it is in the table, it matches, and no flow that matches has a
  -- higher priority. Priorities are not negative.
  pub record Decides (fs : List Flow) (p : Packet A) (f : Flow) : Type 0 where
    pub listed : Memᴰ f fs
    pub matching : matches f p ≡ true
    pub highest :
        (g : Flow)
        → Memᴰ g fs
        → matches g p ≡ true
        → (k n : ℕ) → g.priority ≡ pos k
        → f.priority ≡ pos n
        → k ≤ n

  -- The switch takes a packet from table to table, by the flows that decide there and resubmit it;
  -- the last flow does not. A flow that resubmits to no table has a 0 there.
  pub data Delivers (fs : List Flow) (p : Packet A) : ℤ → Flow → Type 0 where
    stops :
        {t : ℤ} {f : Flow} → Decides (in_table t fs) p f → f.resubmit ≡ pos 0 → Delivers fs p t f
    goes_on :
        {t : ℤ} {f : Flow} (g : Flow) (k : ℕ)
        → Decides (in_table t fs) p g
        → g.resubmit ≡ pos (suc k)
        → Delivers fs p (pos (suc k)) f
        → Delivers fs p t f
