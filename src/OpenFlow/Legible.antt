-- ===== src/OpenFlow/Legible.antt =====
-- When the flows of controllers/openflow/flows.go can be read back from their text: what the
-- configuration, the nodes and the pods hold is written without spaces, commas and parentheses.
pub mod Cluster
pub mod Nodes
pub mod Narrow
pub mod Pods
pub mod Policies
use Prim.Native.Char.{Char, code}
use Prim.Native.String.{[], ◌∷◌}
use mathlib.Core.List
use k_vswitch.Prelude.{
  ◌≡◌, refl, inl, inr, String, Bool, true, false, none, List, ℤ, pos, All, All-append, arith,
  str_eq, if◌then◌else◌,
}
use k_vswitch.Text.{◌++◌, non_empty, split}
use k_vswitch.Text.Laws.{Lacks, Lacks-append, lacks, Lacks-of_test}
use k_vswitch.Text.Decimal.{format}
use k_vswitch.Text.Decimal.RoundTrip.{FitsInt}
use k_vswitch.Flows.{
  Flow, new_flow, ◌▸◌, with_table, with_priority, with_protocol, with_ip_dest, with_raw,
}
use k_vswitch.Flows.Buffer.Emits.{flat_map}
use k_vswitch.Flows.Reader.{read_flow, read_field}
use k_vswitch.Flows.Reader.Words.{is_argument, argument_on_line}
use k_vswitch.Flows.Reader.Matches.{IsPlain}
use k_vswitch.Flows.Reader.Plain.{IsPlain-head, IsPlain-with_protocol, IsPlain-with_ip_dest}
use k_vswitch.Flows.Reader.Lines.{IsLegible, plain, raw}
use k_vswitch.VSwitchCfg.{VSwitchConfig}
use k_vswitch.OpenFlow.Config.{Config}
use k_vswitch.OpenFlow.Bridge.{arp_responder, arp_block_responder}
use k_vswitch.OpenFlow.Bridge.Flows.{}

abbrev pub IsText : String → Type 0
IsText s = is_argument s ≡ true

pub record IsPlainConfig (c : Config) : Type 0 where
  pub gateway_ip : IsText c.gateway_ip
  pub bridge_mac : IsText c.bridge_mac
  pub cluster_wide_mac : IsText c.cluster_wide_mac
  pub pod_cidr : IsText c.pod_cidr
  pub cluster_cidr : IsText c.cluster_cidr
  pub cluster_wide_ofport : FitsInt c.cluster_wide_ofport
  pub overlay_ofport : FitsInt c.overlay_ofport

abbrev pub IsPlainNode : VSwitchConfig → Type 0
IsPlainNode v = IsText v.spec.pod_cidr × IsText v.spec.overlay_ip

pub All-flat_map {ℓ κ} :
    {X : Type ℓ} (P : X → Type κ) (Q : Flow → Type 0) (f : X → List Flow)
    → ((x : X) → P x → All Q (f x))
    → (xs : List X) → All P xs
    → All Q (flat_map f xs)
All-flat_map P Q f each List.[] h = tt
All-flat_map P Q f each (List.◌∷◌ x xs) h =
    All-append Q (f x) (flat_map f xs) (each x h.0) (All-flat_map P Q f each xs h.1)

-- a flow of a table for a block
pub to_block-IsPlain :
    (table priority : ℤ) (block : String)
    → FitsInt table
    → FitsInt priority
    → IsText block
    → IsPlain (
        new_flow
        ▸ with_table table
        ▸ with_priority priority
        ▸ with_protocol "ip"
        ▸ with_ip_dest block)
to_block-IsPlain table priority block h k t =
    IsPlain-with_ip_dest _ (IsPlain-with_protocol _ (IsPlain-head table priority h k) "ip" refl)
      block t

-- a text before another, and one that tests as a line
around :
    (a s rest : String)
    → lacks "\n" a ≡ true
    → IsText s
    → Lacks "\n" rest
    → Lacks "\n" (a ++ s ++ rest)
around a s rest h k r =
    Lacks-append "\n" a (s ++ rest) (Lacks-of_test "\n" a h)
      (Lacks-append "\n" s rest (argument_on_line s k) r)

pub arp-IsLegible : (ip mac : String) → IsText ip → IsText mac → IsLegible (arp_responder ip mac)
unfolding read_flow read_field split format
arp-IsLegible ip mac h k =
    raw _ refl
      (around "table=100 priority=500 dl_type=0x0806 arp_tpa=" ip _ refl h (
        around " actions=move:NXM_OF_ETH_SRC[]->NXM_OF_ETH_DST[],mod_dl_src:" mac _ refl k (
          around
            ",load:0x2->NXM_OF_ARP_OP[],move:NXM_NX_ARP_SHA[]->NXM_NX_ARP_THA[],move:NXM_OF_ARP_SPA[]->NXM_OF_ARP_TPA[],set_field:"
            mac _ refl k
            (around "->arp_sha,set_field:" ip "->arp_spa,in_port" refl h
              (Lacks-of_test "\n" "->arp_spa,in_port" refl)))))
      refl

pub arp_block-IsLegible :
    (cidr mac : String) → IsText cidr → IsText mac → IsLegible (arp_block_responder cidr mac)
unfolding read_flow read_field split format
arp_block-IsLegible cidr mac h k =
    let last : String =
      "->arp_sha,move:NXM_OF_ARP_TPA[]->NXM_OF_ARP_SPA[],move:NXM_NX_ARP_SHA[]->NXM_NX_ARP_THA[],move:NXM_OF_ARP_SPA[]->NXM_OF_ARP_TPA[],in_port" in
    raw _ refl
      (around "table=100 priority=400 dl_type=0x0806 arp_tpa=" cidr _ refl h (
        around " actions=move:NXM_OF_ETH_SRC[]->NXM_OF_ETH_DST[],mod_dl_src:" mac _ refl k (
          around ",load:0x2->NXM_OF_ARP_OP[],set_field:" mac last refl k
            (Lacks-of_test "\n" last refl))))
      refl
