-- ===== src/Cni/Network.antt =====
-- Addresses and routes of cmd/k-vswitch-cni/plugin.go, and `calcGateways`.
pub mod Gateways
use k_vswitch.Prelude.{
  ℕ, ◌-◌, ◌*◌, ◌/◌, ◌^◌, String, Bool, true, false, ◌&&◌, ◌||◌, not, Option, none, some, List, [],
  ◌∷◌, ◌++◌, any, str_eq, ◌==◌, if◌then◌else◌,
}
use k_vswitch.Result.{msg, Result, ok, err, panic}

pub data Family : Type 0 where
  family_v4 family_v6 : Family

-- net.IP: an address of 32 bits (To4 is not nil), another of 128 bits, or bytes of another length
pub data Ip : Type 0 where
  v4 v6 : ℕ → Ip
  malformed : Ip

abbrev pub ip_eq : Ip → Ip → Bool
ip_eq (v4 m) (v4 n) = m == n
ip_eq (v6 m) (v6 n) = m == n
ip_eq malformed malformed = true
ip_eq _ _ = false

-- net.IPNet, with the number of ones of its mask
pub record Net : Type 0 where
  pub ip : Ip
  pub ones : ℕ

-- ip.Mask
abbrev pub mask_ip : Ip → ℕ → Ip
mask_ip (v4 n) ones = let size = 2 ^ (32 - ones) in v4 (n / size * size)
mask_ip (v6 n) ones = let size = 2 ^ (128 - ones) in v6 (n / size * size)
mask_ip malformed ones = malformed

-- ipn.String() == other.String()
abbrev pub net_eq : Net → Net → Bool
net_eq a b = ip_eq a.ip b.ip && a.ones == b.ones

-- ipn.Contains
abbrev pub net_contains : Net → Ip → Bool
net_contains a ip = ip_eq (mask_ip a.ip a.ones) (mask_ip ip a.ones)

-- current.IPConfig, without the interface, which is always the container's
pub record IpConfig : Type 0 where
  pub version : String
  pub address : Net
  pub gateway : Option Ip

-- types.Route, with the text of its destination
pub record Route : Type 0 where
  pub dst : String
  pub gw : Option Ip

pub record GwInfo : Type 0 where
  pub gws : List Net
  pub family : Option Family
  pub default_route_found : Bool

abbrev pub new_gw_info : GwInfo
new_gw_info = record { gws = []; family = none; default_route_found = false }

-- the fields of `NetConf` that the plugin reads, the DNS settings as a text
pub record NetConf : Type 0 where
  pub name : String
  pub cni_version : String
  pub ipam_type : String
  pub bridge_name : String
  pub is_gw : Bool
  pub is_default_gw : Bool
  pub ip_masq : Bool
  pub hairpin_mode : Bool
  pub promisc_mode : Bool
  pub dns : String

-- what the loop of `calcGateways` changes: the result's addresses and routes, and the two infos
pub record Calc : Type 0 where
  pub gws_v4 : GwInfo
  pub gws_v6 : GwInfo
  pub ips : List IpConfig
  pub routes : List Route

-- defaultNet.String()
abbrev pub default_dst : Family → String
default_dst family_v4 = "0.0.0.0/0"
default_dst family_v6 = "::/0"

abbrev pub is_set {ℓ} : {A : Type ℓ} → Option A → Bool
is_set none = false
is_set (some a) = true

-- route.GW != nil && defaultNet.String() == route.Dst.String()
abbrev pub is_default_route : Family → Route → Bool
is_default_route f r = is_set r.gw && str_eq (default_dst f) r.dst

abbrev pub info_of : Family → Calc → GwInfo
info_of family_v4 c = c.gws_v4
info_of family_v6 c = c.gws_v6

abbrev pub with_info : Family → GwInfo → Calc → Calc
with_info family_v4 info c = record c { gws_v4 = info }
with_info family_v6 info c = record c { gws_v6 = info }

abbrev pub family_of : Ip → Option Family
family_of (v4 m) = some family_v4
family_of (v6 m) = some family_v6
family_of malformed = none

module _ (next_ip : Ip → Ip) (n : NetConf) where
  -- `calcGatewayIP`
  abbrev pub calc_gateway_ip : Net → Ip
  calc_gateway_ip ipn = next_ip (mask_ip ipn.ip ipn.ones)

  -- the gateway where `n.IsGW`, which is never nil
  abbrev pub gateway_ip : IpConfig → Ip
  gateway_ip ipc = elim ipc.gateway [ some gw ↦ gw | none ↦ calc_gateway_ip ipc.address ]

  -- if ipc.Gateway == nil && n.IsGW { ipc.Gateway = calcGatewayIP(&ipc.Address) }
  abbrev pub gateway_for : IpConfig → Option Ip
  gateway_for ipc = if n.is_gw then some (gateway_ip ipc) else ipc.gateway

  -- the routes after the default route of a family was looked for
  abbrev pub with_default_route : Family → Option Ip → GwInfo → List Route → List Route
  with_default_route f gateway info routes =
      if n.is_default_gw && not info.default_route_found
      then (if any (is_default_route f) routes
          then routes
          else routes ++ (record { dst = default_dst f; gw = gateway } ∷ []))
      else routes

  -- the body of the loop, for an address of a family
  unfoldable pub calc_step : Family → IpConfig → Calc → Calc
  calc_step f ipc c =
      let gateway = gateway_for ipc in
      let info = info_of f c in
      with_info f
        (record {
          gws =
              if n.is_gw
              then info.gws ++ (record { ip = gateway_ip ipc; ones = ipc.address.ones } ∷ [])
              else info.gws;
          family = some f;
          default_route_found = info.default_route_found || n.is_default_gw;
        })
        (record c {
          ips = c.ips ++ (record ipc { gateway = gateway } ∷ []);
          routes = with_default_route f gateway info c.routes;
        })

  -- the loop of `calcGateways`
  unfoldable pub calc_from : List IpConfig → Calc → Result Calc
  unfolding calc_step
  calc_from [] c = ok c
  calc_from (ipc ∷ ips) c = elim (family_of ipc.address.ip) [
    | none ↦ err (msg "Unknown IP object")
    | some f ↦ calc_from ips (calc_step f ipc c)
  ]

  unfoldable pub calc_gateways : List IpConfig → List Route → Result Calc
  unfolding calc_from
  calc_gateways ips routes =
      calc_from ips
        (record { gws_v4 = new_gw_info; gws_v6 = new_gw_info; ips = []; routes = routes })
