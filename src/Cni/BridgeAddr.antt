-- ===== src/Cni/BridgeAddr.antt =====
-- `ensureBridgeAddr` of cmd/k-vswitch-cni/plugin.go: the address of the gateway on the bridge.
pub mod Addresses
pub mod Laws
use k_vswitch.Prelude.{String, Bool, true, false, ◌||◌, List, [], ◌∷◌, if◌then◌else◌}
use k_vswitch.Result.{msg, Result, ok, err, panic, is_not_found, context}
use k_vswitch.Exec.{Exec, ◌>>=◌, ◌>>◌, lift, skip, annotated}
use k_vswitch.Trace.{attempt}
use k_vswitch.Cni.Network.{Family, family_v4, family_v6, Net, net_eq, net_contains}
use k_vswitch.Cni.Host.{
  Call, addr_list, addr_add, addr_del, link_set_hardware_addr, Interface, Host, C, perform,
}

abbrev pub is_v4 : Family → Bool
is_v4 family_v4 = true
is_v4 family_v6 = false

-- family == netlink.FAMILY_V4 || a.IPNet.Contains(ipn.IP) || ipn.Contains(a.IPNet.IP)
abbrev pub conflicts : Family → Net → Net → Bool
conflicts family ipn a = is_v4 family || net_contains a ipn.ip || net_contains ipn a.ip

-- if err != nil && err != syscall.ENOENT { return ... }
abbrev pub listed : Result (List Net) → Result (List Net)
listed (ok addrs) = ok addrs
listed (err e) =
    if is_not_found e then ok [] else context "could not get list of IP addresses" (err e)
listed panic = panic

module _ (host : Host) (br : Interface) where
  unfoldable pub delete_bridge_addr : Net → C (Unit {0})
  delete_bridge_addr ipn =
      annotated "could not remove IP address" (perform host (addr_del br.name ipn))

  -- the end of `ensureBridgeAddr`, where no address of the bridge is the wanted one
  unfoldable pub add_bridge_addr : Net → C (Unit {0})
  add_bridge_addr ipn = do
    annotated "could not add IP address" (perform host (addr_add br.name ipn))
    annotated "could not set bridge's mac" (perform host (link_set_hardware_addr br.name br.mac))

  -- the loop of `ensureBridgeAddr` over the addresses, and what follows it
  unfoldable pub ensure_from : Family → Net → (force_address : Bool) → List Net → C (Unit {0})
  unfolding delete_bridge_addr add_bridge_addr
  ensure_from family ipn force_address [] = add_bridge_addr ipn
  ensure_from family ipn force_address (a ∷ addrs) =
      let rest = ensure_from family ipn force_address addrs in
      if net_eq a ipn
      then skip
      else if conflicts family ipn a
      then (if force_address
          then delete_bridge_addr a >> rest
          else lift (err (msg "bridge already has a different IP address")))
      else rest

  unfoldable pub ensure_bridge_addr : Family → Net → (force_address : Bool) → C (Unit {0})
  unfolding ensure_from
  ensure_bridge_addr family ipn force_address = do
    raw ← attempt (addr_list br.name family) (host.addrs br.name family)
    addrs ← lift (listed raw)
    ensure_from family ipn force_address addrs
