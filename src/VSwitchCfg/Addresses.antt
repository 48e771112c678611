-- ===== src/VSwitchCfg/Addresses.antt =====
-- `nodeOverlayIP`: the choice among a node's addresses.
use k_vswitch.Prelude.{String, Bool, true, false, ◌≡◌, refl, List, [], ◌∷◌, if◌then◌else◌}
use k_vswitch.Text.{non_empty}
use k_vswitch.Result.{msg, Result, ok, err}
use k_vswitch.VSwitchCfg.{
  AddressType, internal_ip, external_ip, IsOther-address, NodeAddress, Node, last_addresses,
  if_internal, if_external, node_overlay_ip,
}

abbrev pub is_internal : AddressType → Bool
is_internal internal_ip = true
is_internal _ = false

abbrev pub is_external : AddressType → Bool
is_external external_ip = true
is_external _ = false

-- the addresses of one kind, in the order of the list
abbrev pub addresses_of : (AddressType → Bool) → List NodeAddress → List String
addresses_of kind [] = []
addresses_of kind (a ∷ rest) =
    let found = addresses_of kind rest in if kind a.kind then a.address ∷ found else found

-- the last element, or a default
abbrev pub last_or : String → List String → String
last_or d [] = d
last_or d (x ∷ xs) = last_or x xs

last_addresses_lem :
    (addresses : List NodeAddress) (i e : String)
    → last_addresses addresses i e ≡ (
      last_or i (addresses_of is_internal addresses),
      last_or e (addresses_of is_external addresses),
    )
unfolding last_addresses
last_addresses_lem [] i e = refl
last_addresses_lem (a ∷ rest) i e =
    rw (last_addresses_lem rest (if_internal a.kind a.address i) (if_external a.kind a.address e))
      (by_kind a.kind)
  where
    by_kind :
        (k : AddressType)
        → ◌≡◌ {A = String × String}
            (
              last_or (if_internal k a.address i) (addresses_of is_internal rest),
              last_or (if_external k a.address e) (addresses_of is_external rest),
            )
            (
              last_or i (
                  if is_internal k
                  then a.address ∷ addresses_of is_internal rest
                  else addresses_of is_internal rest),
              last_or e (
                  if is_external k
                  then a.address ∷ addresses_of is_external rest
                  else addresses_of is_external rest),
            )
    by_kind internal_ip = refl
    by_kind external_ip = refl
    by_kind IsOther-address = refl

-- what the overlay address is, without the loop
abbrev pub preferred : String → String → Result String
preferred internal external =
    if non_empty internal
    then ok internal
    else if non_empty external
    then ok external
    else err (msg "no valid node IP found for tunnel overlay")

-- The overlay address is the node's last internal address; where that is missing or empty, its
-- last external address; where that is missing or empty too, an error. The order in which internal
-- and external addresses alternate does not matter.
pub node_overlay_ip_lem :
    (n : Node)
    → node_overlay_ip n
      ≡ preferred
          (last_or "" (addresses_of is_internal n.addresses))
          (last_or "" (addresses_of is_external n.addresses))
unfolding node_overlay_ip
node_overlay_ip_lem n = rw (last_addresses_lem n.addresses "" "")
