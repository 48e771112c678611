-- ===== src/OpenFlow/Start/Gateway.antt =====
-- The gateway's address: `NewController` (controllers/openflow/controller.go) writes flows for it, and
-- the daemon (cmd/k-vswitchd/main.go) puts it on the bridge.
use k_vswitch.Prelude.{
  ℕ, zero, suc, ◌+◌, ◌*◌, ◌/◌, ◌^◌, ◌-◌, ◌<◌, ◌≤◌, ◌≡◌, refl, ap, sym, ◌∙◌, String, true, arith,
}
use mathlib.Core.Path.{subst}
use native.Mathlib.Nat.{
  add-zero, add-suc, mul-one, mul_assoc, suc-mul, pow-suc, pow-le-pow_right, lt_of_mul-lt-mul_right,
  mul-le-mul_right, div-mul-le_self,
}
use k_vswitch.Net.{IpNet, block_size, mask, parse_ip, ip_string, parse_cidr}
use k_vswitch.Net.Laws.{parse_ip-ip_string}
use k_vswitch.Net.Parsed.{IsBlock, parse_cidr-IsBlock}
use k_vswitch.Result.{Result, ok, err, panic, ◌>>=◌}
use k_vswitch.OpenFlow.Config.{Config}
use k_vswitch.OpenFlow.Ovs.{Ovs, of_port_from_name}
use k_vswitch.OpenFlow.Start.{new_config}
use k_vswitch.OpenFlow.Controller.{is_local_ip}
use k_vswitch.OpenFlow.Controller.Local.{is_local_ip_iff}
use k_vswitch.Daemon.Outside.{netlink_addr_for_local}

-- ip.NextIP adds one to an address that is not the last of all, and whose first byte is not 0.
abbrev pub IsNext : (ℕ → ℕ) → Type 0
IsNext next_ip = (n : ℕ) → 2 ^ 24 ≤ n → n + 1 < 2 ^ 32 → next_ip n ≡ n + 1

pow_add : (m n : ℕ) → 2 ^ (m + n) ≡ 2 ^ m * 2 ^ n
pow_add m zero = ap (λ k. 2 ^ k) (add-zero m) ∙ sym (mul-one (2 ^ m))
pow_add m (suc n) =
    ap (λ k. 2 ^ k) (add-suc m n)
    ∙ pow-suc 2 (m + n)
    ∙ ap (λ k. k * 2) (pow_add m n)
    ∙ mul_assoc (2 ^ m) (2 ^ n) 2
    ∙ ap (λ k. 2 ^ m * k) (sym (pow-suc 2 n))

-- the blocks of one size fill the addresses
blocks_fill : (ones : ℕ) → ones ≤ 32 → 2 ^ ones * block_size ones ≡ 2 ^ 32
blocks_fill ones h = sym (pow_add ones (32 - ones)) ∙ ap (λ k. 2 ^ k) {y = 32} (omega (arith, h))

-- a block with a host bit has two addresses at least
block_has_two : (ones : ℕ) → ones < 32 → 2 ≤ block_size ones
block_has_two ones h =
    pow-le-pow_right {n = 2} (omega arith) {i = 1} {j = 32 - ones} (omega (arith, h))

-- A block of addresses of 32 bits ends at 2 ^ 32 or before.
block_ends : (n ones : ℕ) → n < 2 ^ 32 → ones ≤ 32 → mask n ones + block_size ones ≤ 2 ^ 32
block_ends n ones h bits =
    let b = block_size ones in
    let below : n / b * b < 2 ^ ones * b =
      subst (λ k. n / b * b < k) (sym (blocks_fill ones bits))
        (omega (arith, h, div-mul-le_self n b)) in
    let before : n / b < 2 ^ ones = lt_of_mul-lt-mul_right b below in
    let whole : suc (n / b) * b ≤ 2 ^ ones * b = mul-le-mul_right b before in
    let counted = suc-mul (n / b) b in
    let filled = blocks_fill ones bits in omega (arith, whole, counted, filled)

ok_value : {A : Type 0} {a b : A} → ok a ≡ ok b → a ≡ b
ok_value h = cc

>>=-any :
    {A B : Type 0} (Q : B → Type 0) (m : Result A) (f : A → Result B)
    → ((a : A) → m ≡ ok a → (b : B) → f a ≡ ok b → Q b)
    → (b : B) → (m >>= f) ≡ ok b
    → Q b
>>=-any Q (ok a) f each b h = each a refl b h
>>=-any Q (err e) f each b h = cc
>>=-any Q panic f each b h = cc

second_fits : {net : IpNet} → IsBlock net → net.ones < 32 → net.ip + 1 < 2 ^ 32
second_fits {net} block h =
    let two = block_has_two net.ones h in
    let ends = block_ends block.address net.ones block.bounded block.bits in
    let first = block.masked in omega (arith, two, ends, first)

gateway_is_local :
    (c : Config) (net : IpNet)
    → parse_cidr c.pod_cidr ≡ ok net
    → IsBlock net
    → net.ones < 32
    → c.gateway_ip ≡ ip_string (net.ip + 1)
    → is_local_ip c c.gateway_ip ≡ ok true
gateway_is_local c net is_net block h gateway =
    let two = block_has_two net.ones h in
    let first = block.masked in
    let same : net ≡ record { ip = mask block.address net.ones; ones = net.ones } =
      ap (λ m. record { ip = m; ones = net.ones }) first in
    (is_local_ip_iff c c.gateway_ip block.address net.ones (net.ip + 1) (is_net ∙ ap ok same)
        (ap parse_ip gateway ∙ parse_ip-ip_string (net.ip + 1) (second_fits block h))).1
      (omega (arith, first), omega (arith, first, two))

module _ (next_ip : ℕ → ℕ) (ovs : Ovs)
    (bridge_name bridge_mac cluster_wide_mac node_name pod_cidr cluster_cidr : String) (net : IpNet)
    (is_net : parse_cidr pod_cidr ≡ ok net) where
  -- the two fields that the block decides
  Fields : Config → Type 0
  Fields c = (c.gateway_ip ≡ ip_string (next_ip net.ip)) × (c.pod_cidr ≡ pod_cidr)

  new_config-Fields :
      (c : Config)
      → new_config next_ip ovs bridge_name bridge_mac cluster_wide_mac node_name pod_cidr
          cluster_cidr
        ≡ ok c
      → Fields c
  unfolding new_config Fields
  new_config-Fields = >>=-any Fields (parse_cidr pod_cidr) _ (λ n hn.
      >>=-any Fields (of_port_from_name ovs "cluster-wide") _ (λ p hp.
        >>=-any Fields (of_port_from_name ovs "overlay0") _ (λ q hq c h.
          let same : net ≡ n = ok_value (sym is_net ∙ hn) in
          (
            ap (λ (d : Config). d.gateway_ip) (sym (ok_value h))
                ∙ ap (λ (m : IpNet). ip_string (next_ip m.ip)) (sym same),
            ap (λ (d : Config). d.pod_cidr) (sym (ok_value h)),
          ))))

  -- Where the controller starts, ip.NextIP adds one, and the node's block has more than one address
  -- and does not begin with a byte 0: the gateway is the second address of the block, the daemon
  -- gives the bridge this address with the mask of the block, and `isLocalIP` finds it local.
  pub new_config-gateway :
      (c : Config)
      → IsNext next_ip
      → new_config next_ip ovs bridge_name bridge_mac cluster_wide_mac node_name pod_cidr
          cluster_cidr
        ≡ ok c
      → 2 ^ 24 ≤ net.ip
      → net.ones < 32
      → (c.gateway_ip ≡ ip_string (net.ip + 1))
        × (netlink_addr_for_local next_ip pod_cidr
            ≡ ok (record { ip = net.ip + 1; ones = net.ones }))
        × (is_local_ip c c.gateway_ip ≡ ok true)
  unfolding Fields netlink_addr_for_local
  new_config-gateway c is_next starts high host_bits =
      let fields = new_config-Fields c starts in
      let block = parse_cidr-IsBlock pod_cidr net is_net in
      let next : next_ip net.ip ≡ net.ip + 1 = is_next net.ip high (second_fits block host_bits) in
      let gateway : c.gateway_ip ≡ ip_string (net.ip + 1) = fields.0 ∙ ap ip_string next in
      (
        gateway,
        bridge_addr next,
        gateway_is_local c net (ap parse_cidr fields.1 ∙ is_net) block host_bits gateway,
      )
    where
      bridge_addr :
          next_ip net.ip ≡ net.ip + 1
          → netlink_addr_for_local next_ip pod_cidr
            ≡ ok (record { ip = net.ip + 1; ones = net.ones })
      bridge_addr next = rw (netlink_addr_for_local, is_net, next) refl
