-- ===== src/OpenFlow/Controller/Local.antt =====
-- `isLocalIP` of controllers/openflow/flows.go, by the block of the node, and the addresses that
-- the policies of a node are applied to.
use k_vswitch.Prelude.{
  ℕ, ◌+◌, ◌<◌, ◌≤◌, ◌≡◌, ap, ◌↔◌, String, Bool, true, false, some, List, [], ◌∷◌, All,
  if◌then◌else◌,
}
use k_vswitch.Net.{block_size, mask, parse_ip, parse_cidr}
use k_vswitch.Net.Laws.{contains_iff}
use k_vswitch.Result.{ok}
use k_vswitch.OpenFlow.Config.{Config}
use k_vswitch.OpenFlow.Controller.{is_local_ip, local_pod_ips, is_true}
use k_vswitch.OpenFlow.Kube.{Pod}
use k_vswitch.Text.{non_empty}

-- If the node's block of pods is the IPv4 network of some address, then an IPv4 address is local
-- exactly if it lies in that block: from its first address, for as many addresses as it has host
-- bits.
pub is_local_ip_iff :
    (c : Config) (ip : String) (n ones a : ℕ)
    → parse_cidr c.pod_cidr ≡ ok (record { ip = mask n ones; ones = ones })
    → parse_ip ip ≡ some a
    → (is_local_ip c ip ≡ ok true) ↔ ((mask n ones ≤ a) × (a < mask n ones + block_size ones))
unfolding is_local_ip
is_local_ip_iff c ip n ones a is_net is_address =
    let block = contains_iff n ones a in
    rw (is_local_ip, is_net, is_address) (λ h. block.0 (cc h), λ h. ap ok (block.1 h))

-- What holds of the addresses of pods holds of those of them that are local.
pub local_pod_ips-All :
    (P : String → Type 0) (c : Config) (pods : List Pod)
    → All (λ (pod : Pod). P pod.pod_ip) pods
    → All P (local_pod_ips c pods)
unfolding local_pod_ips
local_pod_ips-All P c [] h = tt
local_pod_ips-All P c (pod ∷ pods) h =
    by_tests (non_empty pod.pod_ip) (is_true (is_local_ip c pod.pod_ip))
      (local_pod_ips-All P c pods h.1)
  where
    by_tests :
        (b local : Bool)
        → All P (local_pod_ips c pods)
        → All P (
            if b
            then (if local then pod.pod_ip ∷ local_pod_ips c pods else local_pod_ips c pods)
            else local_pod_ips c pods)
    by_tests true true rest = (h.0, rest)
    by_tests true false rest = rest
    by_tests false local rest = rest
