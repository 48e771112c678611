-- ===== src/OpenFlow/Policy/Verdict.antt =====
-- The flows of a policy decide on a packet as the policy's rules say.
use k_vswitch.Prelude.{
  ◌≡◌, refl, ◌∙◌, String, Bool, false, ◌&&◌, ◌||◌, Option, none, some, List, [], ◌∷◌, ◌++◌, any,
  is_empty, arith, if◌then◌else◌,
}
use k_vswitch.Flows.{Flow}
use k_vswitch.Flows.Buffer.Emits.{flat_map}
use k_vswitch.OpenFlow.Kube.{Labels, PolicyPort, IpBlock, Peer, PolicyRule, NetworkPolicy}
use k_vswitch.OpenFlow.Policy.{
  Lookup, Direction, with_pod, default_drop, allow_block, drop_block, peer_namespaces, peer_ips,
}
use k_vswitch.OpenFlow.Policy.Flows.{
  ports_list, all_peers_list, block_list, pair_list, namespace_list, namespaces_list, peer_list_of,
  peer_list, rule_list, direction_list,
}
use k_vswitch.OpenFlow.Policy.Permits.{
  pod_end, peer_end, ports_allow, at_pod, selected_peer, peer_allows_by, peer_allows,
  peer_excepts_by, peer_excepts, rule_allows, rule_excepts,
}
use k_vswitch.OpenFlow.Policy.Sorts.{
  any-false, any-and, and-any, Sorts, Sorts-nil, Sorts-append, Sorts-flat_map, Sorts-eq,
}
use k_vswitch.OpenFlow.Policy.Matching.{
  Sorts-drop, Sorts-drop_block, Narrows-pod, Narrows-pair, ports-Sorts,
}
use k_vswitch.OpenFlow.Switch.{Packet, selects}

module _ {A : Type 0} (covers : String → A → Bool) (p : Packet A) (env : Lookup) (d : Direction)
    (ips : List String) where
  abbrev here : Bool
  here = at_pod env covers d ips p

  abbrev from_peer : String → Bool
  from_peer block = selects covers block (peer_end d p)

  abbrev to_pod : String → Bool
  to_pod ip = selects covers ip (pod_end d p)

  -- Flows that match only packets of the pods, and isolate nothing: `a` and `e` say whether a rule
  -- allows, and whether an exception forbids, what a pod sends or gets.
  abbrev AtPod : List Flow → Bool → Bool → Type 0
  AtPod fs a e = Sorts covers p fs false (here && a) (here && e)

  AtPod-eq : {fs : List Flow} (a e b x : Bool) → AtPod fs a e → a ≡ b → e ≡ x → AtPod fs b x
  AtPod-eq a e b x h q r = Sorts-eq covers p h refl (rw q) (rw r)

  AtPod-nil : AtPod [] false false
  AtPod-nil = Sorts-eq covers p (Sorts-nil covers p) refl (ground arith) (ground arith)

  AtPod-append :
      {fs gs : List Flow} (a e b x : Bool)
      → AtPod fs a e
      → AtPod gs b x
      → AtPod (fs ++ gs) (a || b) (e || x)
  AtPod-append a e b x h k =
      Sorts-eq covers p (Sorts-append covers p h k) refl (ground arith) (ground arith)

  AtPod-flat_map {ℓ} :
      {X : Type ℓ} (f : X → List Flow) (a e : X → Bool) (xs : List X)
      → ((x : X) → AtPod (f x) (a x) (e x))
      → AtPod (flat_map f xs) (any a xs) (any e xs)
  AtPod-flat_map f a e xs each =
      Sorts-eq covers p
        (Sorts-flat_map covers p f (λ x. false) (λ x. here && a x) (λ x. here && e x) xs each)
        (any-false xs) (and-any here a xs) (and-any here e xs)

  -- what is emitted for each pod
  for_pods-AtPod :
      (f : String → List Flow) (a e : Bool)
      → ((ip : String) → Sorts covers p (f ip) false (to_pod ip && a) (to_pod ip && e))
      → AtPod (flat_map f ips) a e
  for_pods-AtPod f a e each =
      Sorts-eq covers p
        (Sorts-flat_map covers p f (λ ip. false) (λ ip. to_pod ip && a) (λ ip. to_pod ip && e) ips
          each)
        (any-false ips) (any-and to_pod a ips) (any-and to_pod e ips)

  false-and : (b : Bool) → false ≡ (b && false)
  false-and b = ground arith

  and_swap : (a b : Bool) → (a && b) ≡ (b && a)
  and_swap a b = ground arith

  regroup : (a b c : Bool) → (a && b && c) ≡ (b && c && a)
  regroup a b c = ground arith

  and_assoc : (a b c : Bool) → (a && b && c) ≡ (a && (b && c))
  and_assoc a b c = ground arith

  drops-Sorts : Sorts covers p (flat_map (λ ip. default_drop d ip ∷ []) ips) here false false
  drops-Sorts =
      Sorts-eq covers p
        (Sorts-flat_map covers p (λ ip. default_drop d ip ∷ []) to_pod (λ ip. false) (λ ip. false)
          ips (Sorts-drop covers p d))
        refl (any-false ips) (any-false ips)

  all_peers-AtPod :
      (rule : PolicyRule)
      → AtPod (all_peers_list env d ips rule) (ports_allow env rule.ports p.transport) false
  all_peers-AtPod rule =
      for_pods-AtPod (λ ip. ports_list env rule.ports (with_pod d ip))
        (ports_allow env rule.ports p.transport) false
        (λ ip.
          Sorts-eq covers p (ports-Sorts covers p env (Narrows-pod covers p d ip) rule.ports) refl
            refl (false-and (to_pod ip)))

  block_drops-AtPod :
      (cidr : String)
      → AtPod (flat_map (λ ip. drop_block d cidr ip ∷ []) ips) false (from_peer cidr)
  block_drops-AtPod cidr =
      for_pods-AtPod (λ ip. drop_block d cidr ip ∷ []) false (from_peer cidr)
        (λ ip.
          Sorts-eq covers p (Sorts-drop_block covers p d cidr ip) refl (false-and (to_pod ip)) refl)

  block-AtPod :
      (block : IpBlock)
      → AtPod (block_list env d ips block) (from_peer block.cidr) (any from_peer block.except)
  block-AtPod block =
      AtPod-eq _ _ _ _
        (AtPod-append _ _ _ _
          (for_pods-AtPod (λ ip. allow_block d block.cidr ip ∷ []) (from_peer block.cidr) false
            (λ ip.
              Sorts-eq covers p (Narrows-pair covers p d block.cidr ip).any_ip refl
                (and_swap (from_peer block.cidr) (to_pod ip)) (false-and (to_pod ip))))
          (AtPod-flat_map (λ cidr. flat_map (λ ip. drop_block d cidr ip ∷ []) ips) (λ cidr. false)
            from_peer block.except block_drops-AtPod))
        (rw any-false (ground arith)) refl

  -- the flows for one peer address
  pairs-AtPod :
      (ports : List PolicyPort) (peers : List String)
      → AtPod
          (flat_map (λ ip. flat_map (pair_list env d ports ip) peers) ips)
          (ports_allow env ports p.transport && any from_peer peers)
          false
  pairs-AtPod ports peers =
      for_pods-AtPod (λ ip. flat_map (pair_list env d ports ip) peers)
        (ports_allow env ports p.transport && any from_peer peers) false
        (λ ip.
          Sorts-eq covers p
            (Sorts-flat_map covers p (pair_list env d ports ip) (λ peer. false)
              (λ peer. to_pod ip && ports_allow env ports p.transport && from_peer peer)
              (λ peer. false) peers
              (λ peer.
                Sorts-eq covers p (ports-Sorts covers p env (Narrows-pair covers p d peer ip) ports)
                  refl (regroup (from_peer peer) (to_pod ip) (ports_allow env ports p.transport))
                  refl))
            (any-false peers)
            (and-any (to_pod ip && ports_allow env ports p.transport) from_peer peers
              ∙ and_assoc (to_pod ip) (ports_allow env ports p.transport) (any from_peer peers))
            (any-false peers ∙ false-and (to_pod ip)))

  namespaces-AtPod :
      (ports : List PolicyPort) (match_labels : Labels) (found : Option (List String))
      → AtPod
          (namespaces_list env d ips ports match_labels found)
          (ports_allow env ports p.transport && selected_peer env covers d match_labels found p)
          false
  namespaces-AtPod ports match_labels none = AtPod-eq _ _ _ _ AtPod-nil (ground arith) refl
  namespaces-AtPod ports match_labels (some namespaces) =
      AtPod-eq _ _ _ _
        (AtPod-flat_map (namespace_list env d ips ports match_labels)
          (λ namespace.
            ports_allow env ports p.transport
            && any from_peer (peer_ips env match_labels namespace))
          (λ namespace. false) namespaces
          (λ namespace. pairs-AtPod ports (peer_ips env match_labels namespace)))
        (and-any (ports_allow env ports p.transport)
          (λ namespace. any from_peer (peer_ips env match_labels namespace)) namespaces)
        (any-false namespaces)

  peer-AtPod :
      (np : NetworkPolicy) (ports : List PolicyPort) (peer : Peer) (block : Option IpBlock)
      (labels : Option Labels)
      → AtPod
          (peer_list_of env d np ips ports peer block labels)
          (peer_allows_by env covers d np ports peer block labels p)
          (peer_excepts_by env covers d block p)
  peer-AtPod np ports peer (some block) labels = block-AtPod block
  peer-AtPod np ports peer none none = AtPod-nil
  peer-AtPod np ports peer none (some match_labels) =
      namespaces-AtPod ports match_labels (peer_namespaces env np peer)

  rule-AtPod :
      (np : NetworkPolicy) (rule : PolicyRule)
      → AtPod
          (rule_list env d np ips rule)
          (rule_allows env covers d np rule p)
          (rule_excepts env covers d rule p)
  rule-AtPod np rule = by_peers rule.peers
    where
      by_peers :
          (peers : List Peer)
          → AtPod
              (if is_empty peers
                then all_peers_list env d ips rule
                else flat_map (peer_list env d np ips rule.ports) peers)
              (if is_empty peers
                then ports_allow env rule.ports p.transport
                else any (λ peer. peer_allows env covers d np rule.ports peer p) peers)
              (any (λ peer. peer_excepts env covers d peer p) peers)
      by_peers [] = all_peers-AtPod rule
      by_peers (x ∷ xs) =
          AtPod-flat_map (peer_list env d np ips rule.ports)
            (λ peer. peer_allows env covers d np rule.ports peer p)
            (λ peer. peer_excepts env covers d peer p) (x ∷ xs)
            (λ peer. peer-AtPod np rule.ports peer peer.ip_block peer.pod_selector)

  -- The flows of one direction of a policy: they isolate its pods, allow what a rule allows, and
  -- forbid what an exception of a rule names.
  pub direction-Sorts :
      (rules : List PolicyRule) (np : NetworkPolicy)
      → Sorts covers p
          (direction_list env d rules np ips)
          here
          (here && any (λ rule. rule_allows env covers d np rule p) rules)
          (here && any (λ rule. rule_excepts env covers d rule p) rules)
  direction-Sorts rules np =
      Sorts-eq covers p
        (Sorts-append covers p drops-Sorts (
          AtPod-flat_map (rule_list env d np ips) (λ rule. rule_allows env covers d np rule p)
            (λ rule. rule_excepts env covers d rule p) rules (rule-AtPod np)))
        (ground arith) refl refl
