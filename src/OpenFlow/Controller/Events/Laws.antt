-- ===== src/OpenFlow/Controller/Events/Laws.antt =====
-- What a sequence of events does to the controller of controllers/openflow/flows.go, where the
-- cluster and the host answer.
use k_vswitch.Prelude.{
  ◌≡◌, ◌≢◌, refl, ap, ◌∙◌, inl, inr, String, Bool, true, false, ◌&&◌, List, [], ◌∷◌, map, All,
  if◌then◌else◌, Bool-cases,
}
use k_vswitch.Text.{non_empty}
use k_vswitch.Net.{IpNet, parse_ip, parse_cidr, contains}
use k_vswitch.Result.{Result, ok, err, panic}
use k_vswitch.Exec.{logged_result, continue, logged, lift, gets, ◌>>=◌}
use k_vswitch.Flows.Buffer.{Command, new_flows_buffer}
use k_vswitch.Flows.Buffer.Emits.{put_flows}
use k_vswitch.VSwitchCfg.{VSwitchConfig}
use k_vswitch.OpenFlow.Config.{Config}
use k_vswitch.OpenFlow.Kube.{Pod, NetworkPolicy, listed}
use k_vswitch.OpenFlow.PortCache.{without, port_cache_key_for_pod, del_port_info}
use k_vswitch.OpenFlow.Controller.{Controller, Env, sync_flows}
use k_vswitch.OpenFlow.Controller.Steps.{Answers, IsComplete, is_local_ip_lem}
use k_vswitch.OpenFlow.Controller.Sync.{wanted, outcome, sync_flows-installs}
use k_vswitch.OpenFlow.Controller.Events.{
  Obj, pod, other, Event, added_vswitch, updated_vswitch, deleted_vswitch, added_pod, updated_pod,
  deleted_pod, added_policy, updated_policy, deleted_policy, minute_passed, pod_needs_update,
  sync_if, on_add_pod, on_update_pod, on_delete_pod, handle, handle_all,
}

-- an event, with what the cluster and the host answer when it is handled
pub record Round : Type 0 where
  pub env : Env
  pub event : Event
  pub vswitches : List VSwitchConfig
  pub pods : List Pod
  pub policies : List NetworkPolicy

-- The listers and ovs-vsctl answer, no port of a policy has a nil pointer, and running a command
-- does not panic; it may fail.
pub record IsAnswered (r : Round) : Type 0 where
  pub answers : Answers r.env.ovs
  pub listed_vswitches : r.env.list_vswitches ≡ listed r.vswitches
  pub listed_pods : r.env.list_pods ≡ listed r.pods
  pub listed_policies : r.env.list_policies ≡ listed r.policies
  pub complete : All IsComplete r.policies
  pub runs : (command : Command) → r.env.run command ≢ panic

-- the input of `handle_all`
abbrev pub input_of : Round → Env × Event
input_of r = (r.env, r.event)

module _ (net : IpNet) where
  -- a pod with an address of the node's block
  abbrev pub is_local : Obj → Bool
  is_local (pod p) = non_empty p.pod_ip && contains net (parse_ip p.pod_ip)
  is_local other = false

  -- Which events call for a synchronization: all of policies, those of VSwitchConfigs but their
  -- deletion, the passing of a minute, and those of local pods but their deletion.
  abbrev pub calls_for_sync : Event → Bool
  calls_for_sync (added_pod o) = is_local o
  calls_for_sync (updated_pod old o) = is_local o
  calls_for_sync (deleted_pod o) = false
  calls_for_sync deleted_vswitch = false
  calls_for_sync _ = true

  -- the wanted flows in the buffer, and one command more that replaces the bridge's flows by them
  abbrev pub synchronized : Round → Controller → Controller
  synchronized r s =
      let (fs, cache) = wanted r.env s.config net r.vswitches r.pods r.policies s.port_cache in
      let buffer = put_flows fs new_flows_buffer in
      record {
        config = s.config;
        flows = buffer;
        port_cache = cache;
        issued =
            record {
              program = "ovs-ofctl";
              arguments = "-O" ∷ "OpenFlow13" ∷ "replace-flows" ∷ s.config.bridge_name ∷ "-" ∷ [];
              input = buffer.buffer;
            }
            ∷ s.issued;
      }

  -- the pod that an event deletes has no port in the cache any more
  abbrev pub forget : Event → Controller → Controller
  forget (deleted_pod (pod p)) s = record s {
    port_cache = record { store = without (port_cache_key_for_pod p) s.port_cache.store };
  }
  forget _ s = s

  abbrev pub after_round : Controller → Round → Controller
  after_round s r = if calls_for_sync r.event then synchronized r s else forget r.event s

  abbrev pub after_rounds : List Round → Controller → Controller
  after_rounds [] s = s
  after_rounds (r ∷ rounds) s = after_rounds rounds (after_round s r)

  module _ (r : Round) (answered : IsAnswered r) (s : Controller)
      (is_net : parse_cidr s.config.pod_cidr ≡ ok net) where
    logged_outcome :
        (a : Result String) (t : Controller) → a ≢ panic → logged_result (outcome a, t) ≡ (ok tt, t)
    logged_outcome (ok out) t h = refl
    logged_outcome (err e) t h = refl
    logged_outcome panic t h = absurd (h refl)

    sync_lem : logged (sync_flows r.env) s ≡ (ok tt, synchronized r s)
    sync_lem =
        ap logged_result (
          sync_flows-installs r.env s net r.vswitches r.pods r.policies is_net answered.answers
            answered.listed_vswitches answered.listed_pods answered.listed_policies
            answered.complete)
        ∙ logged_outcome _ _ (answered.runs _)

    pod_event_lem :
        (p : Pod)
        → logged
            (gets (λ t. t.config) >>= λ c.
              lift (pod_needs_update c p) >>= λ needed. sync_if r.env needed)
            s
          ≡ (ok tt, if is_local (pod p) then synchronized r s else s)
    unfolding pod_needs_update sync_if
    pod_event_lem p = elim (Bool-cases (non_empty p.pod_ip)) [
      | inr e ↦ rw e refl
      | inl e ↦ elim (Bool-cases (contains net (parse_ip p.pod_ip))) [
        | inl l ↦ rw (e, is_local_ip_lem r.env s.config net is_net p.pod_ip, l) sync_lem
        | inr l ↦ rw (e, is_local_ip_lem r.env s.config net is_net p.pod_ip, l) refl
      ]
    ]

    handle_lem :
        (e : Event)
        → handle r.env e s ≡ (ok tt, if calls_for_sync e then synchronized r s else forget e s)
    unfolding handle on_add_pod on_update_pod on_delete_pod del_port_info
    handle_lem added_vswitch = sync_lem
    handle_lem updated_vswitch = sync_lem
    handle_lem deleted_vswitch = refl
    handle_lem (added_pod (pod p)) = pod_event_lem p
    handle_lem (added_pod other) = refl
    handle_lem (updated_pod old (pod p)) = pod_event_lem p
    handle_lem (updated_pod old other) = refl
    handle_lem (deleted_pod (pod p)) = refl
    handle_lem (deleted_pod other) = refl
    handle_lem added_policy = sync_lem
    handle_lem updated_policy = sync_lem
    handle_lem deleted_policy = sync_lem
    handle_lem minute_passed = sync_lem

  forget-config : (e : Event) (s : Controller) → (forget e s).config ≡ s.config
  forget-config (deleted_pod (pod p)) s = refl
  forget-config (deleted_pod other) s = refl
  forget-config deleted_vswitch s = refl
  forget-config added_vswitch s = refl
  forget-config updated_vswitch s = refl
  forget-config (added_pod o) s = refl
  forget-config (updated_pod old o) s = refl
  forget-config added_policy s = refl
  forget-config updated_policy s = refl
  forget-config deleted_policy s = refl
  forget-config minute_passed s = refl

  after_round-config : (s : Controller) (r : Round) → (after_round s r).config ≡ s.config
  after_round-config s r = by_test (calls_for_sync r.event)
    where
      by_test : (b : Bool) → (if b then synchronized r s else forget r.event s).config ≡ s.config
      by_test true = refl
      by_test false = forget-config r.event s

  -- Where the node's block is a block, and while each event is handled the listers and ovs-vsctl
  -- answer, no port of a policy has a nil pointer and running a command does not panic: a sequence of
  -- events ends well, whether the commands fail or not. Each event that calls for it has the buffer
  -- emptied, the wanted flows of its moment put into it and one command issued that replaces the
  -- bridge's flows by exactly these; the deletion of a pod drops its port from the cache; no other
  -- event changes anything.
  pub handle_all_lem :
      (rounds : List Round) (s : Controller)
      → parse_cidr s.config.pod_cidr ≡ ok net
      → All IsAnswered rounds
      → handle_all (map input_of rounds) s ≡ (ok tt, after_rounds rounds s)
  unfolding handle_all
  handle_all_lem [] s is_net answered = refl
  handle_all_lem (r ∷ rounds) s is_net (answered, rest) =
      ap
        (λ (a : Result (Unit {0}) × Controller).
          continue a.0 (λ u. handle_all (map input_of rounds)) a.1)
        (handle_lem r answered s is_net r.event)
      ∙ handle_all_lem rounds (after_round s r)
          (ap (λ (c : Config). parse_cidr c.pod_cidr) (after_round-config s r) ∙ is_net) rest
