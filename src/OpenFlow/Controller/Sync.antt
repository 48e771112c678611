-- ===== src/OpenFlow/Controller/Sync.antt =====
-- `syncFlows` of controllers/openflow/flows.go as a whole: the flows that one run installs.
use k_vswitch.Prelude.{◌≡◌, refl, ap, ◌∙◌, String, List, [], ◌∷◌, ◌++◌, All}
use mathlib.Core.Path.{fun_ext}
use k_vswitch.Net.{IpNet, parse_cidr}
use k_vswitch.Result.{wrap, Result, ok, err, panic, context}
use k_vswitch.Exec.{gets, ◌>>=◌, ◌>>◌, skip, logged, lift, for_each, continue}
use k_vswitch.Flows.{Flow}
use k_vswitch.Flows.Buffer.{reset, new_flows_buffer, Command, sync_flows_command}
use k_vswitch.Flows.Buffer.Emits.{flat_map, put_flows}
use k_vswitch.VSwitchCfg.{VSwitchConfig}
use k_vswitch.OpenFlow.Kube.{Pod, NetworkPolicy, Listing, listed}
use k_vswitch.OpenFlow.Config.{Config}
use k_vswitch.OpenFlow.Bridge.{default_flows, flows_for_vswitch}
use k_vswitch.OpenFlow.Bridge.Flows.{default_list, vswitch_list, flows_for_vswitch-Emits}
use k_vswitch.OpenFlow.PortCache.{PortCache}
use k_vswitch.OpenFlow.Controller.{
  wrap_result, listing, wrapped, Controller, Env, M, on_flows, flows_for_pod,
  flows_for_network_policy, install_flows, sync_flows,
}
use k_vswitch.OpenFlow.Controller.Adds.{
  controller, Adds, Adds-on_flows, Adds-seq, each_of, Adds-for_each, Adds-loop,
}
use k_vswitch.OpenFlow.Controller.Steps.{
  pod_list, network_policy_list, Answers, IsComplete, pod-Adds, policy-Adds,
}

-- What one run of `syncFlows` installs, and the port cache that it leaves.
abbrev pub wanted :
    Env
    → Config
    → IpNet
    → List VSwitchConfig
    → List Pod
    → List NetworkPolicy
    → PortCache
    → List Flow × PortCache
wanted env c net vs pods nps p =
    let (fs, q) = each_of (pod_list env.ovs net) pods p in
    (
      default_list c
          ++ (flat_map (vswitch_list c) vs ++ (fs ++ flat_map (network_policy_list env c) nps)),
      q,
    )

abbrev pub outcome : Result String → Result (Unit {0})
outcome (ok out) = ok tt
outcome (err e) = err (wrap "error syncing flows" (wrap "failed to sync flows" e))
outcome panic = panic

All-of {ℓ} : {X : Type 0} {P : X → Type ℓ} → ((x : X) → P x) → (xs : List X) → All P xs
All-of h [] = tt
All-of h (x ∷ xs) = (h x, All-of h xs)

-- `syncFlows` with the answers of its three listers
abbrev run_of : Env → Listing VSwitchConfig → Listing Pod → Listing NetworkPolicy → M (Unit {0})
run_of env list_vswitches list_pods list_policies = do
  on_flows reset
  c ← gets (λ s. s.config)
  wrapped "error adding default flows" (on_flows (default_flows c))
  vswitch_cfgs ← lift (listing "error listing vswitch configs" list_vswitches)
  for_each vswitch_cfgs (λ v. logged (on_flows (flows_for_vswitch c v)))
  pods ← lift (listing "error listing pods" list_pods)
  for_each pods (λ pod. logged (flows_for_pod env pod))
  net_pols ← lift (listing "error getting network policies" list_policies)
  for_each net_pols (λ np. logged (flows_for_network_policy env np))
  wrapped "error syncing flows" (install_flows env)

seq_assoc : (m n k : M (Unit {0})) (s : Controller) → (m >> (n >> k)) s ≡ ((m >> n) >> k) s
seq_assoc m n k s = from_answer (m s)
  where
    from_answer :
        (a : Result (Unit {0}) × Controller)
        → continue a.0 (λ u. n >> k) a.1
          ≡ (let b = continue a.0 (λ u. n) a.1 in continue b.0 (λ u. k) b.1)
    from_answer (ok u, t) = refl
    from_answer (err e, t) = refl
    from_answer (panic, t) = refl

-- Where four loops end well, what follows them starts in the state that they leave.
after_loops :
    (d v p n k : M (Unit {0})) (s t : Controller)
    → (d >> (v >> (p >> n))) s ≡ (ok tt, t)
    → (d >> (v >> (p >> (n >> k)))) s ≡ k t
after_loops d v p n k s t h =
    ap (λ q. (d >> (v >> q)) s) (fun_ext (seq_assoc p n k))
    ∙ ap (λ q. (d >> q) s) (fun_ext (seq_assoc v (p >> n) k))
    ∙ seq_assoc d (v >> (p >> n)) k s
    ∙ ap (λ (a : Result (Unit {0}) × Controller). continue a.0 (λ u. k) a.1) h

module _ (env : Env) (s : Controller) (net : IpNet) (vs : List VSwitchConfig) (pods : List Pod)
    (nps : List NetworkPolicy) where
  abbrev flows_wanted : List Flow
  flows_wanted = (wanted env s.config net vs pods nps s.port_cache).0

  abbrev command : Command
  command = sync_flows_command s.config.bridge_name (put_flows flows_wanted new_flows_buffer)

  default-Adds :
      Adds s.config s.port_cache
        (wrapped "error adding default flows" (on_flows (default_flows s.config)))
        (default_list s.config)
        s.port_cache
  unfolding default_flows
  default-Adds = record { at = λ b i. refl }

  -- the four loops, one after the other
  loops-Adds :
      parse_cidr s.config.pod_cidr ≡ ok net
      → Answers env.ovs
      → All IsComplete nps
      → Adds s.config s.port_cache
          (wrapped "error adding default flows" (on_flows (default_flows s.config))
            >> (for_each vs (λ v. logged (on_flows (flows_for_vswitch s.config v)))
                >> (for_each pods (λ pod. logged (flows_for_pod env pod))
                    >> for_each nps (λ np. logged (flows_for_network_policy env np)))))
          flows_wanted
          (wanted env s.config net vs pods nps s.port_cache).1
  loops-Adds is_net answers complete = Adds-seq default-Adds (
      Adds-seq
        (Adds-loop (λ v. Unit) vs (λ v. logged (on_flows (flows_for_vswitch s.config v)))
          (vswitch_list s.config) (λ v h p. Adds-on_flows p (flows_for_vswitch-Emits s.config v))
          (All-of (λ v. tt) vs) s.port_cache)
        (Adds-seq
          (Adds-for_each (λ v. Unit) pods (λ pod. logged (flows_for_pod env pod))
            (pod_list env.ovs net) (λ pod h p. pod-Adds env s.config net is_net pod answers p)
            (All-of (λ v. tt) pods) s.port_cache)
          (Adds-loop IsComplete nps (λ np. logged (flows_for_network_policy env np))
            (network_policy_list env s.config)
            (λ np set p. policy-Adds env s.config net is_net np set p) complete _)))

  -- If the three listers answer, the node's block is a block, ovs-vsctl never prints a row with no
  -- column, and no port of a policy has a nil pointer, then one run of `syncFlows` issues exactly
  -- one command, which replaces all flows of the bridge by the wanted ones, whatever flows were in
  -- the buffer before, and returns the outcome of that command.
  pub sync_flows-installs :
      parse_cidr s.config.pod_cidr ≡ ok net
      → Answers env.ovs
      → env.list_vswitches ≡ listed vs
      → env.list_pods ≡ listed pods
      → env.list_policies ≡ listed nps
      → All IsComplete nps
      → sync_flows env s ≡ (
        outcome (env.run command),
        record {
          config = s.config;
          flows = put_flows flows_wanted new_flows_buffer;
          port_cache = (wanted env s.config net vs pods nps s.port_cache).1;
          issued = command ∷ s.issued;
        },
      )
  unfolding sync_flows
  sync_flows-installs is_net answers lv lp ln complete =
      ap (λ l. run_of env l env.list_pods env.list_policies s) lv
      ∙ ap (λ l. run_of env (listed vs) l env.list_policies s) lp
      ∙ ap (λ l. run_of env (listed vs) (listed pods) l s) ln
      ∙ after_loops (wrapped "error adding default flows" (on_flows (default_flows s.config)))
          (for_each vs (λ v. logged (on_flows (flows_for_vswitch s.config v))))
          (for_each pods (λ pod. logged (flows_for_pod env pod)))
          (for_each nps (λ np. logged (flows_for_network_policy env np)))
          (wrapped "error syncing flows" (install_flows env))
          (controller s.config new_flows_buffer s.port_cache s.issued) _
          ((loops-Adds is_net answers complete).at new_flows_buffer s.issued)
      ∙ installed (env.run command)
    where
      installed :
          (r : Result String) {t : Controller}
          → wrap_result "error syncing flows"
              (continue (context "failed to sync flows" r) (λ out. skip) t)
            ≡ (outcome r, t)
      installed (ok out) = refl
      installed (err e) = refl
      installed panic = refl
