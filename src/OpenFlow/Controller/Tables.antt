-- ===== src/OpenFlow/Controller/Tables.antt =====
-- The flows of the tables 0, 10 and 60 of the bridge after one run of `syncFlows` of
-- controllers/openflow/flows.go.
use mathlib.Core.List.{Memᴰ}
use k_vswitch.Prelude.{pos, ◌≡◌, refl, ◌⊎◌, inl, inr, true, false, List}
use k_vswitch.Text.{non_empty}
use k_vswitch.Flows.{Flow}
use k_vswitch.VSwitchCfg.{VSwitchConfig}
use k_vswitch.OpenFlow.Kube.{Pod}
use k_vswitch.OpenFlow.Config.{Config, pod_mac_addr}
use k_vswitch.OpenFlow.Ovs.{Ovs, PortInfo}
use k_vswitch.OpenFlow.PortCache.{PortCache, port_cache_key_for_pod}
use k_vswitch.OpenFlow.Policy.Sorts.{IsPolicyFlow, isolating, allowing, excepting}
use k_vswitch.OpenFlow.Switch.{int_eq}
use k_vswitch.OpenFlow.Controller.Origins.{Known, OfOrigins, not_in_table_10}

-- table 0: the entry, or a raw text
abbrev pub IsEntry : Flow → Type 0
IsEntry f = (f.resubmit ≡ pos 10) ⊎ (non_empty f.raw ≡ true)

-- table 10: a drop, or a resubmission to table 20
abbrev pub IsPass : Flow → Type 0
IsPass f = ((f.drop ≡ true) × (f.resubmit ≡ pos 0)) ⊎ ((f.drop ≡ false) × (f.resubmit ≡ pos 20))

-- table 60: the flow writes the address that all pods have and outputs to the port of a listed pod,
-- as the cache held it or ovs-vsctl answers it
pub record IsPort (ovs : Ovs) (before : PortCache) (pods : List Pod) (f : Flow) : Type 0 where
  pub pod : Pod
  pub info : PortInfo
  pub is_listed : Memᴰ pod pods
  pub known : Known ovs before pods (port_cache_key_for_pod pod) info
  pub for_pod : f.ip_dest ≡ pod.pod_ip
  pub rewrites : f.mod_dl_dest ≡ pod_mac_addr
  pub to_port : f.output ≡ info.ofport
  pub is_last : f.resubmit ≡ pos 0

policy-IsPass : (f : Flow) → IsPolicyFlow f → IsPass f
policy-IsPass f (isolating tab at d r) = inl (d, r)
policy-IsPass f (allowing tab at d r) = inr (d, r)
policy-IsPass f (excepting tab at d r) = inl (d, r)

module _ (c : Config) (vs : List VSwitchConfig) (ovs : Ovs) (before : PortCache)
    (pods : List Pod) where
  pub origins-IsEntry :
      OfOrigins (λ f. int_eq f.table (pos 0) ≡ true → IsEntry f) ovs before c vs pods
  origins-IsEntry = record {
    defaults = (
      λ e. inl refl,
      (
        λ e. cc,
        (λ e. cc, (λ e. cc, (λ e. cc, (λ e. cc, (λ e. cc, (λ e. inr refl, (λ e. inr refl, tt))))))),
      ),
    );
    this_node = λ v m here. (λ e. cc, (λ e. cc, (λ e. cc, tt)));
    other_nodes = λ v m there. (λ e. cc, (λ e. cc, (λ e. cc, tt)));
    to_port = λ pod m info answer e. cc;
    to_arp = λ pod m e. inr refl;
    of_policy = λ f kind e. absurd (not_in_table_10 f kind 0 refl e);
  }

  pub origins-IsPass :
      OfOrigins (λ f. int_eq f.table (pos 10) ≡ true → IsPass f) ovs before c vs pods
  origins-IsPass = record {
    defaults = (
      λ e. cc,
      (
        λ e. inr (refl, refl),
        (λ e. cc, (λ e. cc, (λ e. cc, (λ e. cc, (λ e. cc, (λ e. cc, (λ e. cc, tt))))))),
      ),
    );
    this_node = λ v m here. (λ e. cc, (λ e. cc, (λ e. cc, tt)));
    other_nodes = λ v m there. (λ e. cc, (λ e. cc, (λ e. cc, tt)));
    to_port = λ pod m info answer e. cc;
    to_arp = λ pod m e. cc;
    of_policy = λ f kind e. policy-IsPass f kind;
  }

  pub origins-IsPort :
      OfOrigins
        (λ f. int_eq f.table (pos 60) ≡ true → IsPort ovs before pods f)
        ovs
        before
        c
        vs
        pods
  origins-IsPort = record {
    defaults = (
      λ e. cc,
      (λ e. cc, (λ e. cc, (λ e. cc, (λ e. cc, (λ e. cc, (λ e. cc, (λ e. cc, (λ e. cc, tt)))))))),
    );
    this_node = λ v m here. (λ e. cc, (λ e. cc, (λ e. cc, tt)));
    other_nodes = λ v m there. (λ e. cc, (λ e. cc, (λ e. cc, tt)));
    to_port = λ pod m info answer e. record {
      pod = pod;
      info = info;
      is_listed = m;
      known = answer;
      for_pod = refl;
      rewrites = refl;
      to_port = refl;
      is_last = refl;
    };
    to_arp = λ pod m e. cc;
    of_policy = λ f kind e. absurd (not_in_table_10 f kind 60 refl e);
  }
