-- ===== src/OpenFlow/Controller/Installed.antt =====
-- From `syncFlows` of controllers/openflow/flows.go through the text that ovs-ofctl reads to what
-- the switch then does.
use mathlib.Core.List.{Memᴰ}
use mathlib.Core.Path.{subst}
use k_vswitch.Prelude.{
  ◌≡◌, sym, ap, ◌∙◌, String, Bool, pos, str_eq, true, false, ◌&&◌, List, ◌∷◌, All,
}
use k_vswitch.Net.{IpNet, parse_cidr}
use k_vswitch.Result.{Result, ok}
use k_vswitch.Flows.{Flow}
use k_vswitch.Flows.Buffer.{Command, new_flows_buffer, sync_flows_command}
use k_vswitch.Flows.Buffer.Emits.{put_flows}
use k_vswitch.Flows.Reader.{read_lines}
use k_vswitch.Flows.Reader.Lines.{read_lines-put_flows}
use k_vswitch.VSwitchCfg.{VSwitchConfig}
use k_vswitch.OpenFlow.Kube.{Pod, NetworkPolicy, listed}
use k_vswitch.OpenFlow.Policy.Table.{forbidden}
use k_vswitch.OpenFlow.Switch.{Packet, Decides, in_table, selects, Delivers}
use k_vswitch.OpenFlow.Controller.{Env, Controller, sync_flows}
use k_vswitch.OpenFlow.Controller.Classes.{next_table}
use k_vswitch.OpenFlow.Controller.Tables.{IsPort}
use k_vswitch.Text.{non_empty}
use k_vswitch.Net.{parse_ip, contains}
use k_vswitch.OpenFlow.Ovs.{PortInfo, port_info_of}
use k_vswitch.OpenFlow.Controller.Ways.{Delivered, route-Ends, port-Ends}
use k_vswitch.OpenFlow.Controller.Paths.{Handles, IsPort-path, route_path}
use k_vswitch.OpenFlow.Controller.Steps.{Answers, IsComplete}
use k_vswitch.OpenFlow.Controller.Sync.{wanted, sync_flows-installs}
use k_vswitch.OpenFlow.Controller.Verdict.{applied_policies, wanted_verdict}
use k_vswitch.OpenFlow.Legible.Cluster.{IsPlainCluster, wanted-IsLegible}

same_head : (a b : Command) (l : List Command) → (a ∷ l) ≡ (b ∷ l) → a ≡ b
same_head a b l h = cc

module _ (env : Env) (s : Controller) (net : IpNet) (vs : List VSwitchConfig) (pods : List Pod)
    (nps : List NetworkPolicy) where
  -- What a run is given, and that its listers answer.
  pub record IsAnswered : Type 0 where
    pub is_net : parse_cidr s.config.pod_cidr ≡ ok net
    pub answers : Answers env.ovs
    pub vswitches : env.list_vswitches ≡ listed vs
    pub listed_pods : env.list_pods ≡ listed pods
    pub policies : env.list_policies ≡ listed nps
    pub complete : All IsComplete nps

  module _ (run : IsAnswered) (plain : IsPlainCluster env s.config vs pods nps s.port_cache)
      (command : Command) (issued : (sync_flows env s).1.issued ≡ command ∷ s.issued) where
    -- ovs-ofctl reads from the command's input the wanted flows
    pub installed_flows :
        read_lines command.input ≡ (wanted env s.config net vs pods nps s.port_cache).0
    installed_flows =
        ap (λ (c : Command). read_lines c.input) the_command
        ∙ read_lines-put_flows (wanted env s.config net vs pods nps s.port_cache).0
            (wanted-IsLegible env s.config net vs pods nps s.port_cache plain)
      where
        the_command :
            command
            ≡ sync_flows_command s.config.bridge_name
                (put_flows (wanted env s.config net vs pods nps s.port_cache).0 new_flows_buffer)
        the_command = same_head _ _ s.issued (
            sym issued
            ∙ ap (λ (a : Result (Unit {0}) × Controller). a.1.issued)
                (sync_flows-installs env s net vs pods nps run.is_net run.answers run.vswitches
                  run.listed_pods run.policies run.complete))

    module _ {A : Type 0} (covers : String → A → Bool) (p : Packet A) where
      -- One run of `syncFlows` issues one command. Whatever flow of table 10 the switch takes for a
      -- packet, of those that are read from the command's input, it drops the packet exactly if the
      -- listed network policies, applied to the local pods that they select, forbid it. Conditions:
      -- the listers and ovs-vsctl answer, the node's block is a block, no port of a policy has a nil
      -- pointer, and what the cluster holds is written without spaces, line ends, commas and
      -- parentheses and with integers of 64 bits.
      pub installed_verdict :
          (f : Flow)
          → Decides covers (in_table (pos 10) (read_lines command.input)) p f
          → f.drop ≡ forbidden env.lookup covers p (applied_policies env s.config nps)
      installed_verdict f decides =
          wanted_verdict env s.config net vs pods nps s.port_cache covers p f
            (subst (λ fs. Decides covers (in_table (pos 10) fs) p f) installed_flows decides)

  -- One run issues a command before any other, and a switch with the flows that are read from its
  -- input takes the packet on a way that ends, with a flow that has the property, whatever flow it is.
  abbrev pub Delivering : {A : Type 0} → (String → A → Bool) → Packet A → (Flow → Type 0) → Type 0
  Delivering covers p Q =
      (command : Command) × ((sync_flows env s).1.issued ≡ command ∷ s.issued)
      × Delivered covers (read_lines command.input) p Q

  module _ (run : IsAnswered) (plain : IsPlainCluster env s.config vs pods nps s.port_cache)
      {A : Type 0} (covers : String → A → Bool) (p : Packet A) where
    abbrev fs : List Flow
    fs = (wanted env s.config net vs pods nps s.port_cache).0

    -- what is delivered by the wanted flows is delivered by the command that is issued
    delivering :
        (Q : Flow → Type 0)
        → (f : Flow) × Delivers covers fs p (pos 0) f
        → ((f : Flow) → Delivers covers fs p (pos 0) f → Q f)
        → Delivering covers p Q
    delivering Q ends each = (
      sync_flows_command s.config.bridge_name (put_flows fs new_flows_buffer),
      is_issued,
      subst (λ l. Delivered covers l p Q) (sym (installed_flows run plain _ is_issued))
          (record { ends = ends; each = each }),
    )
      where
        is_issued :
            (sync_flows env s).1.issued
            ≡ sync_flows_command s.config.bridge_name (put_flows fs new_flows_buffer) ∷ s.issued
        is_issued =
            ap (λ (a : Result (Unit {0}) × Controller). a.1.issued)
              (sync_flows-installs env s net vs pods nps run.is_net run.answers run.vswitches
                run.listed_pods run.policies run.complete)

    module _
        (other : (w : VSwitchConfig)
          → Memᴰ w vs
          → selects covers w.spec.overlay_ip p.dst ≡ false) where
      -- A packet to a listed pod, with an address of the node's block, whose port ovs-vsctl tells; not
      -- to the gateway, though its address is in the block too. One run of `syncFlows` issues one
      -- command more, and with the flows that are read from its input the way of the packet through
      -- the tables ends. Whatever flow ends it drops the packet if the policies forbid it, and else
      -- writes the pods' hardware address and outputs to the port of a listed pod whose address selects
      -- the packet's destination: the port that the cache held under the pod's key before the run, or
      -- that ovs-vsctl answers for a listed pod of the key. Conditions: the node's block is a block,
      -- the listers answer and ovs-vsctl does not panic, no port of a policy has a nil pointer, what
      -- the cluster holds is written without spaces, line ends, commas and parentheses and with
      -- integers of 64 bits, and the destination is no listed node's overlay address.
      pub installed-IsPort :
          (pod : Pod) (info : PortInfo)
          → next_table covers s.config p.dst ≡ pos 60
          → Memᴰ pod pods
          → non_empty pod.pod_ip && contains net (parse_ip pod.pod_ip) ≡ true
          → port_info_of env.ovs pod.namespace pod.name ≡ ok info
          → selects covers pod.pod_ip p.dst ≡ true
          → Delivering covers p (
              Handles covers p env s.config net vs pods nps s.port_cache
                (λ f. IsPort env.ovs s.port_cache pods f × (selects covers f.ip_dest p.dst ≡ true)))
      installed-IsPort pod info h is_listed local known selected =
          delivering _
            (port-Ends covers p env s.config net vs pods nps s.port_cache other pod info h is_listed
              local known selected)
            (λ f way. IsPort-path covers p env s.config net vs pods nps s.port_cache other f h way)

      -- A packet to the pods of another listed node, to an address of the cluster CIDR that is
      -- neither the gateway's nor in the node's own block. One run of `syncFlows` issues one command
      -- more, and with the flows that are read from its input the way of the packet through the tables
      -- ends. Whatever flow ends it drops the packet if the policies forbid it, and else sends it
      -- through the overlay port to that node's overlay address. Conditions: the node's block is a
      -- block, the listers answer and ovs-vsctl does not panic, no port of a policy has a nil pointer,
      -- what the cluster holds is written without spaces, line ends, commas and parentheses and with
      -- integers of 64 bits, the destination is no listed node's overlay address, and only nodes of
      -- one overlay address have it in their block.
      pub installed_route :
          (v : VSwitchConfig)
          → next_table covers s.config p.dst ≡ pos 30
          → Memᴰ v vs
          → str_eq v.name s.config.node_name ≡ false
          → selects covers v.spec.pod_cidr p.dst ≡ true
          → ((w : VSwitchConfig)
              → Memᴰ w vs
              → selects covers w.spec.pod_cidr p.dst ≡ true
              → w.spec.overlay_ip ≡ v.spec.overlay_ip)
          → Delivering covers p (
              Handles covers p env s.config net vs pods nps s.port_cache
                (λ f. (f.tun_dest ≡ v.spec.overlay_ip) × (f.output ≡ s.config.overlay_ofport)))
      installed_route v h is_listed remote selected unique =
          delivering _
            (route-Ends covers p env s.config net vs pods nps s.port_cache other v h is_listed
              remote selected unique)
            (λ f way.
              route_path covers p env s.config net vs pods nps s.port_cache other v f h is_listed
                remote selected unique way)
