-- ===== src/Flows/Buffer.antt =====
-- flows/buffer.go: the text of all flows of one sync, and the command that installs it.
pub mod Emits
use k_vswitch.Prelude.{String, List, [], ◌∷◌}
use k_vswitch.Text.{◌++◌}
use k_vswitch.Flows.{Flow, to_string}
use k_vswitch.Exec.{Exec, modify}

pub record FlowsBuffer : Type 0 where
  pub buffer : String

abbrev pub new_flows_buffer : FlowsBuffer
new_flows_buffer = record { buffer = "" }

-- the buffer after `AddFlow`: the flow's text and a newline are written at its end
unfoldable pub put_flow : Flow → FlowsBuffer → FlowsBuffer
put_flow flow b = record { buffer = b.buffer ++ to_string flow ++ "\n" }

-- FlowsBuffer.AddFlow
abbrev pub add_flow : Flow → Exec FlowsBuffer (Unit {0})
add_flow flow = modify (put_flow flow)

-- FlowsBuffer.Reset
abbrev pub reset : Exec FlowsBuffer (Unit {0})
reset = modify (λ b. record b { buffer = "" })

-- a command of the host: its name, its arguments and what it reads
pub record Command : Type 0 where
  pub program : String
  pub arguments : List String
  pub input : String

-- the command of FlowsBuffer.SyncFlows
abbrev pub sync_flows_command : String → FlowsBuffer → Command
sync_flows_command bridge b = record {
  program = "ovs-ofctl";
  arguments = "-O" ∷ "OpenFlow13" ∷ "replace-flows" ∷ bridge ∷ "-" ∷ [];
  input = b.buffer;
}
