-- ===== src/Lib.antt =====
-- k-vswitch: the flows of an Open vSwitch bridge for the pods of a Kubernetes cluster.
--
-- The cluster controller keeps one VSwitchConfig per node (controllers/vswitchcfg). On each node a
-- daemon lists these configurations, the pods and the network policies, computes all flows of its
-- bridge (controllers/openflow) as one text (flows), and replaces the flows of the bridge by them.
-- The pods' ports are asked of ovs-vsctl once and cached (controllers/openflow/port_cache.go). The
-- daemon (cmd/k-vswitchd) prepares the bridge, the routes and the iptables rules of the node first;
-- the CNI plugin (cmd/k-vswitch-cni) plugs each pod into the bridge and unplugs it.
--
-- Which file models what:
--   Flows           flows/flows.go: Flow, its With setters, String (to_string)
--   Flows/Reader    how ovs-ofctl reads the text of a flow and the lines of a buffer, for the
--                   statements only
--   Flows/Buffer    flows/buffer.go: FlowsBuffer, AddFlow, Reset, the command of SyncFlows
--   VSwitchCfg      controllers/vswitchcfg/vswitchcfg.go: OnAdd, OnUpdate, OnDelete, needsUpdate,
--                   syncVSwitchConfig and what they call; VSwitchCfg/Addresses and
--                   VSwitchCfg/Reconcile are its proofs
--   OpenFlow/Kube   the fields of the Kubernetes objects that the controller reads
--   OpenFlow/Config the table numbers, and the fields of `controller` that never change
--   OpenFlow/Bridge controllers/openflow/flows.go: defaultFlows, flowsForVSwitch
--   OpenFlow/Policy controllers/openflow/flows.go: flowsForIngressNetworkPolicy and
--                   flowsForEgressNetworkPolicy as one function of the direction
--   OpenFlow/Ovs    controllers/openflow/port_cache.go: findPort, macAddrFromPort, ofPortFromName
--   OpenFlow/PortCache   the same file: GetPortInfo, DelPortInfo
--   OpenFlow/Controller  controllers/openflow/flows.go: syncFlows, flowsForPod, flowsForNetworkPolicy;
--                   Controller/Events: the handlers of the informers. Of the proofs, Sync says what
--                   one run installs, Origins where each flow comes from, Tables,
--                   Verdict, Classes and Routes what the tables do, Paths the way through all of
--                   them, Ways that it ends, and Installed the same for the text that the command is
--                   given; Events/Laws says what a sequence of events does
--   OpenFlow/Session     controllers/openflow/controller.go: Initialize, the message loop of Run
--   OpenFlow/Start  controllers/openflow/controller.go: what NewController computes
--   OpenFlow/Switch how a switch uses flows, table by table, for the statements only; Switch/Best: a
--                   table with a flow that matches has one that decides
--   OpenFlow/Legible     which configurations, nodes, pods and policies give flows whose text can be
--                   read back
--   Connection      connection/connection.go and openflow.go: Send, SetConnection, ProcessQueue as
--                   steps of goroutines, handleConn, MessageLength; Connection/Channel: NewOFConnect,
--                   Receive and the channel that it reads
--   Cni             cmd/k-vswitch-cni/plugin.go: getPodInfo, addPort, delPort, findPort;
--                   Cni/Network: calcGateways; Cni/BridgeAddr: ensureBridgeAddr; Cni/Add: cmdAdd;
--                   Cni/Del: cmdDel; Cni/Host: what these call
--   Daemon          cmd/k-vswitchd/main.go: main and what it calls; Daemon/Outside: its constants,
--                   its calls and their answers
--   ControllerMain  cmd/k-vswitch-controller/main.go: the check of the flags, and main
--   Trace           code as a list of calls of the outside: plans (Trace/Plan), and what a call
--                   leaves as it was (Trace/Keeps)
--   Text, Net       what the program uses of Go's strings, strconv and net (IPv4)
--   Prelude, Bools, Result, Exec   shared names and lemmas; Go's errors and panics; code that changes a state
--
-- State is passed explicitly: an operation takes the state and returns its outcome (a value, an
-- error or a panic) beside the new state, so that what was written before an error stays written.
-- The listers, the API server, ovs-vsctl, JSON decoding, ip.NextIP and the outcome of commands are
-- parameters; laws that a proof needs of them are named hypotheses. What the Reads of a connection
-- return is an input: each Read is given the free part of a buffer of 4096 bytes, and returns no more
-- than fits there. Go's int is an integer with no
-- bound here, since the program only compares and prints such numbers. Loops run over lists; the
-- one loop that runs on time, waitForVSwitchConfig, has fuel for 13 rounds, one more than the sleeps
-- of five seconds that fit into its minute, which is enough with a clock that does not go back.
--
-- The commands of the plugin and the two mains keep nothing: they make calls of the host one after
-- the other. Their state is the trace of the calls made, the newest first, each with whether it
-- succeeded; what a call answers may depend on all calls before it.
--
-- Not modelled: sockets, and what ofp13 makes of the bytes of a message (connection);
-- parsing the command line, signal handlers and logging (cmd); the informers, the generated clients
-- and the deep copies of the API types. IPv6 addresses are read only by calcGateways and
-- ensureBridgeAddr.
pub mod Prelude
pub mod Bools
pub mod Result
pub mod Exec
pub mod Trace
pub mod Daemon
pub mod ControllerMain
pub mod Text
pub mod Flows
pub mod Net
pub mod VSwitchCfg
pub mod OpenFlow
pub mod Cni
pub mod Connection
