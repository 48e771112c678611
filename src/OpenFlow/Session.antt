-- ===== src/OpenFlow/Session.antt =====
-- The session of the controller with the switch: `Initialize` and the message loop of `Run`
-- (controllers/openflow/controller.go). Decoding a message is not part of it.
pub mod Laws
use k_vswitch.Prelude.{ℕ, List, [], ◌∷◌, ◌++◌}

-- the messages of ofp13 that `Run` tells apart, by their Go types
pub data Message : Type 0 where
  echo_request echo_reply other_header : Message
  hello : Message
  switch_features : ℕ → Message
  other_message : Message

-- what the controller sends
pub data Request : Type 0 where
  say_hello echo_answer features_request : Request

pub record Session : Type 0 where
  pub datapath_id : ℕ
  pub sent : List Request

-- connManager.Send(msg), the oldest first
abbrev pub send : Request → Session → Session
send r s = record s { sent = s.sent ++ (r ∷ []) }

abbrev pub initialize : Session → Session
initialize s = send say_hello s

-- one turn of the loop
unfoldable pub on_message : Message → Session → Session
on_message echo_request s = send echo_answer s
on_message echo_reply s = s
on_message other_header s = s
on_message hello s = send features_request s
on_message (switch_features id) s = record s { datapath_id = id }
on_message other_message s = s

-- the loop on the messages that arrive
unfoldable pub run : List Message → Session → Session
unfolding on_message
run [] s = s
run (m ∷ ms) s = run ms (on_message m s)
