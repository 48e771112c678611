-- ===== src/Connection/Tests.antt =====
-- A queue and a connection, and the theorems at them.
use k_vswitch.Prelude.{
  String, str_eq, if◌then◌else◌, ℕ, ◌≡◌, ◌≢◌, refl, Bool, true, none, some, Option, List, [], ◌∷◌,
  ◌++◌, map, arith, All,
}
use k_vswitch.Text.Decimal.{format}
use k_vswitch.Result.{ok, err, msg, panic}
use k_vswitch.Connection.{
  OfConnect, new_of_connect, send, set_connection, process, sends, connects, processes, Reachable,
  start, after, at_conn, handle_conn, message_length, serve, fill, take, read_into,
}
use k_vswitch.Connection.Queue.{queue_in_order}
use k_vswitch.Connection.Reader.{handle_conn-map}
use k_vswitch.Connection.Channel.{
  Tcp, open_of_connect, Handler, Channel, new_channel, new_handler, open_conn, receive, next, other,
  Exchanged, opens, receives,
}
use k_vswitch.Connection.Channel.Laws.{from_conn, received_in_order}
use k_vswitch.Connection.Bounds.{IsBounded, handle_conn-IsBounded}
use k_vswitch.Connection.Serving.{last_of, serve_lem}
use k_vswitch.Connection.Progress.{Drains, run_queue-Drains}

abbrev no_messages : List ℕ
no_messages = []

-- after a message is sent, a switch connects, and the message is written
abbrev connected : OfConnect ℕ ℕ
connected = set_connection 1 (send 7 new_of_connect)

abbrev delivered : OfConnect ℕ ℕ
delivered = record {
  queue = [];
  conn = some 1;
  phase = at_conn;
  written = (1, 7) ∷ [];
  sent = 7 ∷ [];
}

connected-Reachable : Reachable connected
connected-Reachable = after (after start (sends 7 refl)) (connects 1)

delivered-Reachable : Reachable delivered
unfolding process
delivered-Reachable =
    after (after (after connected-Reachable (processes true refl)) (processes true refl))
      (processes true refl)

queue_in_order_example :
    (delivered.sent ≡ map (λ (x : ℕ × ℕ). x.1) delivered.written ++ delivered.queue)
    × ((accepted : Bool) → process accepted delivered.phase delivered ≢ panic)
queue_in_order_example = queue_in_order delivered delivered-Reachable

-- two echo requests in one segment, of which the second is lost
abbrev echo_bytes : List ℕ
echo_bytes = 4 ∷ 2 ∷ 0 ∷ 8 ∷ 0 ∷ 0 ∷ 0 ∷ 1 ∷ []

handle_conn-map_example : handle_conn [] ((echo_bytes ++ echo_bytes) ∷ []) ≡ echo_bytes ∷ []
unfolding message_length
handle_conn-map_example =
    handle_conn-map ((echo_bytes, echo_bytes) ∷ []) (((omega arith, refl), omega arith), tt)

-- after a message is sent and a switch connects, three steps deliver the message
run_queue-Drains_example : Drains 1 3 connected
run_queue-Drains_example = run_queue-Drains connected 1 connected-Reachable refl

-- the largest length that a header can hold, in two segments
abbrev long_segments : List (List ℕ)
long_segments = (4 ∷ 2 ∷ 0xff ∷ []) ∷ (0xff ∷ 0 ∷ 0 ∷ 0 ∷ 1 ∷ []) ∷ []

handle_conn-IsBounded_example : All IsBounded (handle_conn [] long_segments)
handle_conn-IsBounded_example = handle_conn-IsBounded long_segments (
  (omega arith, (omega arith, (omega arith, tt))),
  ((omega arith, (omega arith, (omega arith, (omega arith, (omega arith, tt))))), tt),
)

-- a switch that connects, an error, and a switch that connects again
abbrev accepted : List (Option ℕ)
accepted = some 1 ∷ none ∷ some 2 ∷ []

abbrev served : OfConnect ℕ ℕ
unfolding serve
served = serve accepted new_of_connect

serve_lem_example :
    Reachable served
    × (served.conn ≡ last_of none accepted)
    × (served.queue ≡ no_messages)
    × (served.written ≡ [])
    × (served.sent ≡ no_messages)
unfolding served serve
serve_lem_example = serve_lem accepted new_of_connect start

-- two connections, of which the second hands on its message first
abbrev two_conns : Channel (List ℕ)
two_conns = open_conn (λ m. m) (echo_bytes ∷ []) (open_conn (λ m. m) (echo_bytes ∷ []) new_channel)

abbrev handed_on : List (Handler (List ℕ))
handed_on =
    record { segments = echo_bytes ∷ []; pending = echo_bytes ∷ [] }
    ∷ record { segments = echo_bytes ∷ []; pending = [] }
    ∷ []

abbrev after_one : Channel (List ℕ)
after_one = receive 1 echo_bytes handed_on two_conns

after_one-Exchanged : Exchanged (λ m. m) after_one
unfolding open_conn new_handler handle_conn message_length fill read_into take
after_one-Exchanged =
    receives 1 echo_bytes _ (opens (echo_bytes ∷ []) (opens (echo_bytes ∷ []) Exchanged.start))
      (other next)

received_in_order_example : from_conn 1 after_one.received ++ [] ≡ echo_bytes ∷ []
unfolding message_length
received_in_order_example =
    received_in_order (λ m. m) after_one after_one-Exchanged 1 ((echo_bytes, []) ∷ []) refl
      (((omega arith, refl), omega arith), tt)

-- a host whose port 6653 is free, and one where it is taken
abbrev free : Tcp String ℕ
free = record {
  resolve_tcp_addr = λ network address. ok address;
  listen_tcp = λ network address. if str_eq address ":6653" then ok 3 else err (msg "no such port");
}

abbrev in_use : Tcp String ℕ
in_use = record free { listen_tcp = λ network address. err (msg "address already in use") }

open_of_connect_test :
    (open_of_connect {C = ℕ} {Msg = ℕ} free ≡ ok (3, new_of_connect))
    × (open_of_connect {C = ℕ} {Msg = ℕ} in_use ≡ err (msg "address already in use"))
unfolding open_of_connect format
open_of_connect_test = (refl, refl)
