-- ===== src/Connection.antt =====
-- connection/connection.go and connection/openflow.go: the queue of messages to the switch, and
-- the reading of messages from it. Messages and connections are parameters; what ofp13 makes of
-- the bytes of a message is not part of it.
pub mod Channel
pub mod Queue
pub mod Reader
pub mod Progress
pub mod Bounds
pub mod Serving
pub mod Tests
use k_vswitch.Prelude.{
  ℕ, zero, suc, ◌+◌, ◌-◌, ◌*◌, ◌≡◌, Bool, true, false, Option, none, some, List, [], ◌∷◌, ◌++◌,
  length, leb, if◌then◌else◌,
}
use k_vswitch.Result.{Result, ok, panic, ◌>>=◌}

-- Where the goroutine of `ProcessQueue` stands. In `at_head` it holds `queueMu`; in `woken` it was
-- woken by a broadcast of `Send` and does not hold it.
pub data Phase : Type 0 where
  at_conn waits_for_conn at_queue waits_for_message woken at_head : Phase

-- SetConnection's broadcast
abbrev pub wake_for_conn : Phase → Phase
wake_for_conn waits_for_conn = at_queue
wake_for_conn p = p

-- Send's broadcast
abbrev pub wake_for_message : Phase → Phase
wake_for_message waits_for_message = woken
wake_for_message p = p

abbrev pub holds_queue : Phase → Bool
holds_queue at_head = true
holds_queue _ = false

-- if of.conn == nil { Wait }
abbrev pub check_conn : {C : Type 0} → Option C → Phase
check_conn none = waits_for_conn
check_conn (some c) = at_queue

-- if len(of.queue) == 0 { Wait }
abbrev pub check_queue : {Msg : Type 0} → List Msg → Phase
check_queue [] = waits_for_message
check_queue (m ∷ ms) = at_head

module _ (C Msg : Type 0) where
  -- `written` lists what `conn.Write` took, and `sent` what `Send` was called with, the oldest
  -- first.
  pub record OfConnect : Type 0 where
    pub queue : List Msg
    pub conn : Option C
    pub phase : Phase
    pub written : List (C × Msg)
    pub sent : List Msg

module _ {C Msg : Type 0} where
  abbrev pub new_of_connect : OfConnect C Msg
  new_of_connect = record { queue = []; conn = none; phase = at_conn; written = []; sent = [] }

  abbrev pub send : Msg → OfConnect C Msg → OfConnect C Msg
  send m w = record w {
    queue = w.queue ++ (m ∷ []);
    phase = wake_for_message w.phase;
    sent = w.sent ++ (m ∷ []);
  }

  abbrev pub set_connection : C → OfConnect C Msg → OfConnect C Msg
  set_connection c w = record w { conn = some c; phase = wake_for_conn w.phase }

  -- WriteConnection, and the pop of the head after it; `accepted` is whether conn.Write had no
  -- error
  unfoldable pub write_head :
      Bool → List Msg → Option C → OfConnect C Msg → Result (OfConnect C Msg)
  write_head accepted [] conn w = panic
  write_head accepted (m ∷ ms) none w = ok (record w { phase = at_conn })
  write_head true (m ∷ ms) (some c) w =
      ok (record w { queue = ms; phase = at_conn; written = w.written ++ ((c, m) ∷ []) })
  write_head false (m ∷ ms) (some c) w = ok (record w { phase = at_conn })

  -- the next step of `ProcessQueue`, where it is not blocked
  unfoldable pub process : Bool → Phase → OfConnect C Msg → Result (OfConnect C Msg)
  unfolding write_head
  process accepted at_conn w = ok (record w { phase = check_conn w.conn })
  process accepted waits_for_conn w = ok w
  process accepted at_queue w = ok (record w { phase = check_queue w.queue })
  process accepted waits_for_message w = ok w
  process accepted woken w = ok (record w { phase = at_head })
  process accepted at_head w = write_head accepted w.queue w.conn w

  -- the loop of `ProcessQueue` for a number of steps, over a connection that takes what is written
  unfoldable pub run_queue : ℕ → OfConnect C Msg → Result (OfConnect C Msg)
  unfolding process
  run_queue zero w = ok w
  run_queue (suc n) w = process true w.phase w >>= run_queue n

  -- the loop of `Serve` on what AcceptTCP answers, `none` for an error
  unfoldable pub serve : List (Option C) → OfConnect C Msg → OfConnect C Msg
  serve [] w = w
  serve (none ∷ accepted) w = serve accepted w
  serve (some c ∷ accepted) w = serve accepted (set_connection c w)

  -- One step of any goroutine. `Send` needs the lock of the queue.
  pub data Step : OfConnect C Msg → OfConnect C Msg → Type 0 where
    sends : {w : OfConnect C Msg} (m : Msg) → holds_queue w.phase ≡ false → Step w (send m w)
    connects : {w : OfConnect C Msg} (c : C) → Step w (set_connection c w)
    processes :
        {w v : OfConnect C Msg} (accepted : Bool) → process accepted w.phase w ≡ ok v → Step w v

  -- the states after `NewOFConnect`
  pub data Reachable : OfConnect C Msg → Type 0 where
    start : Reachable new_of_connect
    after : {w v : OfConnect C Msg} → Reachable w → Step w v → Reachable v

-- MessageLength: two bytes of the header, the first one the higher. A shorter header is out of
-- range.
unfoldable pub message_length : List ℕ → Result ℕ
message_length (version ∷ kind ∷ high ∷ low ∷ rest) = ok (high * 256 + low)
message_length _ = panic

-- the buffer of a message, filled with what was read, and zero after it
unfoldable pub fill : ℕ → List ℕ → List ℕ
fill zero read = []
fill (suc n) [] = 0 ∷ fill n []
fill (suc n) (b ∷ read) = b ∷ fill n read

abbrev pub message_of : Result ℕ → List ℕ → List ℕ
message_of (ok n) read = fill n read
message_of _ read = []

-- the size of the buffer of a bufio.NewReader
abbrev pub buffer_size : ℕ
buffer_size = 4096

unfoldable pub take : ℕ → List ℕ → List ℕ
take zero bytes = []
take (suc n) [] = []
take (suc n) (b ∷ bytes) = b ∷ take n bytes

-- One Read of the connection into the free part of the reader's buffer. Read returns no more than
-- fits there.
unfoldable pub read_into : List ℕ → List ℕ → List ℕ
unfolding take
read_into read segment = read ++ take (buffer_size - length read) segment

-- `handleConn` on the segments that the Reads of the connection return one after the other, up to
-- the end of the file: the messages that it hands on. A reader reads until its buffer has a header,
-- and fills the message from what it has then; the next message is read by a new reader. A header
-- has 8 bytes, so that MessageLength does not panic.
unfoldable pub handle_conn : List ℕ → List (List ℕ) → List (List ℕ)
unfolding message_length fill read_into
handle_conn read [] = []
handle_conn read (segment ∷ segments) =
    let more = read_into read segment in
    elim (leb 8 (length more)) [
      | true ↦ message_of (message_length more) more ∷ handle_conn [] segments
      | false ↦ handle_conn more segments
    ]
