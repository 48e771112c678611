-- ===== src/Connection/Channel.antt =====
-- `NewOFConnect`, and the channel of connection/connection.go between the goroutines of
-- `handleConn`, which hand on what they read, and `Receive`. net and ofp13 are parameters.
pub mod Laws
use k_vswitch.Prelude.{
  ℕ, zero, suc, ◌≡◌, refl, sym, ap, ◌∙◌, String, Bool, true, false, List, [], ◌∷◌, ◌++◌, map,
  length, ◌==◌, if◌then◌else◌, pos, ℤ, get_or,
}
use k_vswitch.Text
use k_vswitch.Text.Decimal.{format}
use k_vswitch.Result.{Result, ok, err, panic, ◌>>=◌}
use k_vswitch.Connection.{OfConnect, new_of_connect, handle_conn}

abbrev pub listen_port : ℤ
listen_port = pos 6653

-- net.ResolveTCPAddr and net.ListenTCP
pub record Tcp (Addr L : Type 0) : Type 0 where
  pub resolve_tcp_addr : String → String → Result Addr
  pub listen_tcp : String → Addr → Result L

-- NewOFConnect: the listener, and the queue with no connection
unfoldable pub open_of_connect : {Addr L C Msg : Type 0} → Tcp Addr L → Result (L × OfConnect C Msg)
open_of_connect tcp = do
  addr ← tcp.resolve_tcp_addr "tcp" (Text.◌++◌ ":" (format listen_port))
  listener ← tcp.listen_tcp "tcp" addr
  ok (listener, new_of_connect)

module _ (Msg : Type 0) where
  -- a goroutine of `handleConn`: what the Reads of its connection return, and the messages that it
  -- has not handed on yet
  pub record Handler : Type 0 where
    pub segments : List (List ℕ)
    pub pending : List Msg

  -- The goroutines, the first started first. `received` lists what `Receive` returned, with the
  -- goroutine that it came from.
  pub record Channel : Type 0 where
    pub handlers : List Handler
    pub received : List (ℕ × Msg)

module _ {Msg : Type 0} where
  abbrev pub new_channel : Channel Msg
  new_channel = record { handlers = []; received = [] }

  -- `parse` is ParseMessage
  unfoldable pub new_handler : (List ℕ → Msg) → List (List ℕ) → Handler Msg
  unfolding handle_conn
  new_handler parse segments = record {
    segments = segments;
    pending = map parse (handle_conn [] segments);
  }

  -- A goroutine hands on its next message: the channel has no buffer, so that `receiveCh <- msg`
  -- and `<-receiveCh` are one step.
  pub data HandsOn : List (Handler Msg) → ℕ → Msg → List (Handler Msg) → Type 0 where
    next :
        {segments : List (List ℕ)} {m : Msg} {ms : List Msg} {rest : List (Handler Msg)}
        → HandsOn
            (record { segments = segments; pending = m ∷ ms } ∷ rest)
            0
            m
            (record { segments = segments; pending = ms } ∷ rest)
    other :
        {h : Handler Msg} {hs gs : List (Handler Msg)} {i : ℕ} {m : Msg}
        → HandsOn hs i m gs
        → HandsOn (h ∷ hs) (suc i) m (h ∷ gs)

  -- `go of.handleConn(conn)`, over the segments that the connection returns
  unfoldable pub open_conn : (List ℕ → Msg) → List (List ℕ) → Channel Msg → Channel Msg
  unfolding new_handler
  open_conn parse segments w = record w {
    handlers = w.handlers ++ (new_handler parse segments ∷ []);
  }

  -- Receive
  abbrev pub receive : ℕ → Msg → List (Handler Msg) → Channel Msg → Channel Msg
  receive i m handlers w = record w { handlers = handlers; received = w.received ++ ((i, m) ∷ []) }

  -- the states of the channel, with any interleaving
  pub data Exchanged (parse : List ℕ → Msg) : Channel Msg → Type 0 where
    start : Exchanged parse new_channel
    opens :
        {w : Channel Msg} (segments : List (List ℕ))
        → Exchanged parse w
        → Exchanged parse (open_conn parse segments w)
    receives :
        {w : Channel Msg} (i : ℕ) (m : Msg) (handlers : List (Handler Msg))
        → Exchanged parse w
        → HandsOn w.handlers i m handlers
        → Exchanged parse (receive i m handlers w)
