-- ===== src/Connection/Serving.antt =====
-- The loop of `Serve` of connection/connection.go.
use k_vswitch.Prelude.{◌≡◌, refl, Option, none, some, List, [], ◌∷◌}
use k_vswitch.Connection.{OfConnect, set_connection, serve, connects, Reachable, after}

-- the last connection of a list, or the one from before
abbrev pub last_of : {C : Type 0} → Option C → List (Option C) → Option C
last_of conn [] = conn
last_of conn (none ∷ accepted) = last_of conn accepted
last_of conn (some c ∷ accepted) = last_of (some c) accepted

module _ {C Msg : Type 0} where
  -- Whatever AcceptTCP answers: `Serve` takes steps of the goroutines' relation only, the connection
  -- is the last one accepted, or that from before where none is, and neither the queue nor what was
  -- written and sent changes.
  pub serve_lem :
      (accepted : List (Option C)) (w : OfConnect C Msg)
      → Reachable w
      → let v = serve accepted w in
        Reachable v
        × (v.conn ≡ last_of w.conn accepted)
        × (v.queue ≡ w.queue)
        × (v.written ≡ w.written)
        × (v.sent ≡ w.sent)
  unfolding serve
  serve_lem [] w r = (r, refl, refl, refl, refl)
  serve_lem (none ∷ accepted) w r = serve_lem accepted w r
  serve_lem (some c ∷ accepted) w r = serve_lem accepted (set_connection c w) (after r (connects c))
