-- ===== src/Connection/Progress.antt =====
-- `ProcessQueue` of connection/connection.go does not sleep while there is work, and empties the
-- queue.
use k_vswitch.Prelude.{
  ℕ, suc, ◌+◌, ◌*◌, ◌≤◌, ◌≡◌, refl, sym, ap, ◌∙◌, Bool, true, false, Option, none, some, List, [],
  ◌∷◌, ◌++◌, map, length, arith,
}
use mathlib.Core.Path.{subst}
use mathlib.Core.List.{append-nil, append_assoc}
use k_vswitch.Result.{Result, ok}
use k_vswitch.Connection.{
  Phase, at_conn, waits_for_conn, at_queue, waits_for_message, woken, at_head, OfConnect,
  check_conn, check_queue, write_head, process, run_queue, Step, sends, connects, processes,
  Reachable, start, after, wake_for_message, wake_for_conn,
}

-- It sleeps only where there is no connection, or nothing to send.
abbrev pub IsAwake : {C Msg : Type 0} → Phase → Option C → List Msg → Type 0
IsAwake waits_for_conn conn queue = conn ≡ none
IsAwake waits_for_message conn queue = queue ≡ []
IsAwake _ conn queue = Unit

module _ {Msg : Type 0} where
  -- the steps that write a queue, from the check of the connection on
  abbrev steps : List Msg → ℕ
  steps [] = 0
  steps (m ∷ q) = suc (suc (suc (steps q)))

  steps-length : (q : List Msg) → steps q ≡ 3 * length q
  steps-length [] = omega arith
  steps-length (m ∷ q) = omega (arith, steps-length q)

module _ {C Msg : Type 0} where
  IsAwake-check_conn : (conn : Option C) (q : List Msg) → IsAwake (check_conn conn) conn q
  IsAwake-check_conn none q = refl
  IsAwake-check_conn (some c) q = tt

  IsAwake-check_queue : (conn : Option C) (q : List Msg) → IsAwake (check_queue q) conn q
  IsAwake-check_queue conn [] = refl
  IsAwake-check_queue conn (m ∷ q) = tt

  IsAwake-send :
      (p : Phase) (conn : Option C) (q q' : List Msg)
      → IsAwake p conn q
      → IsAwake (wake_for_message p) conn q'
  IsAwake-send at_conn conn q q' h = tt
  IsAwake-send waits_for_conn conn q q' h = h
  IsAwake-send at_queue conn q q' h = tt
  IsAwake-send waits_for_message conn q q' h = tt
  IsAwake-send woken conn q q' h = tt
  IsAwake-send at_head conn q q' h = tt

  IsAwake-connect :
      (p : Phase) (conn conn' : Option C) (q : List Msg)
      → IsAwake p conn q
      → IsAwake (wake_for_conn p) conn' q
  IsAwake-connect at_conn conn conn' q h = tt
  IsAwake-connect waits_for_conn conn conn' q h = tt
  IsAwake-connect at_queue conn conn' q h = tt
  IsAwake-connect waits_for_message conn conn' q h = h
  IsAwake-connect woken conn conn' q h = tt
  IsAwake-connect at_head conn conn' q h = tt

  abbrev Awake : OfConnect C Msg → Type 0
  Awake w = IsAwake w.phase w.conn w.queue

  abbrev Ends : Result (OfConnect C Msg) → Type 0
  Ends (ok w) = Awake w
  Ends _ = Unit

  write_head-Ends :
      (accepted : Bool) (q : List Msg) (conn : Option C) (w : OfConnect C Msg)
      → Ends (write_head accepted q conn w)
  unfolding write_head
  write_head-Ends accepted [] conn w = tt
  write_head-Ends accepted (m ∷ ms) none w = tt
  write_head-Ends true (m ∷ ms) (some c) w = tt
  write_head-Ends false (m ∷ ms) (some c) w = tt

  process-Ends :
      (accepted : Bool) (p : Phase) (w : OfConnect C Msg) → Awake w → Ends (process accepted p w)
  unfolding process
  process-Ends accepted at_conn w h = IsAwake-check_conn w.conn w.queue
  process-Ends accepted waits_for_conn w h = h
  process-Ends accepted at_queue w h = IsAwake-check_queue w.conn w.queue
  process-Ends accepted waits_for_message w h = h
  process-Ends accepted woken w h = tt
  process-Ends accepted at_head w h = write_head-Ends accepted w.queue w.conn w

  Step-Awake : (w v : OfConnect C Msg) → Step w v → Awake w → Awake v
  Step-Awake w _ (sends m free) h = IsAwake-send w.phase w.conn w.queue (w.queue ++ (m ∷ [])) h
  Step-Awake w _ (connects c) h = IsAwake-connect w.phase w.conn (some c) w.queue h
  Step-Awake w v (processes accepted e) h = subst Ends e (process-Ends accepted w.phase w h)

  Reachable-Awake : (w : OfConnect C Msg) → Reachable w → Awake w
  Reachable-Awake _ start = tt
  Reachable-Awake v (after {w} r s) = Step-Awake w v s (Reachable-Awake w r)

  abbrev state :
      Phase → C → (queue : List Msg) (written : List (C × Msg)) (sent : List Msg) → OfConnect C Msg
  state p c queue written sent = record {
    queue = queue;
    conn = some c;
    phase = p;
    written = written;
    sent = sent;
  }

  drain :
      (c : C) (q : List Msg) (written : List (C × Msg)) (sent : List Msg)
      → run_queue (steps q) (state at_conn c q written sent)
        ≡ ok (state at_conn c [] (written ++ map (λ m. (c, m)) q) sent)
  unfolding run_queue process write_head
  drain c [] written sent = ap (λ l. ok (state at_conn c [] l sent)) (sym (append-nil written))
  drain c (m ∷ q) written sent =
      drain c q (written ++ ((c, m) ∷ [])) sent
      ∙ ap (λ l. ok (state at_conn c [] l sent))
          (append_assoc written ((c, m) ∷ []) (map (λ m. (c, m)) q))

  -- `w` is emptied in at most `bound` steps, over the connection `c`.
  pub record Drains (c : C) (bound : ℕ) (w : OfConnect C Msg) : Type 0 where
    pub fuel : ℕ
    pub few : fuel ≤ bound
    pub last : OfConnect C Msg
    pub runs : run_queue fuel w ≡ ok last
    pub empty : last.queue ≡ []
    pub wrote : last.written ≡ w.written ++ map (λ m. (c, m)) w.queue

  module _ (c : C) (written : List (C × Msg)) (sent : List Msg) where
    nothing_to_do : (p : Phase) (bound : ℕ) → Drains c bound (state p c [] written sent)
    unfolding run_queue
    nothing_to_do p bound = record {
      fuel = 0;
      few = omega arith;
      last = state p c [] written sent;
      runs = refl;
      empty = refl;
      wrote = sym (append-nil written);
    }

    -- a message is at the head, and its writing is among the first steps
    from_head :
        (p : Phase) (fuel : ℕ) (m : Msg) (q : List Msg)
        → fuel ≤ 3 + steps q
        → run_queue fuel (state p c (m ∷ q) written sent)
          ≡ run_queue (steps q) (state at_conn c q (written ++ ((c, m) ∷ [])) sent)
        → Drains c (3 * length (m ∷ q)) (state p c (m ∷ q) written sent)
    from_head p fuel m q h e = record {
      fuel = fuel;
      few = omega (arith, h, steps-length q);
      last = state at_conn c [] ((written ++ ((c, m) ∷ [])) ++ map (λ m. (c, m)) q) sent;
      runs = e ∙ drain c q (written ++ ((c, m) ∷ [])) sent;
      empty = refl;
      wrote = append_assoc written ((c, m) ∷ []) (map (λ m. (c, m)) q);
    }

    by_phase :
        (p : Phase) (q : List Msg)
        → IsAwake p (some c) q
        → Drains c (3 * length q) (state p c q written sent)
    unfolding run_queue process write_head
    by_phase p [] h = nothing_to_do p 0
    by_phase at_conn (m ∷ q) h =
        from_head at_conn (suc (suc (suc (steps q)))) m q (omega arith) refl
    by_phase at_queue (m ∷ q) h = from_head at_queue (suc (suc (steps q))) m q (omega arith) refl
    by_phase woken (m ∷ q) h = from_head woken (suc (suc (steps q))) m q (omega arith) refl
    by_phase at_head (m ∷ q) h = from_head at_head (suc (steps q)) m q (omega arith) refl
    by_phase waits_for_conn (m ∷ q) h = cc
    by_phase waits_for_message (m ∷ q) h = cc

  -- In every state that `Send`, `SetConnection` and `ProcessQueue` reach with a connection: if the
  -- connection takes what is written, at most three steps of `ProcessQueue` for each message of the
  -- queue empty it, with every message written to that connection in the order of the queue.
  pub run_queue-Drains :
      (w : OfConnect C Msg) (c : C)
      → Reachable w
      → w.conn ≡ some c
      → Drains c (3 * length w.queue) w
  run_queue-Drains w c r connected = by_conn w.conn connected (Reachable-Awake w r)
    where
      by_conn :
          (conn : Option C)
          → conn ≡ some c
          → IsAwake w.phase conn w.queue
          → Drains c (3 * length w.queue) (record {
            queue = w.queue;
            conn = conn;
            phase = w.phase;
            written = w.written;
            sent = w.sent;
          })
      by_conn conn e h =
          subst
            (λ conn. Drains c (3 * length w.queue) (record {
              queue = w.queue;
              conn = conn;
              phase = w.phase;
              written = w.written;
              sent = w.sent;
            }))
            (sym e)
            (by_phase c w.written w.sent w.phase w.queue
              (subst (λ o. IsAwake w.phase o w.queue) e h))
