-- ===== src/Connection/Queue.antt =====
-- What holds whenever the goroutines of connection/connection.go have taken any steps.
use k_vswitch.Prelude.{
  ◌≡◌, refl, ap, sym, ◌∙◌, ◌≢◌, Bool, true, false, Option, none, some, List, [], ◌∷◌, ◌++◌, map,
  is_empty,
}
use mathlib.Core.Path.{subst}
use mathlib.Core.List.{append_assoc, map-append}
use k_vswitch.Result.{Result, ok, err, panic}
use k_vswitch.Connection.{
  Phase, at_conn, waits_for_conn, at_queue, waits_for_message, woken, at_head, OfConnect,
  write_head, check_conn, check_queue, process, Step, sends, connects, processes, Reachable, start,
  after, wake_for_message, wake_for_conn,
}

-- Whoever is about to read the head of the queue finds one.
abbrev pub HasHead : {A : Type 0} → Phase → List A → Type 0
HasHead woken queue = is_empty queue ≡ false
HasHead at_head queue = is_empty queue ≡ false
HasHead _ queue = Unit

HasHead-check_conn : {C Msg : Type 0} (c : Option C) (q : List Msg) → HasHead (check_conn c) q
HasHead-check_conn none q = tt
HasHead-check_conn (some c) q = tt

module _ {Msg : Type 0} where
  HasHead-check_queue : (q : List Msg) → HasHead (check_queue q) q
  HasHead-check_queue [] = tt
  HasHead-check_queue (m ∷ ms) = refl

  is_empty-append : (q : List Msg) (m : Msg) → is_empty (q ++ (m ∷ [])) ≡ false
  is_empty-append [] m = refl
  is_empty-append (x ∷ q) m = refl

  HasHead-send : (p : Phase) (q : List Msg) (m : Msg) → HasHead (wake_for_message p) (q ++ (m ∷ []))
  HasHead-send at_conn q m = tt
  HasHead-send waits_for_conn q m = tt
  HasHead-send at_queue q m = tt
  HasHead-send waits_for_message q m = is_empty-append q m
  HasHead-send woken q m = is_empty-append q m
  HasHead-send at_head q m = is_empty-append q m

  HasHead-connect : (p : Phase) (q : List Msg) → HasHead p q → HasHead (wake_for_conn p) q
  HasHead-connect at_conn q h = tt
  HasHead-connect waits_for_conn q h = tt
  HasHead-connect at_queue q h = tt
  HasHead-connect waits_for_message q h = tt
  HasHead-connect woken q h = h
  HasHead-connect at_head q h = h

module _ {C Msg : Type 0} where
  -- What was sent is what was written, and then what is queued.
  pub record IsOrdered (w : OfConnect C Msg) : Type 0 where
    pub order : w.sent ≡ map (λ (x : C × Msg). x.1) w.written ++ w.queue
    pub head : HasHead w.phase w.queue

  -- A step ends in an ordered state, if it does not panic.
  abbrev Ends : Result (OfConnect C Msg) → Type 0
  Ends (ok w) = IsOrdered w
  Ends (err e) = Unit
  Ends panic = ⊥

  write_head-Ends :
      (accepted : Bool) (q : List Msg) (c : Option C) (w : OfConnect C Msg)
      → w.queue ≡ q
      → is_empty q ≡ false
      → IsOrdered w
      → Ends (write_head accepted q c w)
  unfolding write_head
  write_head-Ends accepted [] c w e h i = cc
  write_head-Ends accepted (m ∷ ms) none w e h i = record { order = i.order; head = tt }
  write_head-Ends false (m ∷ ms) (some c) w e h i = record { order = i.order; head = tt }
  write_head-Ends true (m ∷ ms) (some c) w e h i = record {
    order =
        i.order
        ∙ ap (λ q. map (λ (x : C × Msg). x.1) w.written ++ q) e
        ∙ sym (append_assoc (map (λ (x : C × Msg). x.1) w.written) (m ∷ []) ms)
        ∙ ap (λ l. l ++ ms) (sym (map-append (λ (x : C × Msg). x.1) w.written ((c, m) ∷ [])));
    head = tt;
  }

  process-Ends :
      (accepted : Bool) (p : Phase) (w : OfConnect C Msg)
      → w.phase ≡ p
      → HasHead p w.queue
      → IsOrdered w
      → Ends (process accepted p w)
  unfolding process
  process-Ends accepted at_conn w e h i = record {
    order = i.order;
    head = HasHead-check_conn w.conn w.queue;
  }
  process-Ends accepted waits_for_conn w e h i = i
  process-Ends accepted at_queue w e h i = record {
    order = i.order;
    head = HasHead-check_queue w.queue;
  }
  process-Ends accepted waits_for_message w e h i = i
  process-Ends accepted woken w e h i = record { order = i.order; head = h }
  process-Ends accepted at_head w e h i = write_head-Ends accepted w.queue w.conn w refl h i

  ended : (r : Result (OfConnect C Msg)) (v : OfConnect C Msg) → r ≡ ok v → Ends r → IsOrdered v
  ended r v e h = subst Ends e h

  not_panicked : (r : Result (OfConnect C Msg)) → Ends r → r ≢ panic
  not_panicked r h e = subst Ends e h

  Step-IsOrdered : (w v : OfConnect C Msg) → Step w v → IsOrdered w → IsOrdered v
  Step-IsOrdered w _ (sends m free) i = record {
    order =
        ap (λ l. l ++ (m ∷ [])) i.order
        ∙ append_assoc (map (λ (x : C × Msg). x.1) w.written) w.queue (m ∷ []);
    head = HasHead-send w.phase w.queue m;
  }
  Step-IsOrdered w _ (connects c) i = record {
    order = i.order;
    head = HasHead-connect w.phase w.queue i.head;
  }
  Step-IsOrdered w v (processes accepted e) i =
      ended (process accepted w.phase w) v e (process-Ends accepted w.phase w refl i.head i)

  Reachable-IsOrdered : (w : OfConnect C Msg) → Reachable w → IsOrdered w
  Reachable-IsOrdered _ start = record { order = refl; head = tt }
  Reachable-IsOrdered v (after {w} r s) = Step-IsOrdered w v s (Reachable-IsOrdered w r)

  -- In every interleaving of `Send`, `SetConnection` and `ProcessQueue`, with any failures of the
  -- connection: the messages written, followed by those queued, are the messages sent, in their
  -- order, each one once; and the next step of `ProcessQueue` does not read the head of an empty
  -- queue.
  pub queue_in_order :
      (w : OfConnect C Msg)
      → Reachable w
      → (w.sent ≡ map (λ (x : C × Msg). x.1) w.written ++ w.queue)
        × ((accepted : Bool) → process accepted w.phase w ≢ panic)
  queue_in_order w r =
      let i = Reachable-IsOrdered w r in
      (
        i.order,
        λ accepted.
            not_panicked (process accepted w.phase w)
              (process-Ends accepted w.phase w refl i.head i),
      )
