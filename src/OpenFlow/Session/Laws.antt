-- ===== src/OpenFlow/Session/Laws.antt =====
-- What the session answers and learns over a whole run of messages.
use k_vswitch.Prelude.{ℕ, ◌≡◌, ap, sym, ◌∙◌, List, [], ◌∷◌, ◌++◌}
use mathlib.Core.List.{append-nil, append_assoc}
use k_vswitch.OpenFlow.Session.{
  Message, echo_request, echo_reply, other_header, hello, switch_features, other_message, Request,
  echo_answer, features_request, say_hello, Session, on_message, run, initialize, send,
}

-- the answers to a list of messages
abbrev pub answers : List Message → List Request
answers [] = []
answers (echo_request ∷ ms) = echo_answer ∷ answers ms
answers (hello ∷ ms) = features_request ∷ answers ms
answers (_ ∷ ms) = answers ms

-- the id of the last features message
abbrev pub last_id : List Message → ℕ → ℕ
last_id [] id = id
last_id (switch_features new ∷ ms) id = last_id ms new
last_id (_ ∷ ms) id = last_id ms id

run_lem :
    (ms : List Message) (s : Session)
    → run ms s ≡ record { datapath_id = last_id ms s.datapath_id; sent = s.sent ++ answers ms }
unfolding run on_message
run_lem [] s = ap (λ q. record s { sent = q }) (sym (append-nil s.sent))
run_lem (echo_request ∷ ms) s =
    run_lem ms (send echo_answer s)
    ∙ ap (λ q. record { datapath_id = last_id ms s.datapath_id; sent = q })
        (append_assoc s.sent (echo_answer ∷ []) (answers ms))
run_lem (hello ∷ ms) s =
    run_lem ms (send features_request s)
    ∙ ap (λ q. record { datapath_id = last_id ms s.datapath_id; sent = q })
        (append_assoc s.sent (features_request ∷ []) (answers ms))
run_lem (echo_reply ∷ ms) s = run_lem ms s
run_lem (other_header ∷ ms) s = run_lem ms s
run_lem (switch_features id ∷ ms) s = run_lem ms (record s { datapath_id = id })
run_lem (other_message ∷ ms) s = run_lem ms s

-- After `Initialize` and any messages, exactly the hello, one answer for each echo request and one
-- features request for each hello were sent, in that order, and the datapath id is that of the last
-- features message.
pub run-initialize :
    (ms : List Message) (s : Session)
    → run ms (initialize s)
      ≡ record { datapath_id = last_id ms s.datapath_id; sent = s.sent ++ (say_hello ∷ answers ms) }
run-initialize ms s =
    run_lem ms (initialize s)
    ∙ ap (λ q. record { datapath_id = last_id ms s.datapath_id; sent = q })
        (append_assoc s.sent (say_hello ∷ []) (answers ms))
