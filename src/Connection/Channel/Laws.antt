-- ===== src/Connection/Channel/Laws.antt =====
-- Every message that `handleConn` of connection/connection.go hands on is received once, and those
-- of one connection in their order.
use mathlib.Core.List.{append-nil, append_assoc}
use k_vswitch.Prelude.{
  ℕ, zero, suc, ◌≡◌, refl, sym, ap, ◌∙◌, false, List, [], ◌∷◌, ◌++◌, map, get_or, ◌==◌,
  if◌then◌else◌, arith, Bool-cases, inl, inr, All,
}
use k_vswitch.Connection.{handle_conn}
use k_vswitch.Connection.Reader.{IsRead, handle_conn-map}
use k_vswitch.Connection.Channel.{
  Handler, Channel, new_handler, open_conn, HandsOn, next, other, Exchanged, start, opens, receives,
}

suc_eq : (i j : ℕ) → (suc i == suc j) ≡ (i == j)
suc_eq i j = ground arith

zero_suc : (j : ℕ) → (0 == suc j) ≡ false
zero_suc j = ground arith

suc_zero : (i : ℕ) → (suc i == 0) ≡ false
suc_zero i = ground arith

module _ {Msg : Type 0} where
  -- the messages of one connection, the oldest first
  abbrev pub from_conn : ℕ → List (ℕ × Msg) → List Msg
  from_conn i [] = []
  from_conn i ((j, m) ∷ ms) = let rest = from_conn i ms in if j == i then m ∷ rest else rest

  from_conn-append :
      (i : ℕ) (xs ys : List (ℕ × Msg)) → from_conn i (xs ++ ys) ≡ from_conn i xs ++ from_conn i ys
  from_conn-append i [] ys = refl
  from_conn-append i ((j, m) ∷ xs) ys = elim (Bool-cases (j == i)) [
    | inl e ↦ rw (e, from_conn-append i xs ys) refl
    | inr e ↦ rw (e, from_conn-append i xs ys) refl
  ]

  abbrev pub no_handler : Handler Msg
  no_handler = record { segments = []; pending = [] }

  abbrev pub handler : List (Handler Msg) → ℕ → Handler Msg
  handler hs i = get_or hs i no_handler

  -- what a step takes from the messages of one connection
  taken :
      (hs gs : List (Handler Msg)) (i : ℕ) (m : Msg)
      → HandsOn hs i m gs
      → (j : ℕ)
      → ((handler hs j).segments ≡ (handler gs j).segments)
        × ((handler hs j).pending ≡ from_conn j ((i, m) ∷ []) ++ (handler gs j).pending)
  taken _ _ _ m next zero = (refl, refl)
  taken _ _ _ m next (suc j) = (refl, rw (zero_suc j) refl)
  taken _ _ _ m (other {i} step) zero = (refl, rw (suc_zero i) refl)
  taken _ _ _ m (other {h} {hs} {gs} {i} step) (suc j) =
      let (same, more) = taken hs gs i m step j in (same, rw (suc_eq i j) more)

  -- what holds of every connection when one is added
  added :
      (P : ℕ → Handler Msg → Type 0) (hs : List (Handler Msg)) (h : Handler Msg)
      → ((i : ℕ) → P i (handler hs i))
      → ((i : ℕ) → P i no_handler → P i h)
      → (i : ℕ) → P i (handler (hs ++ (h ∷ [])) i)
  added P [] h all new zero = new 0 (all 0)
  added P [] h all new (suc i) = all (suc i)
  added P (g ∷ hs) h all new zero = all 0
  added P (g ∷ hs) h all new (suc i) =
      added (λ i. P (suc i)) hs h (λ i. all (suc i)) (λ i. new (suc i)) i

  in_order :
      (parse : List ℕ → Msg) (w : Channel Msg)
      → Exchanged parse w
      → (i : ℕ)
      → map parse (handle_conn [] (handler w.handlers i).segments)
        ≡ from_conn i w.received ++ (handler w.handlers i).pending
  unfolding handle_conn open_conn new_handler
  in_order parse _ start i = refl
  in_order parse _ (opens {w} segments r) i =
      added (λ i h. map parse (handle_conn [] h.segments) ≡ from_conn i w.received ++ h.pending)
        w.handlers (new_handler parse segments) (in_order parse w r)
        (λ i e.
          ap (λ l. l ++ map parse (handle_conn [] segments))
            (e ∙ append-nil (from_conn i w.received)))
        i
  in_order parse _ (receives {w} i m handlers r step) j =
      let (same, more) = taken w.handlers handlers i m step j in
      ap (λ (s : List (List ℕ)). map parse (handle_conn [] s)) (sym same)
      ∙ in_order parse w r j
      ∙ ap (λ l. from_conn j w.received ++ l) more
      ∙ sym (append_assoc (from_conn j w.received) (from_conn j ((i, m) ∷ [])) _)
      ∙ ap (λ l. l ++ (handler handlers j).pending)
          (sym (from_conn-append j w.received ((i, m) ∷ [])))

  -- In every interleaving, for every connection each of whose Reads returns a whole message and what
  -- follows it, 4096 bytes at most together: what `Receive` returned from it, followed by what its
  -- goroutine has still to hand on, are the messages that begin its Reads, each parsed, in their order
  -- and once each.
  pub received_in_order :
      (parse : List ℕ → Msg) (w : Channel Msg)
      → Exchanged parse w
      → (i : ℕ) (parts : List (List ℕ × List ℕ))
      → (handler w.handlers i).segments ≡ map (λ (x : List ℕ × List ℕ). x.0 ++ x.1) parts
      → All IsRead parts
      → from_conn i w.received ++ (handler w.handlers i).pending
        ≡ map parse (map (λ (x : List ℕ × List ℕ). x.0) parts)
  received_in_order parse w r i parts reads are_reads =
      sym (in_order parse w r i)
      ∙ ap (λ (s : List (List ℕ)). map parse (handle_conn [] s)) reads
      ∙ ap (map parse) (handle_conn-map parts are_reads)
