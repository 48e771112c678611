-- ===== src/Connection/Reader.antt =====
-- What `handleConn` of connection/connection.go makes of the segments that arrive.
use k_vswitch.Prelude.{
  ℕ, zero, suc, ◌≤◌, ◌≡◌, refl, ap, ◌∙◌, true, List, [], ◌∷◌, ◌++◌, map, length, length-append, leb,
  All, arith,
}
use k_vswitch.Result.{ok}
use k_vswitch.Connection.{
  message_length, fill, message_of, buffer_size, take, read_into, handle_conn,
}

-- a whole message: at least a header, which holds its length
abbrev pub IsMessage : List ℕ → Type 0
IsMessage m = (8 ≤ length m) × (message_length m ≡ ok (length m))

-- Filling a buffer of a message's length stops at the end of the message.
fill-append : (m rest : List ℕ) → fill (length m) (m ++ rest) ≡ m
unfolding fill
fill-append [] rest = refl
fill-append (b ∷ m) rest = ap (λ l. b ∷ l) (fill-append m rest)

message_length-append :
    (m rest : List ℕ) → 8 ≤ length m → message_length (m ++ rest) ≡ message_length m
unfolding message_length
message_length-append [] rest h = absurd (omega (arith, h))
message_length-append (a ∷ []) rest h = absurd (omega (arith, h))
message_length-append (a ∷ b ∷ []) rest h = absurd (omega (arith, h))
message_length-append (a ∷ b ∷ c ∷ []) rest h = absurd (omega (arith, h))
message_length-append (a ∷ b ∷ c ∷ d ∷ m) rest h = refl

has_header : (m rest : List ℕ) → 8 ≤ length m → leb 8 (length (m ++ rest)) ≡ true
has_header m rest h = ground (arith, length-append m rest)

take_all : (n : ℕ) (bytes : List ℕ) → length bytes ≤ n → take n bytes ≡ bytes
unfolding take
take_all n [] h = by_size n
  where
    by_size : (n : ℕ) → take n [] ≡ []
    by_size zero = refl
    by_size (suc n) = refl
take_all zero (b ∷ bytes) h = absurd (omega (arith, h))
take_all (suc n) (b ∷ bytes) h = ap (λ l. b ∷ l) (take_all n bytes (omega (arith, h)))

-- What one Read returns into an empty buffer: a whole message, and what follows it. Read returns no
-- more than the buffer's 4096 bytes.
abbrev pub IsRead : List ℕ × List ℕ → Type 0
IsRead (m, rest) = IsMessage m × (length (m ++ rest) ≤ buffer_size)

read_into_empty : (segment : List ℕ) → length segment ≤ buffer_size → read_into [] segment ≡ segment
unfolding read_into
read_into_empty segment fits = take_all buffer_size segment fits

-- a Read that returns a header, and fits
handle_conn-header :
    (segment : List ℕ) (segments : List (List ℕ))
    → length segment ≤ buffer_size
    → leb 8 (length segment) ≡ true
    → handle_conn [] (segment ∷ segments)
      ≡ (message_of (message_length segment) segment ∷ handle_conn [] segments)
unfolding handle_conn
handle_conn-header segment segments fits long =
    let same = read_into_empty segment fits in
    rw (handle_conn, ap (λ more. leb 8 (length more)) same ∙ long)
      (ap (λ more. message_of (message_length more) more ∷ handle_conn [] segments) same)

handle_conn-first :
    (m rest : List ℕ) (segments : List (List ℕ))
    → IsRead (m, rest)
    → handle_conn [] ((m ++ rest) ∷ segments) ≡ (m ∷ handle_conn [] segments)
handle_conn-first m rest segments ((long, its), fits) =
    handle_conn-header (m ++ rest) segments fits (has_header m rest long)
    ∙ ap (λ r. message_of r (m ++ rest) ∷ handle_conn [] segments)
        (message_length-append m rest long ∙ its)
    ∙ ap (λ l. l ∷ handle_conn [] segments) (fill-append m rest)

-- If every Read of the connection returns a whole message and what follows it, 4096 bytes at most
-- together, then exactly the first message of each Read is handed on, unchanged and in order; what
-- follows it is lost.
pub handle_conn-map :
    (parts : List (List ℕ × List ℕ))
    → All IsRead parts
    → handle_conn [] (map (λ (x : List ℕ × List ℕ). x.0 ++ x.1) parts)
      ≡ map (λ (x : List ℕ × List ℕ). x.0) parts
unfolding handle_conn
handle_conn-map [] h = refl
handle_conn-map ((m, rest) ∷ parts) (is_read, others) =
    handle_conn-first m rest (map (λ (x : List ℕ × List ℕ). x.0 ++ x.1) parts) is_read
    ∙ ap (λ l. m ∷ l) (handle_conn-map parts others)
