-- ===== src/Connection/Bounds.antt =====
-- The lengths of the messages that `handleConn` of connection/connection.go hands on.
use k_vswitch.Prelude.{
  ℕ, zero, suc, ◌+◌, ◌-◌, ◌*◌, ◌≤◌, ◌<◌, ◌≡◌, refl, ap, Bool, true, false, List, [], ◌∷◌, length,
  leb, All, All-append, arith,
}
use k_vswitch.Connection.{message_length, fill, message_of, take, read_into, handle_conn}

abbrev pub IsByte : ℕ → Type 0
IsByte b = b < 256

abbrev pub IsBounded : List ℕ → Type 0
IsBounded m = length m ≤ 65535

length-fill : (n : ℕ) (read : List ℕ) → length (fill n read) ≡ n
unfolding fill
length-fill zero read = refl
length-fill (suc n) [] = ap suc (length-fill n [])
length-fill (suc n) (b ∷ read) = ap suc (length-fill n read)

message_of-IsBounded :
    (read : List ℕ) → All IsByte read → IsBounded (message_of (message_length read) read)
unfolding message_length
message_of-IsBounded [] h = omega arith
message_of-IsBounded (a ∷ []) h = omega arith
message_of-IsBounded (a ∷ b ∷ []) h = omega arith
message_of-IsBounded (a ∷ b ∷ c ∷ []) h = omega arith
message_of-IsBounded (a ∷ b ∷ high ∷ low ∷ read) (ha, (hb, (high_byte, (low_byte, h)))) =
    omega (arith, length-fill (high * 256 + low) (a ∷ b ∷ high ∷ low ∷ read), high_byte, low_byte)

take-IsByte : (n : ℕ) (bytes : List ℕ) → All IsByte bytes → All IsByte (take n bytes)
unfolding take
take-IsByte zero bytes h = tt
take-IsByte (suc n) [] h = tt
take-IsByte (suc n) (b ∷ bytes) (byte, h) = (byte, take-IsByte n bytes h)

read_into-IsByte :
    (read segment : List ℕ)
    → All IsByte read
    → All IsByte segment
    → All IsByte (read_into read segment)
unfolding read_into
read_into-IsByte read segment h k =
    All-append IsByte read (take (4096 - length read) segment) h (take-IsByte _ segment k)

handle_conn-from :
    (read : List ℕ) (segments : List (List ℕ))
    → All IsByte read
    → All (All IsByte) segments
    → All IsBounded (handle_conn read segments)
unfolding handle_conn
handle_conn-from read [] h hs = tt
handle_conn-from read (segment ∷ segments) h (h', hs) =
    by_test (leb 8 (length (read_into read segment)))
      (message_of-IsBounded (read_into read segment) (read_into-IsByte read segment h h'))
      (handle_conn-from [] segments tt hs)
      (handle_conn-from (read_into read segment) segments (read_into-IsByte read segment h h') hs)
  where
    by_test :
        (b : Bool)
        → IsBounded (message_of (message_length (read_into read segment)) (read_into read segment))
        → All IsBounded (handle_conn [] segments)
        → All IsBounded (handle_conn (read_into read segment) segments)
        → All IsBounded (elim b as (λ x. List (List ℕ)) [
          | true ↦
              message_of (message_length (read_into read segment)) (read_into read segment)
              ∷ handle_conn [] segments
          | false ↦ handle_conn (read_into read segment) segments
        ])
    by_test true message rest more = (message, rest)
    by_test false message rest more = more

-- However the bytes of a connection are cut into segments, no message that is handed on, and so no
-- buffer made for one, is longer than 65535 bytes.
pub handle_conn-IsBounded :
    (segments : List (List ℕ)) → All (All IsByte) segments → All IsBounded (handle_conn [] segments)
handle_conn-IsBounded segments bytes = handle_conn-from [] segments tt bytes
