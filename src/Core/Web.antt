-- ===== src/Core/Web.antt =====
-- The body of a request as it is handed to its handler in parts, by
-- aquaOneCore/src/Web/HttpStreamingReceive.cpp. The handler, the reader and the answer whether the transport
-- goes on are arguments: the handler answers from the events before, the last one first, and the others from
-- the number of their calls before. `negative n`
-- and `minus n` are -(n + 1).
pub mod Control
mod Order
mod Whole
mod Examples
use aqua_one.Base.{
  ℕ, zero, suc, ◌+◌, ◌-◌, ◌*◌, Bool, false, not, ◌||◌, ◌==◌, ltb, if◌then◌else◌, List, [], ◌∷◌,
  length,
}

pub data AbortReason : Type 0 where
  handler_stopped : AbortReason
  transport_stopping : AbortReason
  peer_closed : AbortReason
  receive_timeout : AbortReason
  receive_error : AbortReason

pub data Event : Type 0 where
  body_start : ℕ → Event
  body_data : List ℕ → Event
  body_end : Event
  body_abort : AbortReason → Event

pub data ReceiveResult : Type 0 where
  complete : ReceiveResult
  stopped_consumed : ReceiveResult
  stopped_unread : ReceiveResult
  aborted : ReceiveResult
  oversize : ReceiveResult
  invalid : ReceiveResult

-- What the reader returns: the bytes it has put into the buffer, or an error.
pub data Received : Type 0 where
  bytes : List ℕ → Received
  negative : ℕ → Received

-- A value of the type int.
pub data Code : Type 0 where
  plus : ℕ → Code
  minus : ℕ → Code

abbrev pub is_count : Code → ℕ → Bool
is_count (plus c) n = c == n
is_count (minus c) n = false

abbrev pub is_error : Code → ℕ → Bool
is_error (plus c) n = false
is_error (minus c) n = c == n

-- The calls that a request is given, whether the pointers among them are set, and the time-out's code.
pub record Peer : Type 0 where
  pub stops : List Event → Event → Bool
  pub read : ℕ → ℕ → Received
  pub accepting : ℕ → Bool
  pub pointers_set : Bool
  pub timeout_code : Code

abbrev pub chunk_capacity : ℕ
chunk_capacity = 1024

abbrev pub requested : ℕ → ℕ
requested remaining = if ltb remaining chunk_capacity then remaining else chunk_capacity

unfoldable pub stopped : ℕ → ReceiveResult
stopped remaining = if remaining == 0 then stopped_consumed else stopped_unread

-- What a turn of the loop does: it ends the loop, perhaps after some bytes, or goes on behind them.
pub data Turn : Type 0 where
  ends : AbortReason → Turn
  goes_on : List ℕ → Turn

unfoldable pub failure : Peer → Received → AbortReason
failure p (bytes l) =
    if length l == 0
    then peer_closed
    else if is_count p.timeout_code (length l)
    then receive_timeout
    else receive_error
failure p (negative n) = if is_error p.timeout_code n then receive_timeout else receive_error

unfoldable pub accept : Peer → ℕ → Received → Turn
accept p remaining (negative n) = ends (failure p (negative n))
accept p remaining (bytes l) =
    if length l == 0 || ltb (requested remaining) (length l)
    then ends (failure p (bytes l))
    else goes_on l

unfoldable pub turn : Peer → ℕ → ℕ → Turn
turn p n remaining =
    if not (p.accepting (2 * n))
    then ends transport_stopping
    else if not (p.accepting (2 * n + 1))
    then ends transport_stopping
    else accept p remaining (p.read n (requested remaining))

-- The end of the body, after the loop.
unfoldable pub finish : Peer → ℕ → List Event → List Event × ReceiveResult
finish p n past =
    if not (p.accepting (2 * n))
    then (body_abort transport_stopping ∷ [], aborted)
    else if p.stops past body_end
    then (body_end ∷ body_abort handler_stopped ∷ [], stopped_consumed)
    else (body_end ∷ [], complete)

abbrev pub also : Event → List Event × ReceiveResult → List Event × ReceiveResult
also e (es, r) = (e ∷ es, r)

-- The loop from a turn on, with the rest of the loop.
unfoldable pub receive_turn :
    Peer
    → (ℕ → List Event → List Event × ReceiveResult)
    → ℕ
    → List Event
    → Turn
    → List Event × ReceiveResult
receive_turn p rest remaining past (ends reason) = (body_abort reason ∷ [], aborted)
receive_turn p rest remaining past (goes_on l) =
    if p.stops past (body_data l)
    then (body_data l ∷ body_abort handler_stopped ∷ [], stopped (remaining - length l))
    else also (body_data l) (rest (remaining - length l) (body_data l ∷ past))

-- The loop, at its n-th turn, on fuel: the events it gives to the handler, and the result.
unfoldable pub receive_loop : Peer → ℕ → ℕ → ℕ → List Event → List Event × ReceiveResult
receive_loop p zero n remaining past = finish p n past
receive_loop p (suc fuel) n zero past = finish p n past
receive_loop p (suc fuel) n (suc remaining) past =
    receive_turn p (receive_loop p fuel (suc n)) (suc remaining) past (turn p n (suc remaining))

-- receiveStream(...), with the length of the content for fuel.
unfoldable pub receive_stream : Peer → ℕ → ℕ → List Event × ReceiveResult
receive_stream p max_content_length content_length =
    let start = body_start content_length in
    let rest = receive_loop p content_length 0 content_length (start ∷ []) in
    if ltb max_content_length content_length
    then ([], oversize)
    else if not p.pointers_set
    then ([], invalid)
    else if p.stops [] start
    then (start ∷ body_abort handler_stopped ∷ [], stopped content_length)
    else also start rest
