-- ===== src/Core/Web/Examples.antt =====
-- Requests received by aquaOneCore/src/Web/HttpStreamingReceive.cpp.
use aqua_one.Base.{
  ℕ, zero, suc, ◌<◌, ◌≡◌, refl, ◌↔◌, true, false, if◌then◌else◌, ltb, [], ◌∷◌, arith,
}
use aqua_one.Core.Web.{
  body_start, body_data, body_end, body_abort, receive_timeout, complete, aborted, oversize,
  Received, bytes, negative, minus, Peer, failure, accept, turn, finish, receive_turn, receive_loop,
  receive_stream,
}
use aqua_one.Core.Web.Control.{
  character, follow, lead_of, others, following, go_on, reason_loop, valid_close_reason, valid_code,
  valid_close_payload, is_control, handled, malformed, ws_close, ws_ping, ws_pong, handle_control,
}
use aqua_one.Core.Web.Control.Text.{IsText, valid_close_reason_iff}
use aqua_one.Core.Web.Order.{Stream, receive_stream-Stream}
use aqua_one.Core.Web.Whole.{IsSome, IsWilling, IsWhole, receive_stream-IsWhole}

abbrev pair : ℕ → ℕ → Received
pair k zero = bytes []
pair k (suc zero) = bytes (7 ∷ [])
pair k (suc (suc n)) = bytes (8 ∷ 9 ∷ [])

-- A reader that gives two bytes at a time.
abbrev in_pairs : Peer
in_pairs = record {
  stops = λ past e. false;
  read = pair;
  accepting = λ k. true;
  pointers_set = true;
  timeout_code = minus 2;
}

-- One whose third read comes to no end.
abbrev falls_silent : Peer
falls_silent = record in_pairs { read = λ k n. if ltb k 2 then pair k n else negative 2 }

received_whole :
    receive_stream in_pairs 9 3
    ≡ (body_start 3 ∷ body_data (8 ∷ 9 ∷ []) ∷ body_data (7 ∷ []) ∷ body_end ∷ [], complete)
unfolding receive_stream receive_loop receive_turn finish turn accept
received_whole = refl

received_late : receive_stream falls_silent 9 5 ≡ (
  body_start 5 ∷ body_data (8 ∷ 9 ∷ []) ∷ body_data (8 ∷ 9 ∷ []) ∷ body_abort receive_timeout ∷ [],
  aborted,
)
unfolding receive_stream receive_loop receive_turn finish turn accept failure
received_late = refl

received_none : receive_stream in_pairs 2 3 ≡ ([], oversize)
unfolding receive_stream
received_none = refl

receive_stream-Stream_example :
    let x = receive_stream falls_silent 9 5 in Stream falls_silent 9 5 x.0 x.1
receive_stream-Stream_example = receive_stream-Stream falls_silent 9 5

pair-IsSome : (k n : ℕ) → 0 < n → IsSome n (pair k n)
pair-IsSome k zero h = absurd (omega arith)
pair-IsSome k (suc zero) h = record {
  read_bytes = 7 ∷ [];
  given = refl;
  positive = omega arith;
  fitting = omega arith;
}
pair-IsSome k (suc (suc n)) h = record {
  read_bytes = 8 ∷ 9 ∷ [];
  given = refl;
  positive = ground arith;
  fitting = ground arith;
}

in_pairs-IsWilling : IsWilling in_pairs
in_pairs-IsWilling = record { goes = λ k. refl; listens = λ past e. refl; gives = pair-IsSome }

receive_stream-IsWhole_example : IsWhole 3 (receive_stream in_pairs 9 3)
receive_stream-IsWhole_example =
    receive_stream-IsWhole in_pairs 9 3 in_pairs-IsWilling refl (omega arith)

-- The bytes of a surrogate are not UTF-8.
surrogate_refused : valid_close_reason (237 ∷ 160 ∷ 128 ∷ []) ≡ false
unfolding valid_close_reason reason_loop go_on character follow lead_of following others
surrogate_refused = refl

ping_answered :
    handle_control true ws_ping true (1 ∷ 2 ∷ []) ≡ ((ws_pong, 1 ∷ 2 ∷ []) ∷ [], handled)
unfolding handle_control is_control
ping_answered = refl

-- A close with the code 1005, which is not sent.
close_refused : handle_control true ws_close true (3 ∷ 237 ∷ []) ≡ ([], malformed)
unfolding handle_control is_control valid_close_payload valid_code
close_refused = refl

valid_close_reason_iff_example :
    (valid_close_reason (98 ∷ 195 ∷ 179 ∷ []) ≡ true) ↔ IsText (98 ∷ 195 ∷ 179 ∷ [])
valid_close_reason_iff_example = valid_close_reason_iff (98 ∷ 195 ∷ 179 ∷ [])
