-- ===== src/Core/Web/Order.antt =====
-- The order of the events of receiveStream, aquaOneCore/src/Web/HttpStreamingReceive.cpp.
use aqua_one.Base.{
  ℕ, zero, suc, ◌+◌, ◌-◌, ◌*◌, ◌≤◌, ◌<◌, ◌≡◌, ◌≢◌, refl, subst, Bool, true, false, ◌||◌, ◌==◌, ltb,
  not, if◌then◌else◌, List, [], ◌∷◌, length, Bool-cases, inl, inr, arith,
}
use aqua_one.Core.Web.{
  Event, body_start, body_data, body_end, body_abort, AbortReason, handler_stopped,
  transport_stopping, ReceiveResult, complete, stopped_consumed, stopped_unread, aborted, oversize,
  invalid, Received, bytes, negative, Peer, chunk_capacity, requested, stopped, is_count, is_error,
  Turn, ends, goes_on, failure, accept, turn, also, finish, receive_loop, receive_turn,
  receive_stream,
}

-- What a handler, that has been told of some events, is told of a body of which some bytes are left, and the
-- result: it goes on just as long as the handler does not stop.
pub data Body (p : Peer) : List Event → ℕ → List Event → ReceiveResult → Type 0 where
  whole :
      (past : List Event) → p.stops past body_end ≡ false → Body p past 0 (body_end ∷ []) complete
  refused :
      (past : List Event)
      → p.stops past body_end ≡ true
      → Body p past 0 (body_end ∷ body_abort handler_stopped ∷ []) stopped_consumed
  broken :
      (past : List Event) (n : ℕ) (reason : AbortReason)
      → reason ≢ handler_stopped
      → Body p past n (body_abort reason ∷ []) aborted
  part :
      (past : List Event) (n : ℕ) (l : List ℕ) (es : List Event) (r : ReceiveResult)
      → 0 < length l
      → length l ≤ n
      → length l ≤ chunk_capacity
      → p.stops past (body_data l) ≡ false
      → Body p (body_data l ∷ past) (n - length l) es r
      → Body p past n (body_data l ∷ es) r
  consumed :
      (past : List Event) (n : ℕ) (l : List ℕ)
      → 0 < length l
      → length l ≤ chunk_capacity
      → p.stops past (body_data l) ≡ true
      → length l ≡ n
      → Body p past n (body_data l ∷ body_abort handler_stopped ∷ []) stopped_consumed
  unread :
      (past : List Event) (n : ℕ) (l : List ℕ)
      → 0 < length l
      → length l ≤ chunk_capacity
      → p.stops past (body_data l) ≡ true
      → length l < n
      → Body p past n (body_data l ∷ body_abort handler_stopped ∷ []) stopped_unread

-- A turn of the loop that Body allows.
unfoldable pub IsFit : ℕ → Turn → Type 0
IsFit n (ends reason) = reason ≢ handler_stopped
IsFit n (goes_on l) = (0 < length l) × (length l ≤ n) × (length l ≤ chunk_capacity)

failure_not_stopped : (p : Peer) (x : Received) → failure p x ≢ handler_stopped
unfolding failure
failure_not_stopped p (bytes l) = elim (Bool-cases (length l == 0)) [
  | inl e ↦ rw e (λ h. cc)
  | inr e ↦ elim (Bool-cases (is_count p.timeout_code (length l))) [
    | inl t ↦ rw (e, t) (λ h. cc)
    | inr t ↦ rw (e, t) (λ h. cc)
  ]
]
failure_not_stopped p (negative n) = elim (Bool-cases (is_error p.timeout_code n)) [
  | inl e ↦ rw e (λ h. cc)
  | inr e ↦ rw e (λ h. cc)
]

fits :
    (n : ℕ) (l : List ℕ)
    → (length l == 0 || ltb (requested n) (length l)) ≡ false
    → (0 < length l) × (length l ≤ n) × (length l ≤ chunk_capacity)
fits n l h = ground arith

accept-IsFit : (p : Peer) (n : ℕ) (x : Received) → IsFit n (accept p n x)
unfolding IsFit accept
accept-IsFit p n (negative k) = failure_not_stopped p (negative k)
accept-IsFit p n (bytes l) = elim (Bool-cases (length l == 0 || ltb (requested n) (length l))) [
  | inl e ↦ rw e (failure_not_stopped p (bytes l))
  | inr e ↦ rw e (fits n l e)
]

pub turn-IsFit : (p : Peer) (i n : ℕ) → IsFit n (turn p i n)
unfolding IsFit turn
turn-IsFit p i n = elim (Bool-cases (p.accepting (2 * i))) [
  | inr e ↦ rw e (λ h. cc)
  | inl e ↦ elim (Bool-cases (p.accepting (2 * i + 1))) [
    | inr e' ↦ rw (e, e') (λ h. cc)
    | inl e' ↦ rw (e, e') (accept-IsFit p n (p.read i (requested n)))
  ]
]

-- A run is what Body describes.
AllowsBody : Peer → List Event → ℕ → List Event × ReceiveResult → Type 0
AllowsBody p past n x = Body p past n x.0 x.1

finish-Body : (p : Peer) (i : ℕ) (past : List Event) → AllowsBody p past 0 (finish p i past)
unfolding AllowsBody finish
finish-Body p i past = elim (Bool-cases (p.accepting (2 * i))) [
  | inr e ↦ rw e (broken past 0 transport_stopping (λ h. cc))
  | inl e ↦ elim (Bool-cases (p.stops past body_end)) [
    | inl f ↦ rw (e, f) (refused past f)
    | inr f ↦ rw (e, f) (whole past f)
  ]
]

stop-Body :
    (p : Peer) (past : List Event) (n : ℕ) (l : List ℕ)
    → p.stops past (body_data l) ≡ true
    → IsFit n (goes_on l)
    → Body p past n (body_data l ∷ body_abort handler_stopped ∷ []) (stopped (n - length l))
unfolding IsFit stopped
stop-Body p past n l s (a, b, c) = elim (Bool-cases (n - length l == 0)) [
  | inl e ↦ rw e (consumed past n l a c s (ground arith))
  | inr e ↦ rw e (unread past n l a c s (ground arith))
]

receive_turn-Body :
    (p : Peer) (rest : ℕ → List Event → List Event × ReceiveResult) (n : ℕ) (past : List Event)
    (t : Turn)
    → IsFit n t
    → ((m : ℕ) (q : List Event) → m < n → AllowsBody p q m (rest m q))
    → AllowsBody p past n (receive_turn p rest n past t)
unfolding receive_turn AllowsBody IsFit
receive_turn-Body p rest n past (ends reason) f h = broken past n reason f
receive_turn-Body p rest n past (goes_on l) f h = elim (Bool-cases (p.stops past (body_data l))) [
  | inl e ↦ rw e (stop-Body p past n l e f)
  | inr e ↦
      rw e (part past n l _ _ f.0 f.1 f.2 e (h (n - length l) (body_data l ∷ past) (ground arith)))
]

receive_loop-Body :
    (p : Peer) (fuel i n : ℕ) (past : List Event)
    → n ≤ fuel
    → AllowsBody p past n (receive_loop p fuel i n past)
unfolding receive_loop
receive_loop-Body p zero i n past h =
    subst (λ m. AllowsBody p past m (finish p i past)) (ground arith) (finish-Body p i past)
receive_loop-Body p (suc fuel) i zero past h = finish-Body p i past
receive_loop-Body p (suc fuel) i (suc n) past h =
    receive_turn-Body p (receive_loop p fuel (suc i)) (suc n) past (turn p i (suc n))
      (turn-IsFit p i (suc n)) (λ m q less. receive_loop-Body p fuel (suc i) m q (ground arith))

-- What a handler is told of a request of `n` bytes, of which `most` are allowed, and the result.
pub data Stream (p : Peer) : ℕ → ℕ → List Event → ReceiveResult → Type 0 where
  too_long : (most n : ℕ) → most < n → Stream p most n [] oversize
  not_set : (most n : ℕ) → n ≤ most → p.pointers_set ≡ false → Stream p most n [] invalid
  declined_empty :
      (most n : ℕ)
      → n ≤ most
      → p.pointers_set ≡ true
      → p.stops [] (body_start n) ≡ true
      → n ≡ 0
      → Stream p most n (body_start n ∷ body_abort handler_stopped ∷ []) stopped_consumed
  declined :
      (most n : ℕ)
      → n ≤ most
      → p.pointers_set ≡ true
      → p.stops [] (body_start n) ≡ true
      → 0 < n
      → Stream p most n (body_start n ∷ body_abort handler_stopped ∷ []) stopped_unread
  taken :
      (most n : ℕ) (es : List Event) (r : ReceiveResult)
      → n ≤ most
      → p.pointers_set ≡ true
      → p.stops [] (body_start n) ≡ false
      → Body p (body_start n ∷ []) n es r
      → Stream p most n (body_start n ∷ es) r

declined-Stream :
    (p : Peer) (most n : ℕ)
    → n ≤ most
    → p.pointers_set ≡ true
    → p.stops [] (body_start n) ≡ true
    → Stream p most n (body_start n ∷ body_abort handler_stopped ∷ []) (stopped n)
unfolding stopped
declined-Stream p most n l g s = elim (Bool-cases (n == 0)) [
  | inl e ↦ rw e (declined_empty most n l g s (ground arith))
  | inr e ↦ rw e (declined most n l g s (ground arith))
]

AllowsStream : Peer → ℕ → ℕ → List Event × ReceiveResult → Type 0
AllowsStream p most n x = Stream p most n x.0 x.1

guard-AllowsStream :
    (p : Peer) (most n : ℕ) (pointers_set : Bool) (x : List Event × ReceiveResult)
    → n ≤ most
    → p.pointers_set ≡ pointers_set
    → (pointers_set ≡ true → AllowsStream p most n x)
    → AllowsStream p most n (if not pointers_set then ([], invalid) else x)
unfolding AllowsStream
guard-AllowsStream p most n true x l e h = h refl
guard-AllowsStream p most n false x l e h = not_set most n l e

receive-AllowsStream :
    (p : Peer) (most n : ℕ)
    → n ≤ most
    → p.pointers_set ≡ true
    → AllowsStream p most n (
        if p.stops [] (body_start n)
        then (body_start n ∷ body_abort handler_stopped ∷ [], stopped n)
        else also (body_start n) (receive_loop p n 0 n (body_start n ∷ [])))
unfolding AllowsStream AllowsBody
receive-AllowsStream p most n l g = elim (Bool-cases (p.stops [] (body_start n))) [
  | inl s ↦ rw s (declined-Stream p most n l g s)
  | inr s ↦
      rw s (taken most n _ _ l g s (receive_loop-Body p n 0 n (body_start n ∷ []) (omega arith)))
]

at_most : (most n : ℕ) → ltb most n ≡ false → n ≤ most
at_most most n h = ground arith

above : (most n : ℕ) → ltb most n ≡ true → most < n
above most n h = ground arith

-- A handler is told of a request in order, whatever it, the reader and the transport do: nothing if the
-- request is too long or a pointer is missing, and otherwise its start, then parts, none empty and none longer
-- than the buffer or than what is left, and at last one of these: the end, when the parts make up the whole
-- content; an abort that does not blame the handler; or an abort that does, just behind the event at which it
-- stopped. It is told of an event just when it has stopped at none before. The result says how it ended, and
-- after a stop whether bytes were left unread.
pub receive_stream-Stream :
    (p : Peer) (most n : ℕ) → let x = receive_stream p most n in Stream p most n x.0 x.1
unfolding receive_stream AllowsStream
receive_stream-Stream p most n = elim (Bool-cases (ltb most n)) [
  | inl e ↦ rw e (too_long most n (above most n e))
  | inr e ↦ rw e (
      guard-AllowsStream p most n p.pointers_set _ (at_most most n e) refl
        (λ g. receive-AllowsStream p most n (at_most most n e) g))
]
