-- ===== src/Core/Web/Whole.antt =====
-- A request that nobody interrupts, by receiveStream of aquaOneCore/src/Web/HttpStreamingReceive.cpp.
use aqua_one.Base.{
  ℕ, zero, suc, ◌+◌, ◌-◌, ◌*◌, ◌≤◌, ◌<◌, ◌≡◌, refl, Bool, true, false, not, if◌then◌else◌, ◌||◌,
  ◌==◌, ltb, List, [], ◌∷◌, ◌++◌, length, length-append, subst, arith,
}
use aqua_one.Core.Web.{
  Event, body_start, body_data, body_end, ReceiveResult, complete, invalid, Received, bytes, Peer,
  requested, Turn, ends, goes_on, accept, turn, also, finish, receive_loop, receive_turn,
  receive_stream,
}
use aqua_one.Core.Web.Order.{IsFit, turn-IsFit}

-- The bytes that a handler is given.
abbrev pub delivered : List Event → List ℕ
delivered [] = []
delivered (body_data l ∷ es) = l ++ delivered es
delivered (_ ∷ es) = delivered es

-- Some bytes that are read, at most so many.
pub record IsSome (n : ℕ) (x : Received) : Type 0 where
  pub read_bytes : List ℕ
  pub given : x ≡ bytes read_bytes
  pub positive : 0 < length read_bytes
  pub fitting : length read_bytes ≤ n

-- The transport goes on, the handler does not stop, and the reader gives at every call some of the bytes.
pub record IsWilling (p : Peer) : Type 0 where
  pub goes : (k : ℕ) → p.accepting k ≡ true
  pub listens : (past : List Event) (e : Event) → p.stops past e ≡ false
  pub gives : (k n : ℕ) → 0 < n → IsSome n (p.read k n)

IsGoing : Turn → Type 0
IsGoing (ends reason) = ⊥
IsGoing (goes_on l) = Unit

passes :
    (n : ℕ) (l : List ℕ)
    → 0 < length l
    → length l ≤ requested n
    → (length l == 0 || ltb (requested n) (length l)) ≡ false
passes n l a b = ground arith

requested_positive : (n : ℕ) → 0 < n → 0 < requested n
requested_positive n h = ground arith

accept-IsGoing : (p : Peer) (n : ℕ) (x : Received) → IsSome (requested n) x → IsGoing (accept p n x)
unfolding IsGoing accept
accept-IsGoing p n x s = rw (s.given, passes n s.read_bytes s.positive s.fitting) tt

turn-IsGoing : (p : Peer) (i n : ℕ) → IsWilling p → 0 < n → IsGoing (turn p i n)
unfolding turn
turn-IsGoing p i n w h =
    rw (w.goes (2 * i), w.goes (2 * i + 1))
      (accept-IsGoing p n _ (w.gives i (requested n) (requested_positive n h)))

-- A run that gives a handler so many bytes and ends well.
pub record IsWhole (n : ℕ) (x : List Event × ReceiveResult) : Type 0 where
  pub completes : x.1 ≡ complete
  pub all : length (delivered x.0) ≡ n

finish-IsWhole : (p : Peer) (i : ℕ) (past : List Event) → IsWilling p → IsWhole 0 (finish p i past)
unfolding finish
finish-IsWhole p i past w =
    rw (w.goes (2 * i), w.listens past body_end) (record { completes = refl; all = refl })

also-IsWhole :
    (n : ℕ) (l : List ℕ) (x : List Event × ReceiveResult)
    → length l ≤ n
    → IsWhole (n - length l) x
    → IsWhole n (also (body_data l) x)
also-IsWhole n l (es, r) h w = record {
  completes = w.completes;
  all = ground (arith, length-append {0} l (delivered es), w.all);
}

receive_turn-IsWhole :
    (p : Peer) (rest : ℕ → List Event → List Event × ReceiveResult) (n : ℕ) (past : List Event)
    (t : Turn)
    → IsWilling p
    → IsFit n t
    → IsGoing t
    → ((m : ℕ) (q : List Event) → m < n → IsWhole m (rest m q))
    → IsWhole n (receive_turn p rest n past t)
unfolding receive_turn IsFit IsGoing
receive_turn-IsWhole p rest n past (ends reason) w f g h = absurd g
receive_turn-IsWhole p rest n past (goes_on l) w f g h =
    rw (w.listens past (body_data l))
      (also-IsWhole n l _ f.1 (h (n - length l) (body_data l ∷ past) (ground arith)))

receive_loop-IsWhole :
    (p : Peer) (fuel i n : ℕ) (past : List Event)
    → IsWilling p
    → n ≤ fuel
    → IsWhole n (receive_loop p fuel i n past)
unfolding receive_loop
receive_loop-IsWhole p zero i n past w h =
    subst (λ m. IsWhole m (finish p i past)) (ground arith) (finish-IsWhole p i past w)
receive_loop-IsWhole p (suc fuel) i zero past w h = finish-IsWhole p i past w
receive_loop-IsWhole p (suc fuel) i (suc n) past w h =
    receive_turn-IsWhole p (receive_loop p fuel (suc i)) (suc n) past (turn p i (suc n)) w
      (turn-IsFit p i (suc n)) (turn-IsGoing p i (suc n) w (omega arith))
      (λ m q less. receive_loop-IsWhole p fuel (suc i) m q w (ground arith))

start-IsWhole :
    (n : ℕ) (x : List Event × ReceiveResult) → IsWhole n x → IsWhole n (also (body_start n) x)
start-IsWhole n (es, r) w = record { completes = w.completes; all = w.all }

set-IsWhole :
    (n : ℕ) (pointers_set : Bool) (x : List Event × ReceiveResult)
    → pointers_set ≡ true
    → IsWhole n x
    → IsWhole n (if not pointers_set then ([], invalid) else x)
set-IsWhole n true x h w = w
set-IsWhole n false x h w = absurd (cc)

start-IsGoing :
    (p : Peer) (n : ℕ) (y : List Event × ReceiveResult)
    → IsWilling p
    → IsWhole n (
        if p.stops [] (body_start n)
        then y
        else also (body_start n) (receive_loop p n 0 n (body_start n ∷ [])))
start-IsGoing p n y w =
    rw (w.listens [] (body_start n))
      (start-IsWhole n _ (receive_loop-IsWhole p n 0 n (body_start n ∷ []) w (omega arith)))

not_above : (most n : ℕ) → n ≤ most → ltb most n ≡ false
not_above most n h = ground arith

-- A request that is not too long is received as a whole, and the handler is given as many bytes as its content
-- has: where all the pointers are set, the transport goes on, the handler never stops, and each call of the
-- reader returns at least one byte and no more than were asked for.
pub receive_stream-IsWhole :
    (p : Peer) (most n : ℕ)
    → IsWilling p
    → p.pointers_set ≡ true
    → n ≤ most
    → IsWhole n (receive_stream p most n)
unfolding receive_stream
receive_stream-IsWhole p most n w s h =
    rw (not_above most n h) (set-IsWhole n p.pointers_set _ s (start-IsGoing p n _ w))
