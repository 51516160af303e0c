-- ===== src/Doser/Upload/Feed/Search.antt =====
-- What feedData of aquaOneDoser/src/DoserMultipartFirmwareParser.cpp makes of what it has found, and of more
-- bytes behind.
use mathlib.Core.List.{append-nil, append_assoc}
use aqua_one.Base.{
  ℕ, ◌+◌, ◌≤◌, ◌<◌, ◌≡◌, refl, sym, Bool, true, false, not, ◌||◌, ◌==◌, ltb, if◌then◌else◌, List,
  [], ◌∷◌, ◌++◌, Option, none, some, length, arith,
}
use aqua_one.Doser.Upload.Feed.{
  scan, Found, closes, opens, carries, Event, emit_range, Parser, payload, closing, done,
  feed_found, feed_data, feed_loop, end_bytes, is_error,
}
use aqua_one.Doser.Upload.Feed.Scan.{scan-append, afters, carried, carried-scan, further}
use aqua_one.Doser.Upload.Feed.Emit.{
  ◌>>=◌, taken, accepted, deliver, IsStreaming, ended, is_ending, end_bytes-append,
  taken-emit_range,
}

-- The two delimiters are of one size, and what may be the start of one fits where it is kept.
pub record IsSized (p : Parser) : Type 0 where
  pub same : length p.closing_text ≡ length p.next_part
  pub some_bytes : 0 < length p.closing_text
  pub fits : length p.closing_text ≤ 78

pub bind_assoc :
    {A B C : Type 0} (m : Option A) (f : A → Option B) (g : B → Option C)
    → (m >>= f >>= g) ≡ (m >>= λ a. f a >>= g)
bind_assoc none f g = refl
bind_assoc (some a) f g = refl

bind_none : {A B : Type 0} (m : Option A) → ◌>>=◌ {B = B} m (λ a. none) ≡ none
bind_none none = refl
bind_none (some a) = refl

ltb_of_le : (n : ℕ) → n ≤ 78 → ltb 78 n ≡ false
ltb_of_le n h = ground arith

bind_ap :
    {A B : Type 0} (m : Option A) (f g : A → Option B)
    → ((a : A) → f a ≡ g a)
    → (m >>= f) ≡ (m >>= g)
bind_ap none f g h = refl
bind_ap (some a) f g h = h a

afters-closes : (pre a rest : List ℕ) → afters pre (closes a rest) ≡ closes (pre ++ a) rest
afters-closes [] a rest = refl
afters-closes (b ∷ pre) a rest = rw (afters-closes pre a rest)

afters-opens : (pre : List ℕ) → afters pre opens ≡ opens
afters-opens [] = refl
afters-opens (b ∷ pre) = rw (afters-opens pre)

afters-carries : (pre a tail : List ℕ) → afters pre (carries a tail) ≡ carries (pre ++ a) tail
afters-carries [] a tail = refl
afters-carries (b ∷ pre) a tail = rw (afters-carries pre a tail)

sent_closes :
    {S : Type 0} (r : S × Bool) (p : Parser) (e : Parser × Bool)
    → accepted (if r.1 then (e.0, r.0, e.1) else (p, r.0, false)) ≡ (taken r >>= ended (taken e))
sent_closes (s, false) p e = refl
sent_closes (s, true) p (q, true) = refl
sent_closes (s, true) p (q, false) = refl

sent_carries :
    {S : Type 0} (r : S × Bool) (p q : Parser)
    → accepted (if not r.1 || false then (p, r.0, false) else (q, r.0, true))
      ≡ (taken r >>= λ t. some (q, t))
sent_carries (s, false) p q = refl
sent_carries (s, true) p q = refl

ended_accepted :
    {S : Type 0} (r : Parser × Bool) (s : S) → accepted {S = S} (r.0, s, r.1) ≡ ended (taken r) s
ended_accepted (q, true) s = refl
ended_accepted (q, false) s = refl

end_bytes_phase :
    (p : Parser) (ys : List ℕ)
    → is_ending p.phase ≡ true
    → is_ending (end_bytes p ys).0.phase ≡ true
unfolding end_bytes
end_bytes_phase p [] h = h
end_bytes_phase p (y ∷ ys) h = ground (
  arith,
  end_bytes_phase
      (record p {
        close_tail = p.close_tail + 1;
        phase = if p.close_tail == 1 then done else closing;
      })
      ys,
)

pub end_bytes_error :
    (p : Parser) (ys : List ℕ)
    → is_error p.phase ≡ false
    → is_error (end_bytes p ys).0.phase ≡ false
unfolding end_bytes
end_bytes_error p [] h = h
end_bytes_error p (y ∷ ys) h = ground (
  arith,
  end_bytes_error
      (record p {
        close_tail = p.close_tail + 1;
        phase = if p.close_tail == 1 then done else closing;
      })
      ys,
)

module _ {S : Type 0} (sink : S → Event → S × Bool) (law : IsStreaming sink) where
  abbrev pub go_on : List ℕ → Parser × S → Option (Parser × S)
  go_on ys (q, t) = accepted (feed_loop sink q t ys)

  go_on_nil : (m : Option (Parser × S)) → (m >>= go_on []) ≡ m
  unfolding feed_loop
  go_on_nil none = refl
  go_on_nil (some (q, t)) = refl

  -- What a result of the search comes to.
  abbrev pub found_to : Parser → S → Found → Option (Parser × S)
  found_to p s (closes pre rest) =
      deliver sink pre s
      >>= ended (taken (end_bytes (record p { phase = closing; carry = [] }) rest))
  found_to p s opens = none
  found_to p s (carries pre tail) = deliver sink pre s >>= λ t. some (record p { carry = tail }, t)

  feed_found_to :
      (p : Parser) (s : S) (f : Found)
      → length (carried f) ≤ 78
      → accepted (feed_found sink p s f) ≡ found_to p s f
  feed_found_to p s (closes pre rest) h = rw (← taken-emit_range sink law (length p.carry) pre s) (
      sent_closes (emit_range sink (length p.carry) pre s) p
        (end_bytes (record p { phase = closing; carry = [] }) rest))
  feed_found_to p s opens h = refl
  feed_found_to p s (carries pre tail) h = rw (← taken-emit_range sink law (length p.carry) pre s) (
      rw (ltb_of_le (length tail) h)
        (sent_carries (emit_range sink (length p.carry) pre s) p (record p { carry = tail })))

  found_to-afters :
      (p : Parser) (s : S) (pre tail : List ℕ) (f : Found)
      → found_to p s (afters pre f)
        ≡ (deliver sink pre s >>= λ t. found_to (record p { carry = tail }) t f)
  found_to-afters p s pre tail (closes a rest) =
      rw (afters-closes pre a rest, law s pre a)
        (bind_assoc (deliver sink pre s) (deliver sink a) _)
  found_to-afters p s pre tail opens = rw (afters-opens pre) (sym (bind_none (deliver sink pre s)))
  found_to-afters p s pre tail (carries a rest) =
      rw (afters-carries pre a rest, law s pre a)
        (bind_assoc (deliver sink pre s) (deliver sink a) _)

  pub loop_ending :
      (p : Parser) (s : S) (ys : List ℕ)
      → is_ending p.phase ≡ true
      → accepted (feed_loop sink p s ys) ≡ ended (taken (end_bytes p ys)) s
  unfolding feed_loop end_bytes
  loop_ending p s [] h = refl
  loop_ending p s (y ∷ ys) h = ground (arith, ended_accepted (end_bytes p (y ∷ ys)) s)

  end_further :
      (r : Parser × Bool) (ys : List ℕ) (t : S)
      → is_ending r.0.phase ≡ true
      → ended (taken r >>= λ q. taken (end_bytes q ys)) t ≡ (ended (taken r) t >>= go_on ys)
  end_further (q, true) ys t h = sym (loop_ending q t ys h)
  end_further (q, false) ys t h = refl

  payload_loop :
      (p : Parser) (s : S) (y : ℕ) (ys : List ℕ)
      → p.phase ≡ payload
      → feed_loop sink p s (y ∷ ys)
        ≡ feed_found sink p s (scan p.closing_text p.next_part (p.carry ++ y ∷ ys))
  unfolding feed_loop feed_data
  payload_loop p s y ys h = ground arith

  pub payload_to :
      (p : Parser) (s : S) (y : ℕ) (ys : List ℕ)
      → p.phase ≡ payload
      → IsSized p
      → accepted (feed_loop sink p s (y ∷ ys))
        ≡ found_to p s (scan p.closing_text p.next_part (p.carry ++ y ∷ ys))
  payload_to p s y ys h w = rw (payload_loop p s y ys h) (
      feed_found_to p s _ (
        omega
          (arith, carried-scan p.closing_text p.next_part (p.carry ++ y ∷ ys) w.same w.some_bytes)))

  -- The rest of the call, and the next call.
  found_to-further :
      (p : Parser) (s : S) (y : ℕ) (ys : List ℕ) (f : Found)
      → p.phase ≡ payload
      → IsSized p
      → found_to p s (further p.closing_text p.next_part (y ∷ ys) f)
        ≡ (found_to p s f >>= go_on (y ∷ ys))
  found_to-further p s y ys (closes pre rest) e w =
      let q = record p { phase = closing; carry = [] } in
      rw
        (
          end_bytes-append q rest (y ∷ ys),
          bind_assoc (deliver sink pre s) (ended (taken (end_bytes q rest))) (go_on (y ∷ ys)),
        )
        (bind_ap (deliver sink pre s) _ _
          (λ t. end_further (end_bytes q rest) (y ∷ ys) t (end_bytes_phase q rest refl)))
  found_to-further p s y ys opens e w = refl
  found_to-further p s y ys (carries pre tail) e w =
      rw
        (
          found_to-afters p s pre tail (scan p.closing_text p.next_part (tail ++ y ∷ ys)),
          bind_assoc (deliver sink pre s) (λ t. some (record p { carry = tail }, t))
              (go_on (y ∷ ys)),
        )
        (bind_ap (deliver sink pre s) _ _ (λ t. sym (
          payload_to (record p { carry = tail }) t y ys e
            (record { same = w.same; some_bytes = w.some_bytes; fits = w.fits }))))

  pub ending_append :
      (p : Parser) (s : S) (x : ℕ) (xs ys : List ℕ)
      → is_ending p.phase ≡ true
      → accepted (feed_loop sink p s (x ∷ (xs ++ ys)))
        ≡ (accepted (feed_loop sink p s (x ∷ xs)) >>= go_on ys)
  ending_append p s x xs ys h =
      rw
        (
          loop_ending p s (x ∷ (xs ++ ys)) h,
          loop_ending p s (x ∷ xs) h,
          end_bytes-append p (x ∷ xs) ys,
        )
        (end_further (end_bytes p (x ∷ xs)) ys s (end_bytes_phase p (x ∷ xs) h))

  pub payload_append :
      (p : Parser) (s : S) (x : ℕ) (xs ys : List ℕ)
      → p.phase ≡ payload
      → IsSized p
      → accepted (feed_loop sink p s (x ∷ (xs ++ ys)))
        ≡ (accepted (feed_loop sink p s (x ∷ xs)) >>= go_on ys)
  payload_append p s x xs [] h w =
      rw (append-nil xs) (sym (go_on_nil (accepted (feed_loop sink p s (x ∷ xs)))))
  payload_append p s x xs (y ∷ ys) h w =
      rw
        (
          payload_to p s x (xs ++ y ∷ ys) h w,
          payload_to p s x xs h w,
          ← append_assoc p.carry (x ∷ xs) (y ∷ ys),
          scan-append p.closing_text p.next_part (p.carry ++ x ∷ xs) (y ∷ ys) w.same,
        )
        (found_to-further p s y ys (scan p.closing_text p.next_part (p.carry ++ x ∷ xs)) h w)
