-- ===== src/Doser/Upload/Feed/Chunks.antt =====
-- The body of the upload comes in chunks: that feed of
-- aquaOneDoser/src/DoserMultipartFirmwareParser.cpp does not depend on where they end.
use aqua_one.Base.{
  ℕ, ◌≡◌, inl, inr, refl, sym, Bool, true, false, List, [], ◌∷◌, ◌++◌, Option, none, arith,
  Bool-cases,
}
use aqua_one.Doser.Upload.Feed.{
  scan, Found, closes, opens, carries, Event, Parser, Phase, opening, headers, payload, closing,
  done, error, feed_found, feed_data, feed_loop, feed, end_bytes, opening_byte, header_byte,
  is_error,
}
use aqua_one.Doser.Upload.Feed.Emit.{◌>>=◌, accepted, IsStreaming}
use aqua_one.Doser.Upload.Feed.Search.{
  IsSized, end_bytes_error, go_on, payload_append, ending_append,
}

opening_byte-IsSized : (p : Parser) (b : ℕ) → IsSized p → IsSized (opening_byte p b).0
unfolding opening_byte
opening_byte-IsSized p b h = ground arith

opening_byte_phase :
    (p : Parser) (b : ℕ) → is_error p.phase ≡ false → is_error (opening_byte p b).0.phase ≡ false
unfolding opening_byte
opening_byte_phase p b h = ground arith

module _ {S : Type 0} (sink : S → Event → S × Bool) (law : IsStreaming sink) where
  header_byte-IsSized :
      (p : Parser) (s : S) (b : ℕ) → IsSized p → IsSized (header_byte sink p s b).0
  unfolding header_byte
  header_byte-IsSized p s b h = ground arith

  loop_opening :
      (p : Parser) (s : S) (b : ℕ) (bs : List ℕ)
      → p.phase ≡ opening
      → accepted (feed_loop sink p s (b ∷ bs))
        ≡ (accepted ((opening_byte p b).0, s, (opening_byte p b).1) >>= go_on sink law bs)
  unfolding feed_loop
  loop_opening p s b bs h = elim (Bool-cases (opening_byte p b).1) [
    | inl e ↦ ground arith
    | inr e ↦ ground arith
  ]

  loop_headers :
      (p : Parser) (s : S) (b : ℕ) (bs : List ℕ)
      → p.phase ≡ headers
      → accepted (feed_loop sink p s (b ∷ bs))
        ≡ (accepted (header_byte sink p s b) >>= go_on sink law bs)
  unfolding feed_loop
  loop_headers p s b bs h = elim (Bool-cases (header_byte sink p s b).2) [
    | inl e ↦ ground arith
    | inr e ↦ ground arith
  ]

  loop_error :
      (p : Parser) (s : S) (b : ℕ) (bs : List ℕ)
      → p.phase ≡ error
      → accepted (feed_loop sink p s (b ∷ bs)) ≡ none
  unfolding feed_loop end_bytes
  loop_error p s b bs h = ground arith

  -- A byte before the file, and then the bytes of both calls.
  byte_append :
      (r : Parser × S × Bool) (xs ys : List ℕ)
      → IsSized r.0
      → ((q : Parser) (t : S)
          → IsSized q
          → accepted (feed_loop sink q t (xs ++ ys))
            ≡ (accepted (feed_loop sink q t xs) >>= go_on sink law ys))
      → (accepted r >>= go_on sink law (xs ++ ys))
        ≡ (accepted r >>= go_on sink law xs >>= go_on sink law ys)
  byte_append (q, t, true) xs ys w ih = ih q t w
  byte_append (q, t, false) xs ys w ih = refl

  phase_append :
      (ph : Phase) (p : Parser) (s : S) (x : ℕ) (xs ys : List ℕ)
      → p.phase ≡ ph
      → IsSized p
      → ((q : Parser) (t : S)
          → IsSized q
          → accepted (feed_loop sink q t (xs ++ ys))
            ≡ (accepted (feed_loop sink q t xs) >>= go_on sink law ys))
      → accepted (feed_loop sink p s (x ∷ (xs ++ ys)))
        ≡ (accepted (feed_loop sink p s (x ∷ xs)) >>= go_on sink law ys)
  phase_append opening p s x xs ys e w ih =
      rw (loop_opening p s x (xs ++ ys) e, loop_opening p s x xs e)
        (byte_append ((opening_byte p x).0, s, (opening_byte p x).1) xs ys
          (opening_byte-IsSized p x w) ih)
  phase_append headers p s x xs ys e w ih =
      rw (loop_headers p s x (xs ++ ys) e, loop_headers p s x xs e)
        (byte_append (header_byte sink p s x) xs ys (header_byte-IsSized p s x w) ih)
  phase_append payload p s x xs ys e w ih = payload_append sink law p s x xs ys e w
  phase_append closing p s x xs ys e w ih = ending_append sink law p s x xs ys (rw e)
  phase_append done p s x xs ys e w ih = ending_append sink law p s x xs ys (rw e)
  phase_append error p s x xs ys e w ih =
      rw (loop_error p s x (xs ++ ys) e, loop_error p s x xs e) refl

  pub feed_loop-append :
      (p : Parser) (s : S) (xs ys : List ℕ)
      → IsSized p
      → accepted (feed_loop sink p s (xs ++ ys))
        ≡ (accepted (feed_loop sink p s xs) >>= go_on sink law ys)
  unfolding feed_loop
  feed_loop-append p s [] ys w = refl
  feed_loop-append p s (x ∷ xs) ys w =
      phase_append p.phase p s x xs ys refl w (λ q t v. feed_loop-append q t xs ys v)

  header_byte_phase :
      (p : Parser) (s : S) (b : ℕ)
      → is_error p.phase ≡ false
      → is_error (header_byte sink p s b).0.phase ≡ false
  unfolding header_byte
  header_byte_phase p s b h = ground arith

  feed_found_phase :
      (p : Parser) (s : S) (f : Found)
      → is_error p.phase ≡ false
      → is_error (feed_found sink p s f).0.phase ≡ false
  feed_found_phase p s (closes pre rest) h =
      ground (arith, end_bytes_error (record p { phase = closing; carry = [] }) rest)
  feed_found_phase p s opens h = h
  feed_found_phase p s (carries pre tail) h = ground arith

  -- The loop leaves the state Error to feed.
  feed_loop_phase :
      (p : Parser) (s : S) (xs : List ℕ)
      → is_error p.phase ≡ false
      → is_error (feed_loop sink p s xs).0.phase ≡ false
  unfolding feed_loop feed_data
  feed_loop_phase p s [] h = h
  feed_loop_phase p s (x ∷ xs) h = ground (
    arith,
    opening_byte_phase p x,
    header_byte_phase p s x,
    feed_found_phase p s (scan p.closing_text p.next_part (p.carry ++ x ∷ xs)),
    end_bytes_error p (x ∷ xs),
    feed_loop_phase (opening_byte p x).0 s xs,
    feed_loop_phase (header_byte sink p s x).0 (header_byte sink p s x).1 xs,
  )

  abbrev feed_next : List ℕ → Parser × S → Option (Parser × S)
  feed_next ys (q, t) = accepted (feed sink q t ys)

  pub feed_accepted :
      (p : Parser) (s : S) (xs : List ℕ)
      → is_error p.phase ≡ false
      → accepted (feed sink p s xs) ≡ accepted (feed_loop sink p s xs)
  unfolding feed
  feed_accepted p s xs h = elim (Bool-cases (feed_loop sink p s xs).2) [
    | inl e ↦ ground arith
    | inr e ↦ ground arith
  ]

  feed_refused :
      (p : Parser) (s : S) (xs : List ℕ)
      → is_error p.phase ≡ true
      → accepted (feed sink p s xs) ≡ none
  unfolding feed
  feed_refused p s xs h = ground arith

  feed_again :
      (r : Parser × S × Bool) (ys : List ℕ)
      → is_error r.0.phase ≡ false
      → (accepted r >>= go_on sink law ys) ≡ (accepted r >>= feed_next ys)
  feed_again (q, t, true) ys h = sym (feed_accepted q t ys h)
  feed_again (q, t, false) ys h = refl

  -- Where the sink takes bytes in pieces as it takes them together, two chunks are accepted just when the
  -- one chunk of all their bytes is, and they leave the parser and the sink as that one does.
  pub feed-append :
      (p : Parser) (s : S) (xs ys : List ℕ)
      → IsSized p
      → accepted (feed sink p s (xs ++ ys))
        ≡ (accepted (feed sink p s xs) >>= λ (q, t). accepted (feed sink q t ys))
  feed-append p s xs ys w = elim (Bool-cases (is_error p.phase)) [
    | inl e ↦ rw (feed_refused p s (xs ++ ys) e, feed_refused p s xs e) refl
    | inr e ↦
        rw (feed_accepted p s (xs ++ ys) e, feed_accepted p s xs e, feed_loop-append p s xs ys w)
          (feed_again (feed_loop sink p s xs) ys (feed_loop_phase p s xs e))
  ]
