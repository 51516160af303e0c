-- ===== src/Doser/Upload/Feed/Delivery.antt =====
-- The bytes of the file, by feed and finish of aquaOneDoser/src/DoserMultipartFirmwareParser.cpp.
use mathlib.Core.List.{append_assoc}
use aqua_one.Base.{
  ℕ, ◌≤◌, ◌<◌, ◌≡◌, Bool-cases, inl, inr, refl, sym, ap, subst, ◌∙◌, Bool, true, false, not, ◌&&◌,
  ◌==◌, List, [], ◌∷◌, ◌++◌, Option, none, some, length, drop, length-append, arith,
}
use aqua_one.Doser.Upload.Feed.{
  agree, scan, closes, Event, end, Parser, payload, closing, begin, feed, finish, end_bytes,
  is_error, can_finish,
}
use aqua_one.Doser.Upload.Feed.Emit.{◌>>=◌, taken, accepted, deliver, IsStreaming, ended}
use aqua_one.Doser.Upload.Feed.Search.{IsSized, payload_to, found_to}
use aqua_one.Doser.Upload.Feed.Chunks.{feed_accepted, feed-append}
use aqua_one.Doser.Upload.Feed.Bounds.{
  IsReading, IsReading-IsSized, begin-IsReading, feed-IsReading, closing_of, next_of,
}

abbrev pub is_prefix : List ℕ → List ℕ → Bool
is_prefix [] l = true
is_prefix (c ∷ d) [] = false
is_prefix (c ∷ d) (b ∷ l) = b == c && is_prefix d l

-- Neither delimiter begins at a byte of the file, with the closing one behind the file.
abbrev pub is_free : List ℕ → List ℕ → List ℕ → Bool
is_free close next [] = true
is_free close next (b ∷ bs) =
    not (is_prefix close (b ∷ (bs ++ close)))
    && not (is_prefix next (b ∷ (bs ++ close)))
    && is_free close next bs

agree-is_prefix : (d l ys : List ℕ) → length d ≤ length l → agree (l ++ ys) d ≡ is_prefix d l
unfolding agree
agree-is_prefix [] [] [] h = refl
agree-is_prefix [] [] (y ∷ ys) h = refl
agree-is_prefix [] (x ∷ l) ys h = refl
agree-is_prefix (c ∷ d) [] ys h = absurd (omega arith)
agree-is_prefix (c ∷ d) (x ∷ l) ys h = rw (agree-is_prefix d l ys (omega arith))

agree_self : (d ys : List ℕ) → agree (d ++ ys) d ≡ true
unfolding agree
agree_self [] [] = refl
agree_self [] (y ∷ ys) = refl
agree_self (c ∷ d) ys = ground (arith, agree_self d ys)

drop_self : (d ys : List ℕ) → drop (length d) (d ++ ys) ≡ ys
drop_self [] ys = refl
drop_self (c ∷ d) ys = drop_self d ys

scan_here :
    (c : ℕ) (close next rest : List ℕ)
    → scan (c ∷ close) next (c ∷ (close ++ rest)) ≡ closes [] rest
unfolding scan
scan_here c close next rest =
    ground (arith, agree_self (c ∷ close) rest, length-append {0} close rest, drop_self close rest)

-- The search finds the end of the file.
scan_free :
    (c : ℕ) (close next d rest : List ℕ)
    → length (c ∷ close) ≡ length next
    → is_free (c ∷ close) next d ≡ true
    → scan (c ∷ close) next (d ++ ((c ∷ close) ++ rest)) ≡ closes d rest
unfolding scan
scan_free c close next [] rest e h = scan_here c close next rest
scan_free c close next (b ∷ d) rest e h = ground (
  arith,
  scan_free c close next d rest e,
  agree-is_prefix (c ∷ close) (b ∷ (d ++ c ∷ close)) rest,
  agree-is_prefix next (b ∷ (d ++ c ∷ close)) rest,
  length-append {0} d (c ∷ close),
  append_assoc d (c ∷ close) rest,
)

-- The body may end with the closing delimiter or with a "\r\n" behind it.
abbrev pub is_tail : List ℕ → Bool
is_tail [] = true
is_tail (x ∷ []) = false
is_tail (x ∷ y ∷ []) = x == 13 && y == 10
is_tail (x ∷ y ∷ z ∷ l) = false

tail_end :
    (p : Parser) (l : List ℕ)
    → is_tail l ≡ true
    → p.phase ≡ closing
    → p.close_tail ≡ 0
    → p.end_emitted ≡ false
    → ((end_bytes p l).1 ≡ true)
      × (can_finish (end_bytes p l).0.phase (end_bytes p l).0.close_tail ≡ true)
      × ((end_bytes p l).0.end_emitted ≡ false)
unfolding end_bytes
tail_end p [] h e c n = ground arith
tail_end p (x ∷ []) h e c n = cc
tail_end p (x ∷ y ∷ []) h e c n = ground arith
tail_end p (x ∷ y ∷ z ∷ l) h e c n = cc

accepted-eq_some :
    {S : Type 0} (r : Parser × S × Bool) {q : Parser} {t : S}
    → accepted r ≡ some (q, t)
    → (r.2 ≡ true) × (r.0 ≡ q)
accepted-eq_some (p, s, true) h = (refl, ground arith)
accepted-eq_some (p, s, false) h = cc

scan_at :
    (p : Parser) (c : ℕ) (close d rest : List ℕ)
    → p.carry ≡ []
    → p.closing_text ≡ c ∷ close
    → length (c ∷ close) ≡ length p.next_part
    → is_free (c ∷ close) p.next_part d ≡ true
    → scan p.closing_text p.next_part (p.carry ++ (d ++ ((c ∷ close) ++ rest))) ≡ closes d rest
scan_at p c close d rest k x e f = rw (k, x) (scan_free c close p.next_part d rest e f)

module _ {S : Type 0} (sink : S → Event → S × Bool) (law : IsStreaming sink) where
  abbrev finished : Parser × S → Option S
  finished (p, s) = (let r = finish sink p s in taken (r.1, r.2))

  -- A call with the rest of the body, and then finish.
  abbrev pub rest_of_body : List ℕ → Parser × S → Option S
  rest_of_body bs (p, s) = accepted (feed sink p s bs) >>= finished

  feed-eq_some :
      (p : Parser) (s : S) (xs : List ℕ) {q : Parser} {t : S}
      → accepted (feed sink p s xs) ≡ some (q, t)
      → ((feed sink p s xs).2 ≡ true) × ((feed sink p s xs).0 ≡ q)
  feed-eq_some p s xs {q} {t} h = accepted-eq_some (feed sink p s xs) h

  finish_end :
      (p : Parser) (t : S)
      → can_finish p.phase p.close_tail ≡ true
      → p.end_emitted ≡ false
      → finished (p, t) ≡ taken (sink t end)
  unfolding finish
  finish_end p t c n = elim (Bool-cases (sink t end).1) [
    | inl e ↦ ground arith
    | inr e ↦ ground arith
  ]

  finish_after :
      (r : Parser × Bool) (m : Option S)
      → r.1 ≡ true
      → can_finish r.0.phase r.0.close_tail ≡ true
      → r.0.end_emitted ≡ false
      → (m >>= ended (taken r) >>= finished) ≡ (m >>= λ t. taken (sink t end))
  finish_after (q, true) none v c n = refl
  finish_after (q, true) (some t) v c n = finish_end q t c n
  finish_after (q, false) m v c n = cc

  payload_to_any :
      (p : Parser) (t : S) (xs : List ℕ)
      → 0 < length xs
      → p.phase ≡ payload
      → IsSized p
      → accepted (feed sink p t xs)
        ≡ found_to sink law p t (scan p.closing_text p.next_part (p.carry ++ xs))
  payload_to_any p t [] n e w = absurd (omega arith)
  payload_to_any p t (x ∷ xs) n e w =
      rw (feed_accepted sink law p t (x ∷ xs) (ap is_error e)) (payload_to sink law p t x xs e w)

  payload_delivers :
      (p : Parser) (t : S) (c : ℕ) (close d rest : List ℕ)
      → p.phase ≡ payload
      → p.carry ≡ []
      → p.close_tail ≡ 0
      → p.end_emitted ≡ false
      → p.closing_text ≡ c ∷ close
      → IsSized p
      → is_free (c ∷ close) p.next_part d ≡ true
      → is_tail rest ≡ true
      → rest_of_body (d ++ ((c ∷ close) ++ rest)) (p, t)
        ≡ (deliver sink d t >>= λ u. taken (sink u end))
  payload_delivers p t c close d rest e k z n x w f l =
      let after = record p { phase = closing; carry = [] } in
      let ends = tail_end after rest l refl z n in
      rw
        (
          payload_to_any p t (d ++ ((c ∷ close) ++ rest))
              (omega (arith, length-append {0} d ((c ∷ close) ++ rest))) e w,
          scan_at p c close d rest k x (sym (ap length x) ∙ w.same) f,
        )
        (finish_after (end_bytes after rest) (deliver sink d t) ends.0 ends.1 ends.2)

  -- A parser that has begun with a boundary and has taken the head of a body up to its file gives to the sink
  -- exactly the bytes of the file and then the end, if no delimiter begins in the file: the rest of the body
  -- is the file, the closing delimiter and at most a "\r\n". It fails only where the sink refuses.
  pub feed_delivers :
      (boundary head d rest : List ℕ) (p : Parser) (s : S) (q : Parser) (t : S)
      → begin boundary ≡ some p
      → accepted (feed sink p s head) ≡ some (q, t)
      → q.phase ≡ payload
      → q.carry ≡ []
      → is_free (closing_of boundary) (next_of boundary) d ≡ true
      → is_tail rest ≡ true
      → rest_of_body (head ++ (d ++ (closing_of boundary ++ rest))) (p, s)
        ≡ (deliver sink d t >>= λ u. taken (sink u end))
  feed_delivers boundary head d rest p s q t b h e k f l =
      let starts = begin-IsReading boundary b in
      let done_head = feed-eq_some p s head h in
      let reads =
        subst (IsReading boundary) done_head.1
          (feed-IsReading sink boundary p s head starts done_head.0) in
      rw
        (
          feed-append sink law p s head (d ++ (closing_of boundary ++ rest))
              (IsReading-IsSized starts),
          h,
        )
        (payload_delivers q t 13 _ d rest e k (ground arith) reads.not_ended reads.closes_with
          (IsReading-IsSized reads) (rw reads.next_with f) l)
