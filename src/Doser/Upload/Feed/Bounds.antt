-- ===== src/Doser/Upload/Feed/Bounds.antt =====
-- The buffers and counters of the parser, aquaOneDoser/src/DoserMultipartFirmwareParser.cpp and .h.
use aqua_one.Base.{
  ℕ, ◌+◌, ◌≤◌, ◌<◌, ◌≡◌, ap, Bool, true, false, ◌==◌, if◌then◌else◌, List, [], ◌∷◌, ◌++◌, some,
  length, length-append, arith,
}
use aqua_one.Doser.Upload.Header.{codes}
use aqua_one.Doser.Upload.Feed.{
  begin, scan, Found, closes, opens, carries, Event, Parser, Phase, opening, headers, payload,
  closing, done, feed, feed_loop, feed_data, feed_found, header_byte, opening_byte, end_bytes,
}
use aqua_one.Doser.Upload.Feed.Scan.{carried, carried-scan}
use aqua_one.Doser.Upload.Feed.Search.{IsSized}

-- The delimiters of a boundary.
abbrev pub opening_of : List ℕ → List ℕ
opening_of boundary = codes "--" ++ (boundary ++ 13 ∷ 10 ∷ [])

abbrev pub closing_of : List ℕ → List ℕ
closing_of boundary = 13 ∷ 10 ∷ (codes "--" ++ (boundary ++ codes "--"))

abbrev pub next_of : List ℕ → List ℕ
next_of boundary = 13 ∷ 10 ∷ (codes "--" ++ (boundary ++ 13 ∷ 10 ∷ []))

abbrev pub tail_limit : Phase → ℕ
tail_limit closing = 1
tail_limit done = 2
tail_limit _ = 0

-- A parser that has begun with a boundary: its texts, and its counters within the buffers, of which
-- opening_ has 74 bytes, headers_ 513, closing_ and carry_ 78, and nextPart_ 76.
pub record IsReading (boundary : List ℕ) (p : Parser) : Type 0 where
  pub some_bytes : 0 < length boundary
  pub few_bytes : length boundary ≤ 70
  pub opens_with : p.opening_text ≡ opening_of boundary
  pub closes_with : p.closing_text ≡ closing_of boundary
  pub next_with : p.next_part ≡ next_of boundary
  pub place : p.position < length boundary + 4
  pub header_room : length p.header_bytes ≤ 512
  pub carry_room : length p.carry < length boundary + 6
  pub tail_room : p.close_tail ≤ tail_limit p.phase
  pub not_ended : p.end_emitted ≡ false

pub IsReading-IsSized : {boundary : List ℕ} {p : Parser} → IsReading boundary p → IsSized p
IsReading-IsSized {boundary} {p} r = record {
  same =
      rw (r.closes_with, r.next_with)
        (omega (
          arith,
          length-append {0} boundary (codes "--"),
          length-append {0} boundary (13 ∷ 10 ∷ []),
        ));
  some_bytes = rw r.closes_with (omega arith);
  fits = rw r.closes_with (omega (arith, r.few_bytes, length-append {0} boundary (codes "--")));
}

-- begin takes a boundary of 1 to 70 bytes, and then the parser has it.
pub begin-IsReading :
    (boundary : List ℕ) {p : Parser} → begin boundary ≡ some p → IsReading boundary p
unfolding begin
begin-IsReading boundary {p} h = ground arith

opening_byte-IsReading :
    {boundary : List ℕ} (p : Parser) (b : ℕ)
    → IsReading boundary p
    → p.phase ≡ opening
    → (opening_byte p b).1 ≡ true
    → IsReading boundary (opening_byte p b).0
unfolding opening_byte
opening_byte-IsReading {boundary} p b r e h =
    ground (arith, ap length r.opens_with, length-append {0} boundary (13 ∷ 10 ∷ []))

end_bytes-IsReading :
    {boundary : List ℕ} (p : Parser) (ys : List ℕ)
    → IsReading boundary p
    → (end_bytes p ys).1 ≡ true
    → IsReading boundary (end_bytes p ys).0
unfolding end_bytes
end_bytes-IsReading p [] r h = r
end_bytes-IsReading {boundary} p (y ∷ ys) r h = ground (
  arith,
  end_bytes-IsReading {boundary = boundary}
      (record p {
        close_tail = p.close_tail + 1;
        phase = if p.close_tail == 1 then done else closing;
      })
      ys,
)

module _ {S : Type 0} (sink : S → Event → S × Bool) where
  header_byte-IsReading :
      {boundary : List ℕ} (p : Parser) (s : S) (b : ℕ)
      → IsReading boundary p
      → p.phase ≡ headers
      → (header_byte sink p s b).2 ≡ true
      → IsReading boundary (header_byte sink p s b).0
  unfolding header_byte
  header_byte-IsReading {boundary} p s b r e h =
      ground (arith, length-append {0} p.header_bytes (b ∷ []))

  feed_found-IsReading :
      {boundary : List ℕ} (p : Parser) (s : S) (f : Found)
      → IsReading boundary p
      → p.phase ≡ payload
      → length (carried f) < length boundary + 6
      → (feed_found sink p s f).2 ≡ true
      → IsReading boundary (feed_found sink p s f).0
  feed_found-IsReading {boundary} p s (closes pre rest) r e c h = ground (
    arith,
    end_bytes-IsReading {boundary = boundary} (record p { phase = closing; carry = [] }) rest,
  )
  feed_found-IsReading p s opens r e c h = cc
  feed_found-IsReading p s (carries pre tail) r e c h = ground arith

  feed_data-IsReading :
      {boundary : List ℕ} (p : Parser) (s : S) (xs : List ℕ)
      → IsReading boundary p
      → p.phase ≡ payload
      → (feed_data sink p s xs).2 ≡ true
      → IsReading boundary (feed_data sink p s xs).0
  unfolding feed_data
  feed_data-IsReading {boundary} p s xs r e h =
      let w = IsReading-IsSized r in
      feed_found-IsReading p s (scan p.closing_text p.next_part (p.carry ++ xs)) r e
        (omega (
          arith,
          carried-scan p.closing_text p.next_part (p.carry ++ xs) w.same w.some_bytes,
          ap length r.closes_with,
          length-append {0} boundary (codes "--"),
        ))
        h

  feed_loop-IsReading :
      {boundary : List ℕ} (p : Parser) (s : S) (xs : List ℕ)
      → IsReading boundary p
      → (feed_loop sink p s xs).2 ≡ true
      → IsReading boundary (feed_loop sink p s xs).0
  unfolding feed_loop
  feed_loop-IsReading p s [] r h = r
  feed_loop-IsReading {boundary} p s (x ∷ xs) r h = ground (
    arith,
    opening_byte-IsReading {boundary = boundary} p x,
    header_byte-IsReading {boundary = boundary} p s x,
    feed_loop-IsReading {boundary = boundary} (opening_byte p x).0 s xs,
    feed_loop-IsReading {boundary = boundary} (header_byte sink p s x).0 (header_byte sink p s x).1
        xs,
    feed_data-IsReading {boundary = boundary} p s (x ∷ xs),
    end_bytes-IsReading {boundary = boundary} p (x ∷ xs),
  )

  -- As long as no call is refused, the texts of the parser stay as begin made them, every counter within its
  -- buffer, and the bytes kept back shorter than a delimiter.
  pub feed-IsReading :
      (boundary : List ℕ) (p : Parser) (s : S) (xs : List ℕ)
      → IsReading boundary p
      → (feed sink p s xs).2 ≡ true
      → IsReading boundary (feed sink p s xs).0
  unfolding feed
  feed-IsReading boundary p s xs r h =
      ground (arith, feed_loop-IsReading {boundary = boundary} p s xs)
