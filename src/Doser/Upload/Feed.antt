-- ===== src/Doser/Upload/Feed.antt =====
-- The parser of the body of the upload, aquaOneDoser/src/DoserMultipartFirmwareParser.cpp and .h: begin,
-- feed, emitRange, feedData and finish. A buffer is the list of the bytes that are in it. The sink is a
-- parameter that acts on a state of its own; a null pointer for the bytes or the sink is left out, and the
-- file's name after a refused part. The loop of feed leaves the phases Closing and Done only by an error,
-- so that the bytes after the file have a loop of their own.
pub mod Scan
pub mod Emit
pub mod Search
pub mod Chunks
pub mod Delivery
pub mod Bounds
use aqua_one.Base.{
  ℕ, zero, suc, ◌+◌, ◌-◌, Bool, true, false, not, ◌&&◌, ◌||◌, ◌==◌, ltb, leb, if◌then◌else◌, List,
  [], ◌∷◌, ◌++◌, length, take, drop, get_or, Option, none, some,
}
use aqua_one.Doser.Upload.Header.{codes, last_or}
use aqua_one.Doser.Upload.Part.{same_bytes, parse_headers}

-- State.
pub data Phase : Type 0 where
  opening : Phase
  headers : Phase
  payload : Phase
  closing : Phase
  done : Phase
  error : Phase

-- Event, with the bytes that come with it.
pub data Event : Type 0 where
  start : Event
  bytes : List ℕ → Event
  end : Event

pub record Parser : Type 0 where
  pub opening_text : List ℕ
  pub closing_text : List ℕ
  pub next_part : List ℕ
  pub position : ℕ
  pub header_bytes : List ℕ
  pub carry : List ℕ
  pub close_tail : ℕ
  pub end_emitted : Bool
  pub file_name : List ℕ
  pub phase : Phase

-- begin(boundary).
unfoldable pub begin : List ℕ → Option Parser
begin boundary =
    if length boundary == 0 || ltb 70 (length boundary)
    then none
    else some (record {
      opening_text = codes "--" ++ (boundary ++ 13 ∷ 10 ∷ []);
      closing_text = 13 ∷ 10 ∷ (codes "--" ++ (boundary ++ codes "--"));
      next_part = 13 ∷ 10 ∷ (codes "--" ++ (boundary ++ 13 ∷ 10 ∷ []));
      position = 0;
      header_bytes = [];
      carry = [];
      close_tail = 0;
      end_emitted = false;
      file_name = [];
      phase = opening;
    })

-- The bytes agree with the text as far as both go.
unfoldable pub agree : List ℕ → List ℕ → Bool
agree [] d = true
agree (b ∷ bs) [] = true
agree (b ∷ bs) (c ∷ cs) = b == c && agree bs cs

-- What the loop of feedData comes to: the delimiter that closes the part, with the bytes before it and
-- after it; the start of another part; or the bytes that may be the start of either, with those before.
pub data Found : Type 0 where
  closes : List ℕ → List ℕ → Found
  opens : Found
  carries : List ℕ → List ℕ → Found

abbrev pub after : ℕ → Found → Found
after b (closes pre rest) = closes (b ∷ pre) rest
after b opens = opens
after b (carries pre tail) = carries (b ∷ pre) tail

unfoldable pub scan : List ℕ → List ℕ → List ℕ → Found
scan close next [] = carries [] []
scan close next (b ∷ bs) =
    let rest = after b (scan close next bs) in
    if agree (b ∷ bs) close && leb (length close) (length (b ∷ bs))
    then closes [] (drop (length close) (b ∷ bs))
    else if agree (b ∷ bs) next && leb (length next) (length (b ∷ bs))
    then opens
    else if agree (b ∷ bs) close || agree (b ∷ bs) next
    then carries [] (b ∷ bs)
    else rest

-- The phases Closing and Done.
unfoldable pub end_bytes : Parser → List ℕ → Parser × Bool
end_bytes p [] = (p, true)
end_bytes p (b ∷ bs) = elim p.phase [
  | closing ↦
      if b == (if p.close_tail == 0 then 13 else 10)
      then (end_bytes
          (record p {
            close_tail = p.close_tail + 1;
            phase = if p.close_tail == 1 then done else closing;
          })
          bs)
      else (p, false)
  | _ ↦ (p, false)
]

-- A byte of the phase Opening.
unfoldable pub opening_byte : Parser → ℕ → Parser × Bool
opening_byte p b =
    let q = record p { position = p.position + 1 } in
    if not (b == get_or p.opening_text p.position 0)
    then (q, false)
    else if q.position == length p.opening_text
    then (record q { position = 0; phase = headers }, true)
    else (q, true)

abbrev pub is_error : Phase → Bool
is_error error = true
is_error _ = false

abbrev pub can_finish : Phase → ℕ → Bool
can_finish done tail = true
can_finish closing tail = tail == 0
can_finish _ tail = false

module _ {S : Type 0} (sink : S → Event → S × Bool) where
  -- The pieces of at most 1024 bytes, on fuel.
  unfoldable pub pieces : ℕ → List ℕ → S → S × Bool
  pieces fuel [] s = (s, true)
  pieces zero (b ∷ bs) s = (s, true)
  pieces (suc fuel) (b ∷ bs) s =
      let r = sink s (bytes (take 1024 (b ∷ bs))) in
      let rest = pieces fuel (drop 1024 (b ∷ bs)) r.0 in if r.1 then rest else (r.0, false)

  -- emitRange(bytes, 0, to, oldCarry): `pre` is what is emitted, and `old` the size of the carry.
  unfoldable pub emit_range : ℕ → List ℕ → S → S × Bool
  emit_range old pre s =
      let r = sink s (bytes (take old pre)) in
      if length pre == 0
      then (s, true)
      else if old == 0
      then pieces (length pre) pre s
      else if r.1
      then pieces (length pre) (drop old pre) r.0
      else (r.0, false)

  abbrev pub feed_found : Parser → S → Found → Parser × S × Bool
  feed_found p s (closes pre rest) =
      let (t, sent) = emit_range (length p.carry) pre s in
      let (q, valid) = end_bytes (record p { phase = closing; carry = [] }) rest in
      if sent then (q, t, valid) else (p, t, false)
  feed_found p s opens = (p, s, false)
  feed_found p s (carries pre tail) =
      let (t, sent) = emit_range (length p.carry) pre s in
      if not sent || ltb 78 (length tail)
      then (p, t, false)
      else (record p { carry = tail }, t, true)

  -- feedData(bytes, length, sink, context).
  unfoldable pub feed_data : Parser → S → List ℕ → Parser × S × Bool
  feed_data p s bs = feed_found p s (scan p.closing_text p.next_part (p.carry ++ bs))

  abbrev pub part_starts : Parser → S → Option (List ℕ) → Parser × S × Bool
  part_starts p s none = (p, s, false)
  part_starts p s (some name) =
      let (t, sent) = sink s start in
      let q = record p { file_name = name } in
      if sent then (record q { phase = payload }, t, true) else (q, t, false)

  -- A byte of the phase Headers.
  unfoldable pub header_byte : Parser → S → ℕ → Parser × S × Bool
  header_byte p s c =
      let last = last_or p.header_bytes 0 in
      let q = record p { header_bytes = p.header_bytes ++ c ∷ [] } in
      let n = length q.header_bytes in
      if leb 512 (length p.header_bytes)
      then (p, s, false)
      else if c == 10 && (length p.header_bytes == 0 || not (last == 13))
      then (p, s, false)
      else if not (length p.header_bytes == 0) && last == 13 && not (c == 10)
      then (p, s, false)
      else if leb 4 n && same_bytes (drop (n - 4) q.header_bytes) (13 ∷ 10 ∷ 13 ∷ 10 ∷ [])
      then part_starts q s (parse_headers q.header_bytes)
      else (q, s, true)

  -- The loop of feed.
  unfoldable pub feed_loop : Parser → S → List ℕ → Parser × S × Bool
  feed_loop p s [] = (p, s, true)
  feed_loop p s (b ∷ bs) = elim p.phase [
    | opening ↦
        (let r = opening_byte p b in
          elim r.1 [ true ↦ feed_loop r.0 s bs | false ↦ (r.0, s, false) ])
    | headers ↦ (let r = header_byte p s b in elim r.2 [ true ↦ feed_loop r.0 r.1 bs | false ↦ r ])
    | payload ↦ feed_data p s (b ∷ bs)
    | _ ↦ (let r = end_bytes p (b ∷ bs) in (r.0, s, r.1))
  ]

  -- feed(bytes, length, sink, context).
  unfoldable pub feed : Parser → S → List ℕ → Parser × S × Bool
  feed p s bs =
      let r = feed_loop p s bs in
      if is_error p.phase
      then (p, s, false)
      else if r.2
      then r
      else (record r.0 { phase = error }, r.1, false)

  -- finish(sink, context).
  unfoldable pub finish : Parser → S → Parser × S × Bool
  finish p s =
      let (t, sent) = sink s end in
      if p.end_emitted || not (can_finish p.phase p.close_tail)
      then (record p { phase = error }, s, false)
      else (record p { phase = if sent then done else error; end_emitted = true }, t, sent)
