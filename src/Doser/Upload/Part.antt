-- ===== src/Doser/Upload/Part.antt =====
-- The headers of the one part: parseHeaders of aquaOneDoser/src/DoserMultipartFirmwareParser.cpp. A text is
-- the list of its characters.
use aqua_one.Base.{
  ℕ, zero, suc, ◌+◌, ◌-◌, Bool, true, false, not, ◌&&◌, ◌||◌, ◌==◌, ltb, leb, if◌then◌else◌, List,
  [], ◌∷◌, length, take, drop, get_or, Option, none, some,
}
use aqua_one.Doser.Upload.Header.{codes, same_token, break_at, skip, cons_to}

-- The bytes that a file's name may not have.
has_bad_byte : List ℕ → Bool
has_bad_byte [] = false
has_bad_byte (c ∷ cs) = ltb c 32 || c == 127 || c == b'/' || c == b'\\' || has_bad_byte cs

is_file_name : List ℕ → Bool
unfolding has_bad_byte
is_file_name v =
    not (length v == 0)
    && leb (length v) 128
    && not (has_bad_byte v)
    && leb 4 (length v)
    && same_token (drop (length v - 4) v) (codes ".bin")

-- What the loop over the parameters has found: the name, and the file's name.
abbrev Found : Type 0
Found = Bool × Option (List ℕ)

abbrev is_some : Option (List ℕ) → Bool
is_some none = false
is_some (some v) = true

abbrev pub same_bytes : List ℕ → List ℕ → Bool
same_bytes [] [] = true
same_bytes [] (y ∷ b) = false
same_bytes (x ∷ a) [] = false
same_bytes (x ∷ a) (y ∷ b) = x == y && same_bytes a b

-- One parameter.
take_parameter : List ℕ → List ℕ → Found → Option Found
unfolding is_file_name
take_parameter key value (name, file) =
    if same_token key (codes "name")
    then (if name || not (same_token value (codes "firmware")) then none else some (true, file))
    else if same_token key (codes "filename")
    then (if is_some file || not (is_file_name value) then none else some (name, some value))
    else none

-- The text of a parameter from its ';' on: its key, its quoted value, and what follows.
split_parameter : List ℕ → Option (List ℕ × List ℕ × List ℕ)
split_parameter rest =
    let (key, tail) = break_at b'=' (skip (λ c. c == b' ') rest) in
    let (value, more) = break_at b'"' (drop 2 tail) in
    if leb (length tail) 1 || not (get_or tail 1 0 == b'"') || length more == 0
    then none
    else some (key, value, drop 1 more)

-- The loop over the parameters, on fuel: each takes at least the ';'.
parameters : ℕ → List ℕ → Found → Option Found
unfolding split_parameter take_parameter
parameters fuel [] found = some found
parameters zero (c ∷ cs) found = none
parameters (suc fuel) (c ∷ cs) found = if not (c == b';') then none else elim (split_parameter cs) [
  | none ↦ none
  | some (key, value, rest) ↦ elim (take_parameter key value found) [
    | none ↦ none
    | some next ↦ parameters fuel rest next
  ]
]

abbrev all_found : Option Found → Option (List ℕ)
all_found none = none
all_found (some (name, file)) = if name then file else none

-- The line Content-Disposition.
disposition_line : List ℕ → Option (List ℕ)
unfolding parameters
disposition_line line =
    if ltb (length line) 30 || not (same_bytes (take 10 (drop 20 line)) (codes " form-data"))
    then none
    else all_found (parameters (length line) (drop 30 line) (false, none))

has_bad_type_byte : List ℕ → Bool
has_bad_type_byte [] = false
has_bad_type_byte (c ∷ cs) = ltb c 33 || c == b';' || has_bad_type_byte cs

-- The line Content-Type, of at least 14 characters.
is_type_line : List ℕ → Bool
unfolding has_bad_type_byte
is_type_line line =
    leb (length line) 256
    && get_or line 13 0 == b' '
    && not (length line == 14)
    && not (leb 24 (length line) && same_token (take 10 (drop 14 line)) (codes "multipart/"))
    && not (has_bad_type_byte (drop 14 line))

-- A line, without its "\r\n", and what follows.
split_line : List ℕ → Option (List ℕ × List ℕ)
split_line [] = none
split_line (x ∷ []) = none
split_line (x ∷ y ∷ rest) =
    let more = split_line (y ∷ rest) in
    if x == b'\r' && y == b'\n' then some ([], rest) else cons_to x more

abbrev named : Option (List ℕ) → Option (List ℕ)
named none = none
named (some v) = if get_or v 0 0 == 0 then none else some v

-- The lines, on fuel: each takes at least its "\r\n". `file` is the name that a disposition has set, and
-- `kind` whether there was a type.
header_lines : ℕ → List ℕ → Option (List ℕ) → Bool → Option (List ℕ)
unfolding disposition_line is_type_line split_line
header_lines zero bytes file kind = none
header_lines (suc fuel) bytes file kind = elim (split_line bytes) [
  | none ↦ none
  | some (line, rest) ↦
      if ltb 256 (length line + 2)
      then none
      else if length line == 0
      then named file
      else if leb 21 (length line) && same_token (take 20 line) (codes "Content-Disposition:")
      then (if is_some file then none else elim (disposition_line line) [
        | none ↦ none
        | some v ↦ header_lines fuel rest (some v) kind
      ])
      else if leb 14 (length line) && same_token (take 13 line) (codes "Content-Type:")
      then (let more = header_lines fuel rest file true in
          if kind || not (is_type_line line) then none else more)
      else none
]

-- parseHeaders(): the file's name where the code returns true.
unfoldable pub parse_headers : List ℕ → Option (List ℕ)
unfolding header_lines
parse_headers bytes = header_lines (length bytes) bytes none false
