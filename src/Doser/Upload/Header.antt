-- ===== src/Doser/Upload/Header.antt =====
-- The content type of the request: parseContentType of aquaOneDoser/src/DoserMultipartFirmwareParser.cpp.
-- A text is the list of its characters; the C string that is compared with is a literal.
use Prim.Native.String.{String}
use Prim.Native.Char.{code}
use aqua_one.Base.{
  ℕ, ◌+◌, ◌-◌, Bool, true, false, not, ◌&&◌, ◌||◌, ◌==◌, leb, if◌then◌else◌, List, [], ◌∷◌, length,
  drop, get_or, Option, none, some,
}

-- The characters of a literal.
abbrev pub codes : String → List ℕ
codes String.[] = []
codes (String.◌∷◌ c s) = code c ∷ codes s

pub lower : ℕ → ℕ
lower c = if leb 65 c && leb c 90 then c + 32 else c

-- token(a, n, b): equal but for the case of the letters.
unfoldable pub same_token : List ℕ → List ℕ → Bool
unfolding lower
same_token [] [] = true
same_token [] (y ∷ b) = false
same_token (x ∷ a) [] = false
same_token (x ∷ a) (y ∷ b) = lower x == lower y && same_token a b

-- bchar(c).
unfoldable pub is_boundary_char : ℕ → Bool
is_boundary_char c =
    (leb 48 c && leb c 57)
    || (leb 65 c && leb c 90)
    || (leb 97 c && leb c 122)
    || c == b'\''
    || c == b'('
    || c == b')'
    || c == b'+'
    || c == b'_'
    || c == b','
    || c == b'-'
    || c == b'.'
    || c == b'/'
    || c == b':'
    || c == b'='
    || c == b'?'
    || c == b' '

-- What stands before the first `c`, and what stands from it on.
unfoldable pub break_at : ℕ → List ℕ → List ℕ × List ℕ
break_at c [] = ([], [])
break_at c (x ∷ xs) = let r = break_at c xs in if x == c then ([], x ∷ xs) else (x ∷ r.0, r.1)

unfoldable pub skip : (ℕ → Bool) → List ℕ → List ℕ
skip test [] = []
skip test (x ∷ xs) = let rest = skip test xs in if test x then rest else x ∷ xs

abbrev pub cons_to : ℕ → Option (List ℕ × List ℕ) → Option (List ℕ × List ℕ)
cons_to c none = none
cons_to c (some (n, rest)) = some (c ∷ n, rest)

-- The loop that copies the boundary, `n` characters of which are copied.
unfoldable pub copy_boundary : Bool → ℕ → List ℕ → Option (List ℕ × List ℕ)
copy_boundary quoted n [] = some ([], [])
copy_boundary quoted n (c ∷ cs) =
    let rest = copy_boundary quoted (n + 1) cs in
    if quoted && c == b'"'
    then some ([], c ∷ cs)
    else if n == 70 || not (is_boundary_char c)
    then none
    else cons_to c rest

abbrev pub last_or : List ℕ → ℕ → ℕ
last_or xs d = get_or xs (length xs - 1) d

-- The end of parseContentType: the closing quote, and that nothing follows.
unfoldable pub close_boundary : Bool → List ℕ → List ℕ → Option (List ℕ)
close_boundary true boundary [] = none
close_boundary true boundary (q ∷ rest) =
    if not (q == b'"')
      || not (length rest == 0)
      || length boundary == 0
      || last_or boundary 0 == b' '
    then none
    else some boundary
close_boundary false boundary rest =
    if not (length rest == 0) || length boundary == 0 || last_or boundary 0 == b' '
    then none
    else some boundary

abbrev pub after_copy : Bool → Option (List ℕ × List ℕ) → Option (List ℕ)
after_copy quoted none = none
after_copy quoted (some (boundary, rest)) = close_boundary quoted boundary rest

-- From the '=' on.
unfoldable pub boundary_value : List ℕ → Option (List ℕ)
unfolding close_boundary
boundary_value [] = after_copy false (copy_boundary false 0 [])
boundary_value (c ∷ cs) =
    if c == b'"'
    then after_copy true (copy_boundary true 0 cs)
    else after_copy false (copy_boundary false 0 (c ∷ cs))

-- From the ';' on: the key, and the '=' after it.
unfoldable pub boundary_parameter : List ℕ → Option (List ℕ)
unfolding boundary_value
boundary_parameter rest =
    let (key, tail) = break_at b'=' (skip (λ c. c == b' ' || c == b'\t') rest) in
    if length tail == 0 || not (same_token key (codes "boundary"))
    then none
    else boundary_value (drop 1 tail)

-- parseContentType(value, boundary).
unfoldable pub parse_content_type : List ℕ → Option (List ℕ)
unfolding boundary_parameter
parse_content_type cs =
    let (kind, tail) = break_at b';' cs in
    if length cs == 0 || leb 128 (length cs)
    then none
    else if length tail == 0 || not (same_token kind (codes "multipart/form-data"))
    then none
    else boundary_parameter (drop 1 tail)
