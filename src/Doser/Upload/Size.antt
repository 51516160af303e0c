-- ===== src/Doser/Upload/Size.antt =====
-- parseFirmwareSize and validContentLength of aquaOneDoser/src/DoserMultipartFirmwareParser.cpp. A text is
-- the list of its characters, without the final zero.
use aqua_one.Base.{
  ℕ, ◌+◌, ◌-◌, ◌*◌, ◌/◌, ◌≤◌, ◌<◌, ◌≡◌, Bool, true, not, ◌&&◌, ◌||◌, ◌==◌, ltb, leb, if◌then◌else◌,
  List, [], ◌∷◌, length, Option, none, some, word, arith, Bool-cases, inl, inr,
}

-- The loop over the digits: none where the code returns false.
unfoldable pub digits_loop : List ℕ → ℕ → Option ℕ
digits_loop [] result = some result
digits_loop (c ∷ cs) result =
    let rest = digits_loop cs (result * 10 + (c - 48)) in
    if ltb c 48 || ltb 57 c
    then none
    else if ltb ((word - 1 - (c - 48)) / 10) result
    then none
    else rest

abbrev positive : Option ℕ → Option ℕ
positive none = none
positive (some n) = if n == 0 then none else some n

-- parseFirmwareSize(value, size); strnlen stops at 11.
unfoldable pub parse_firmware_size : List ℕ → Option ℕ
parse_firmware_size cs =
    if length cs == 0 || ltb 10 (length cs) then none else positive (digits_loop cs 0)

-- validContentLength(body, firmwareSize).
unfoldable pub valid_content_length : ℕ → ℕ → Bool
valid_content_length body size = not (size == 0) && ltb size body && leb body (size + 664)

-- What a decimal text stands for, of any length.
abbrev pub is_decimal : List ℕ → Bool
is_decimal [] = true
is_decimal (c ∷ cs) = leb 48 c && leb c 57 && is_decimal cs

abbrev pub value_from : ℕ → List ℕ → ℕ
value_from n [] = n
value_from n (c ∷ cs) = value_from (n * 10 + (c - 48)) cs

value_from-le : (n : ℕ) (cs : List ℕ) → n ≤ value_from n cs
value_from-le n [] = omega arith
value_from-le n (c ∷ cs) = omega (arith, value_from-le (n * 10 + (c - 48)) cs)

-- The loop keeps to the value as long as it fits, and stops where it would not.
digits_loop_lem :
    (cs : List ℕ) (n : ℕ)
    → n < word
    → digits_loop cs n
      ≡ (if is_decimal cs && ltb (value_from n cs) word then some (value_from n cs) else none)
unfolding digits_loop
digits_loop_lem [] n h = ground arith
digits_loop_lem (c ∷ cs) n h =
    let m = n * 10 + (c - 48) in
    elim (Bool-cases (ltb ((word - 1 - (c - 48)) / 10) n)) [
      | inl over ↦ ground (arith, value_from-le m cs)
      | inr fits ↦ ground (arith, digits_loop_lem cs m)
    ]

-- A size is taken just when it is written with one to ten decimal digits and is a positive uint32_t, and
-- then it is the value of the digits: no wrap-around is ever taken for a size.
pub parse_firmware_size_lem :
    (cs : List ℕ)
    → parse_firmware_size cs ≡ (
        if leb 1 (length cs)
          && leb (length cs) 10
          && is_decimal cs
          && leb 1 (value_from 0 cs)
          && ltb (value_from 0 cs) word
        then some (value_from 0 cs)
        else none)
unfolding parse_firmware_size
parse_firmware_size_lem cs = ground (arith, digits_loop_lem cs 0 (omega arith))
