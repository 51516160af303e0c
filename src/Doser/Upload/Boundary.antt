-- ===== src/Doser/Upload/Boundary.antt =====
-- The boundary that parseContentType takes from the content type, and begin of
-- aquaOneDoser/src/DoserMultipartFirmwareParser.cpp.
use aqua_one.Base.{
  ℕ, ◌+◌, ◌≤◌, ◌<◌, ◌≡◌, ◌≢◌, subst, drop, Bool, true, false, not, ◌&&◌, ◌||◌, ◌==◌, leb, List, [],
  ◌∷◌, Option, none, some, length, arith, Bool-cases, inl, inr, All,
}
use aqua_one.Doser.Upload.Header.{
  parse_content_type, boundary_parameter, boundary_value, after_copy, close_boundary, copy_boundary,
  cons_to, is_boundary_char, break_at, skip, same_token, codes,
}
use aqua_one.Doser.Upload.Feed.{begin}

or_false : (a b : Bool) → (a || not b) ≡ false → b ≡ true
or_false a b h = ground arith

-- The boundary that is copied, whatever follows.
abbrev IsText : Option (List ℕ × List ℕ) → ℕ → Type 0
IsText none n = Unit
IsText (some (b, rest)) n = (n + length b ≤ 70) × All (λ c. is_boundary_char c ≡ true) b

cons_to-IsText :
    (c : ℕ) (r : Option (List ℕ × List ℕ)) (n : ℕ)
    → is_boundary_char c ≡ true
    → IsText r (n + 1)
    → IsText (cons_to c r) n
cons_to-IsText c none n e h = tt
cons_to-IsText c (some (b, rest)) n e h = (omega arith, (e, h.1))

copy_boundary-IsText :
    (quoted : Bool) (n : ℕ) (cs : List ℕ) → n ≤ 70 → IsText (copy_boundary quoted n cs) n
unfolding copy_boundary
copy_boundary-IsText quoted n [] h = ground arith
copy_boundary-IsText quoted n (c ∷ cs) h = elim (Bool-cases (quoted && c == 34)) [
  | inl e ↦ rw e (ground arith)
  | inr e ↦ elim (Bool-cases (n == 70 || not (is_boundary_char c))) [
    | inl f ↦ rw (e, f) tt
    | inr f ↦
        rw (e, f)
          (cons_to-IsText c (copy_boundary quoted (n + 1) cs) n (or_false _ _ f)
            (copy_boundary-IsText quoted (n + 1) cs (ground arith)))
  ]
]

-- The boundary that is given to begin.
abbrev IsBoundary : Option (List ℕ) → Type 0
IsBoundary none = Unit
IsBoundary (some b) = (0 < length b) × (length b ≤ 70) × All (λ c. is_boundary_char c ≡ true) b

after_copy-IsBoundary :
    (quoted : Bool) (r : Option (List ℕ × List ℕ)) → IsText r 0 → IsBoundary (after_copy quoted r)
unfolding close_boundary
after_copy-IsBoundary quoted none h = tt
after_copy-IsBoundary true (some (b, [])) h = tt
after_copy-IsBoundary true (some (b, q ∷ rest)) h = ground arith
after_copy-IsBoundary false (some (b, rest)) h = ground arith

boundary_value-IsBoundary : (cs : List ℕ) → IsBoundary (boundary_value cs)
unfolding boundary_value
boundary_value-IsBoundary [] =
    after_copy-IsBoundary false (copy_boundary false 0 [])
      (copy_boundary-IsText false 0 [] (omega arith))
boundary_value-IsBoundary (c ∷ cs) = elim (Bool-cases (c == 34)) [
  | inl e ↦ rw e (
      after_copy-IsBoundary true (copy_boundary true 0 cs)
        (copy_boundary-IsText true 0 cs (omega arith)))
  | inr e ↦ rw e (
      after_copy-IsBoundary false (copy_boundary false 0 (c ∷ cs))
        (copy_boundary-IsText false 0 (c ∷ cs) (omega arith)))
]

boundary_parameter-IsBoundary : (cs : List ℕ) → IsBoundary (boundary_parameter cs)
unfolding boundary_parameter
boundary_parameter-IsBoundary cs =
    let r = break_at 61 (skip (λ c. c == 32 || c == 9) cs) in
    elim (Bool-cases (length r.1 == 0 || not (same_token r.0 (codes "boundary")))) [
      | inl e ↦ rw e tt
      | inr e ↦ rw e (boundary_value-IsBoundary (drop 1 r.1))
    ]

parse_content_type-IsBoundary : (cs : List ℕ) → IsBoundary (parse_content_type cs)
unfolding parse_content_type
parse_content_type-IsBoundary cs =
    let r = break_at 59 cs in
    elim (Bool-cases (length cs == 0 || leb 128 (length cs))) [
      | inl e ↦ rw e tt
      | inr e ↦
          elim (Bool-cases
            (length r.1 == 0 || not (same_token r.0 (codes "multipart/form-data")))) [
              | inl f ↦ rw (e, f) tt
              | inr f ↦ rw (e, f) (boundary_parameter-IsBoundary (drop 1 r.1))
            ]
    ]

-- A boundary that the content type gives has 1 to 70 characters, each of them one that a boundary may have,
-- and the parser begins with it.
pub parse_content_type-begin :
    (cs : List ℕ) {boundary : List ℕ}
    → parse_content_type cs ≡ some boundary
    → (begin boundary ≢ none) × All (λ c. is_boundary_char c ≡ true) boundary
unfolding begin
parse_content_type-begin cs {boundary} h =
    let is_boundary = subst IsBoundary h (parse_content_type-IsBoundary cs) in
    (ground arith, is_boundary.2)
