-- ===== src/Doser/Upload/Feed/Scan.antt =====
-- The search for the delimiters that feedData makes, over bytes that come in two parts, by
-- aquaOneDoser/src/DoserMultipartFirmwareParser.cpp.
use aqua_one.Base.{
  ℕ, zero, suc, ◌≤◌, ◌<◌, ◌≡◌, refl, false, List, [], ◌∷◌, ◌++◌, length, drop, length-append, arith,
}
use aqua_one.Doser.Upload.Feed.{agree, scan, Found, closes, opens, carries, after}

agree-append_false : (l ys d : List ℕ) → agree l d ≡ false → agree (l ++ ys) d ≡ false
unfolding agree
agree-append_false [] ys d h = cc
agree-append_false (x ∷ l) ys [] h = h
agree-append_false (x ∷ l) ys (c ∷ d) h = ground (arith, agree-append_false l ys d)

agree-append : (l ys d : List ℕ) → length d ≤ length l → agree (l ++ ys) d ≡ agree l d
unfolding agree
agree-append [] [] [] h = refl
agree-append [] (y ∷ ys) [] h = refl
agree-append [] ys (c ∷ d) h = absurd (omega arith)
agree-append (x ∷ l) ys [] h = refl
agree-append (x ∷ l) ys (c ∷ d) h = rw (agree-append l ys d (omega arith))

drop-append : (n : ℕ) (l ys : List ℕ) → n ≤ length l → drop n (l ++ ys) ≡ drop n l ++ ys
drop-append zero l ys h = refl
drop-append (suc n) [] ys h = absurd (omega arith)
drop-append (suc n) (x ∷ l) ys h = drop-append n l ys (omega arith)

abbrev pub afters : List ℕ → Found → Found
afters [] f = f
afters (b ∷ bs) f = after b (afters bs f)

-- What is found with more bytes behind.
abbrev pub further : List ℕ → List ℕ → List ℕ → Found → Found
further close next ys (closes pre rest) = closes pre (rest ++ ys)
further close next ys opens = opens
further close next ys (carries pre tail) = afters pre (scan close next (tail ++ ys))

further-after :
    (close next ys : List ℕ) (b : ℕ) (f : Found)
    → further close next ys (after b f) ≡ after b (further close next ys f)
further-after close next ys b (closes pre rest) = refl
further-after close next ys b opens = refl
further-after close next ys b (carries pre tail) = refl

-- The search over bytes that come in two parts goes on from what it found in the first.
pub scan-append :
    (close next l ys : List ℕ)
    → length close ≡ length next
    → scan close next (l ++ ys) ≡ further close next ys (scan close next l)
unfolding scan
scan-append close next [] ys h = refl
scan-append close next (x ∷ l) ys h = ground (
  arith,
  agree-append (x ∷ l) ys close,
  agree-append (x ∷ l) ys next,
  agree-append_false (x ∷ l) ys close,
  agree-append_false (x ∷ l) ys next,
  length-append {0} l ys,
  drop-append (length close) (x ∷ l) ys,
  further-after close next ys x (scan close next l),
  scan-append close next l ys,
)

abbrev pub carried : Found → List ℕ
carried (closes pre rest) = []
carried opens = []
carried (carries pre tail) = tail

carried-after : (b : ℕ) (f : Found) → carried (after b f) ≡ carried f
carried-after b (closes pre rest) = refl
carried-after b opens = refl
carried-after b (carries pre tail) = refl

-- What is carried is shorter than the delimiter.
pub carried-scan :
    (close next l : List ℕ)
    → length close ≡ length next
    → 0 < length close
    → length (carried (scan close next l)) < length close
unfolding scan
carried-scan close next [] h c = c
carried-scan close next (x ∷ l) h c =
    ground (arith, carried-after x (scan close next l), carried-scan close next l h c)
