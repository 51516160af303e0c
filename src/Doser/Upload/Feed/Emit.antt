-- ===== src/Doser/Upload/Feed/Emit.antt =====
-- What the parser of aquaOneDoser/src/DoserMultipartFirmwareParser.cpp gives to the sink, and the bytes
-- after the file.
use aqua_one.Base.{
  ℕ, zero, suc, ◌+◌, ◌≤◌, ◌≡◌, refl, sym, ap, Bool, true, false, ◌==◌, if◌then◌else◌, List, [], ◌∷◌,
  ◌++◌, Option, none, some, length, take, drop, length-take-drop, arith,
}
use aqua_one.Doser.Upload.Feed.{
  Event, bytes, pieces, emit_range, Parser, Phase, closing, done, end_bytes,
}

infixl 5 ◌>>=◌
abbrev pub ◌>>=◌ : {A B : Type 0} → Option A → (A → Option B) → Option B
none >>= f = none
some a >>= f = f a

abbrev pub taken : {S : Type 0} → S × Bool → Option S
taken (s, true) = some s
taken (s, false) = none

-- What a call leaves where it succeeds.
abbrev pub accepted : {S : Type 0} → Parser × S × Bool → Option (Parser × S)
accepted (p, s, true) = some (p, s)
accepted (p, s, false) = none

module _ {S : Type 0} (sink : S → Event → S × Bool) where
  -- What the sink makes of some bytes; of none, nothing.
  abbrev pub deliver : List ℕ → S → Option S
  deliver [] s = some s
  deliver (b ∷ bs) s = taken (sink s (bytes (b ∷ bs)))

-- A sink that takes bytes in pieces as it takes them together, as long as it refuses none.
abbrev pub IsStreaming : {S : Type 0} → (S → Event → S × Bool) → Type 0
IsStreaming {S} sink =
    (s : S) (xs ys : List ℕ) → deliver sink (xs ++ ys) s ≡ (deliver sink xs s >>= deliver sink ys)

take-drop : (n : ℕ) (l : List ℕ) → take n l ++ drop n l ≡ l
take-drop zero l = refl
take-drop (suc n) [] = refl
take-drop (suc n) (x ∷ l) = ap (λ t. x ∷ t) (take-drop n l)

taken-if :
    {S : Type 0} (r : S × Bool) (k : S → S × Bool) (f : S → Option S)
    → taken (k r.0) ≡ f r.0
    → taken (if r.1 then k r.0 else (r.0, false)) ≡ (taken r >>= f)
taken-if (s, true) k f h = h
taken-if (s, false) k f h = refl

abbrev pub ended : {S : Type 0} → Option Parser → S → Option (Parser × S)
ended none t = none
ended (some q) t = some (q, t)

-- The phases after the file.
abbrev pub is_ending : Phase → Bool
is_ending closing = true
is_ending done = true
is_ending _ = false

pub end_bytes-append :
    (p : Parser) (xs ys : List ℕ)
    → taken (end_bytes p (xs ++ ys)) ≡ (taken (end_bytes p xs) >>= λ q. taken (end_bytes q ys))
unfolding end_bytes
end_bytes-append p [] ys = refl
end_bytes-append p (x ∷ xs) ys = ground (
  arith,
  end_bytes-append
      (record p {
        close_tail = p.close_tail + 1;
        phase = if p.close_tail == 1 then done else closing;
      })
      xs ys,
)

module _ {S : Type 0} (sink : S → Event → S × Bool) (law : IsStreaming sink) where
  deliver_split :
      (n : ℕ) (l : List ℕ) (s : S)
      → deliver sink l s ≡ (deliver sink (take n l) s >>= deliver sink (drop n l))
  deliver_split n l s =
      rw (← law s (take n l) (drop n l)) (ap (λ t. deliver sink t s) (sym (take-drop n l)))

  taken-pieces :
      (fuel : ℕ) (l : List ℕ) (s : S)
      → length l ≤ fuel
      → taken (pieces sink fuel l s) ≡ deliver sink l s
  unfolding pieces
  taken-pieces fuel [] s h = refl
  taken-pieces zero (b ∷ bs) s h = absurd (omega arith)
  taken-pieces (suc fuel) (b ∷ bs) s h = rw (deliver_split 1024 (b ∷ bs) s) (
      taken-if (sink s (bytes (take 1024 (b ∷ bs)))) (pieces sink fuel (drop 1024 (b ∷ bs)))
        (deliver sink (drop 1024 (b ∷ bs)))
        (taken-pieces fuel (drop 1024 (b ∷ bs)) _ (omega (arith, length-take-drop 1023 bs))))

  pub taken-emit_range :
      (old : ℕ) (pre : List ℕ) (s : S) → taken (emit_range sink old pre s) ≡ deliver sink pre s
  unfolding emit_range
  taken-emit_range old [] s = refl
  taken-emit_range zero (b ∷ bs) s = ground (arith, taken-pieces (length (b ∷ bs)) (b ∷ bs) s)
  taken-emit_range (suc old) (b ∷ bs) s = rw (deliver_split (suc old) (b ∷ bs) s) (
      ground (
        arith,
        taken-if (sink s (bytes (take (suc old) (b ∷ bs))))
            (pieces sink (length (b ∷ bs)) (drop old bs)) (deliver sink (drop old bs))
            (taken-pieces (length (b ∷ bs)) (drop old bs)
              (sink s (bytes (take (suc old) (b ∷ bs)))).0
              (omega (arith, length-take-drop old bs))),
      ))
