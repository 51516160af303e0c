-- ===== src/Core/Web/Control/Utf8.antt =====
-- UTF-8, and the texts of it that validCloseReason of aquaOneCore/src/Web/WebSocketControlFrames.h accepts.
use aqua_one.Base.{
  ℕ, zero, suc, ◌+◌, ◌/◌, ◌%◌, ◌≤◌, ◌<◌, ◌≡◌, refl, true, false, ◌&&◌, ltb, leb, if◌then◌else◌,
  List, [], ◌∷◌, ◌++◌, length, length-append, some, Bool-cases, inl, inr, arith,
}
use aqua_one.Core.Web.Control.{lead_of, others, following, follow, character, go_on, reason_loop}

-- A code point that is no surrogate.
pub record IsScalar (c : ℕ) : Type 0 where
  pub in_range : c < 1114112
  pub no_surrogate : (leb 55296 c && leb c 57343) ≡ false

-- UTF-8.
abbrev pub lead_byte : ℕ → ℕ
lead_byte c =
    if ltb c 128
    then c
    else if ltb c 2048
    then 192 + c / 64
    else if ltb c 65536
    then 224 + c / 4096
    else 240 + c / 262144

abbrev pub tail_bytes : ℕ → List ℕ
tail_bytes c =
    if ltb c 128
    then []
    else if ltb c 2048
    then (128 + c % 64) ∷ []
    else if ltb c 65536
    then (128 + c / 64 % 64) ∷ (128 + c % 64) ∷ []
    else (128 + c / 4096 % 64) ∷ (128 + c / 64 % 64) ∷ (128 + c % 64) ∷ []

abbrev pub encode : List ℕ → List ℕ
encode [] = []
encode (c ∷ cs) = lead_byte c ∷ (tail_bytes c ++ encode cs)

character_two :
    (c : ℕ) (rest : List ℕ)
    → (128 ≤ c) × (c < 2048)
    → character (192 + c / 64) ((128 + c % 64) ∷ rest) ≡ some rest
unfolding character lead_of follow following others
character_two c rest h = ground arith

character_three :
    (c : ℕ) (rest : List ℕ)
    → (2048 ≤ c) × (c < 65536)
    → (leb 55296 c && leb c 57343) ≡ false
    → character (224 + c / 4096) ((128 + c / 64 % 64) ∷ (128 + c % 64) ∷ rest) ≡ some rest
unfolding character lead_of follow following others
character_three c rest h s = ground arith

character_four :
    (c : ℕ) (rest : List ℕ)
    → (65536 ≤ c) × (c < 1114112)
    → character
        (240 + c / 262144)
        ((128 + c / 4096 % 64) ∷ (128 + c / 64 % 64) ∷ (128 + c % 64) ∷ rest)
      ≡ some rest
unfolding character lead_of follow following others
character_four c rest h = ground arith

character_one : (c : ℕ) (rest : List ℕ) → c < 128 → character c rest ≡ some rest
unfolding character
character_one c rest h = ground arith

pub below : (a b : ℕ) → ltb a b ≡ true → a < b
below a b h = ground arith

not_below : (a b : ℕ) → ltb a b ≡ false → b ≤ a
not_below a b h = ground arith

character-encode :
    (c : ℕ) (rest : List ℕ)
    → IsScalar c
    → character (lead_byte c) (tail_bytes c ++ rest) ≡ some rest
character-encode c rest s = elim (Bool-cases (ltb c 128)) [
  | inl e ↦ rw e (character_one c rest (below c 128 e))
  | inr e ↦ elim (Bool-cases (ltb c 2048)) [
    | inl f ↦ rw (e, f) (character_two c rest (not_below c 128 e, below c 2048 f))
    | inr f ↦ elim (Bool-cases (ltb c 65536)) [
      | inl g ↦
          rw (e, f, g) (character_three c rest (not_below c 2048 f, below c 65536 g) s.no_surrogate)
      | inr g ↦ rw (e, f, g) (character_four c rest (not_below c 65536 g, s.in_range))
    ]
  ]
]

abbrev pub AreScalar : List ℕ → Type 0
AreScalar [] = Unit
AreScalar (c ∷ cs) = IsScalar c × AreScalar cs

pub reason_loop-encode :
    (fuel : ℕ) (cs : List ℕ)
    → AreScalar cs
    → length (encode cs) ≤ fuel
    → reason_loop fuel (encode cs) ≡ true
unfolding reason_loop go_on
reason_loop-encode fuel [] s h = refl
reason_loop-encode zero (c ∷ cs) s h = absurd (omega arith)
reason_loop-encode (suc fuel) (c ∷ cs) s h =
    rw (character-encode c (encode cs) s.0) (
      reason_loop-encode fuel cs s.1 (ground (arith, length-append {0} (tail_bytes c) (encode cs))))
