-- ===== src/Hydro/Tank/Sorting.antt =====
-- The sort inside median(): its result is the same samples in order.
use mathlib.Core.List.{Perm}
use mathlib.Core.List.Perm
use aqua_one.Base.{
  ℕ, zero, suc, ◌≤◌, Bool, true, false, ◌≡◌, refl, List, [], ◌∷◌, ◌++◌, take, drop, All, length,
  length-take-le, arith, Bool-cases, inl, inr,
}
use aqua_one.Hydro.Floats.{Floats, IsOrdered}
use aqua_one.Hydro.Tank.{sift, exchange, sort_samples}

module _ {F : Type 0} (lt : F → F → Bool) where
  sift-perm : (x : F) (ys : List F) → Perm (x ∷ ys) ((sift lt x ys).0 ∷ (sift lt x ys).1)
  unfolding sift
  sift-perm x [] = Perm.refl (x ∷ [])
  sift-perm x (y ∷ ys) = elim (Bool-cases (lt y x)) [
    | inl e ↦ rw (e, sift) (Perm.trans (Perm.cons x (sift-perm y ys)) (Perm.swap _ x _))
    | inr e ↦
        rw (e, sift)
          (Perm.trans (Perm.swap y x ys)
            (Perm.trans (Perm.cons y (sift-perm x ys)) (Perm.swap _ y _)))
  ]

  pub exchange-perm : (n : ℕ) (xs : List F) → Perm xs (exchange lt n xs)
  unfolding exchange
  exchange-perm zero xs = Perm.refl xs
  exchange-perm (suc n) [] = Perm.refl []
  exchange-perm (suc n) (x ∷ xs) =
      Perm.trans (sift-perm x xs) (Perm.cons _ (exchange-perm n (sift lt x xs).1))

  -- Each value is followed by none that is less.
  abbrev pub IsSorted : List F → Type 0
  IsSorted [] = Unit {0}
  IsSorted (x ∷ xs) = All (λ z. lt z x ≡ false) xs × IsSorted xs

  module _ (P : F → Type 0) where
    All-sift : (x : F) (ys : List F) → P x → All P ys → P (sift lt x ys).0 × All P (sift lt x ys).1
    unfolding sift
    All-sift x [] p h = (p, tt)
    All-sift x (y ∷ ys) p h = ground (arith, All-sift x ys p h.1, All-sift y ys h.0 h.1)

    All-exchange : (n : ℕ) (xs : List F) → All P xs → All P (exchange lt n xs)
    unfolding exchange
    All-exchange zero xs h = h
    All-exchange (suc n) [] h = tt
    All-exchange (suc n) (x ∷ xs) h =
        let (p, q) = All-sift x xs h.0 h.1 in (p, All-exchange n (sift lt x xs).1 q)

  length-sift : (x : F) (ys : List F) → length (sift lt x ys).1 ≡ length ys
  unfolding sift
  length-sift x [] = refl
  length-sift x (y ∷ ys) = ground (arith, length-sift x ys, length-sift y ys)

  pub length-exchange : (n : ℕ) (xs : List F) → length (exchange lt n xs) ≡ length xs
  unfolding exchange
  length-exchange zero xs = refl
  length-exchange (suc n) [] = refl
  length-exchange (suc n) (x ∷ xs) =
      omega (arith, length-exchange n (sift lt x xs).1, length-sift x xs)

  sift_below :
      (x y : F) (ys : List F)
      → lt y x ≡ true
      → sift lt x (y ∷ ys) ≡ ((sift lt y ys).0, x ∷ (sift lt y ys).1)
  unfolding sift
  sift_below x y ys e = rw e

  sift_above :
      (x y : F) (ys : List F)
      → lt y x ≡ false
      → sift lt x (y ∷ ys) ≡ ((sift lt x ys).0, y ∷ (sift lt x ys).1)
  unfolding sift
  sift_above x y ys e = rw e

  module _ (order : IsOrdered lt) where
    lt_irrefl : (x : F) → lt x x ≡ false
    lt_irrefl x = ground (arith, order.asym x x)

    -- What sift() leaves in front is not above the value it began with, nor above any other.
    sift_least :
        (x : F) (ys : List F)
        → (lt x (sift lt x ys).0 ≡ false)
          × All (λ z. lt z (sift lt x ys).0 ≡ false) (sift lt x ys).1
    sift_least x [] = unfold sift in (lt_irrefl x, tt)
    sift_least x (y ∷ ys) = elim (Bool-cases (lt y x)) [
      | inl e ↦
          let (least, all) = sift_least y ys in
          let below = order.cotrans _ y x least (order.asym y x e) in
          rw (sift_below x y ys e) (below, (below, all))
      | inr e ↦
          let (least, all) = sift_least x ys in
          rw (sift_above x y ys e) (least, (order.cotrans _ x y least e, all))
    ]

    -- Enough rounds put any samples in order.
    pub exchange-IsSorted : (n : ℕ) (xs : List F) → length xs ≤ n → IsSorted (exchange lt n xs)
    unfolding exchange
    exchange-IsSorted zero [] h = tt
    exchange-IsSorted zero (x ∷ xs) h = elim h [ ]
    exchange-IsSorted (suc n) [] h = tt
    exchange-IsSorted (suc n) (x ∷ xs) h = (
      All-exchange (λ z. lt z (sift lt x xs).0 ≡ false) n (sift lt x xs).1 (sift_least x xs).1,
      exchange-IsSorted n (sift lt x xs).1 (omega (arith, length-sift x xs)),
    )

-- Where `<` orders the floats, median() leaves its first `count` samples the same up to order and
-- sorted, and does not touch the others.
pub sort_samples_lem :
    {F : Type 0} (𝓕 : Floats F) (values : List F) (count : ℕ)
    → IsOrdered 𝓕.lt
    → (sorted : List F) × (sort_samples 𝓕 values count ≡ sorted ++ drop count values)
      × Perm (take count values) sorted
      × IsSorted 𝓕.lt sorted
unfolding sort_samples
sort_samples_lem 𝓕 values count order = (
  exchange 𝓕.lt count (take count values),
  refl,
  exchange-perm 𝓕.lt count (take count values),
  exchange-IsSorted 𝓕.lt order count (take count values) (length-take-le count values),
)
