-- ===== src/Core/Web/Control/Text.antt =====
-- The text of a close, by validCloseReason of aquaOneCore/src/Web/WebSocketControlFrames.h: what it accepts is UTF-8.
use aqua_one.Base.{
  ℕ, zero, suc, ◌+◌, ◌-◌, ◌*◌, ◌≤◌, ◌<◌, ◌≡◌, refl, ◌↔◌, sym, ap, Option, Bool, subst, true, ◌&&◌,
  ◌==◌, ltb, leb, if◌then◌else◌, List, [], ◌∷◌, ◌++◌, length, length-append, none, some, Bool-cases,
  inl, inr, arith,
}
use aqua_one.Core.Web.Control.{
  Lead, lead_of, others, following, follow, character, go_on, reason_loop, valid_close_reason,
}
use aqua_one.Core.Web.Control.Utf8.{
  IsScalar, lead_byte, tail_bytes, encode, AreScalar, reason_loop-encode, below,
}

-- A character that is read from some bytes.
record IsRead (lead : ℕ) (text rest : List ℕ) : Type 0 where
  code_point : ℕ
  scalar : IsScalar code_point
  leads : lead ≡ lead_byte code_point
  trails : text ≡ tail_bytes code_point ++ rest

one-IsRead : (lead : ℕ) (text rest : List ℕ) → lead < 128 → text ≡ rest → IsRead lead text rest
one-IsRead lead text rest h e = record {
  code_point = lead;
  scalar = record { in_range = omega arith; no_surrogate = ground arith };
  leads = ground arith;
  trails = ground arith;
}

two-IsRead :
    (lead a : ℕ) (text : List ℕ)
    → (194 ≤ lead) × (lead ≤ 223)
    → (128 ≤ a) × (a ≤ 191)
    → IsRead lead (a ∷ text) text
two-IsRead lead a text h k = record {
  code_point = (lead - 192) * 64 + (a - 128);
  scalar = record { in_range = omega arith; no_surrogate = ground arith };
  leads = ground arith;
  trails = ground arith;
}

three-IsRead :
    (lead a b : ℕ) (text : List ℕ)
    → (224 ≤ lead) × (lead ≤ 239)
    → ((if lead == 224 then 160 else 128) ≤ a) × (a ≤ (if lead == 237 then 159 else 191))
    → (128 ≤ b) × (b ≤ 191)
    → IsRead lead (a ∷ b ∷ text) text
three-IsRead lead a b text h k m = record {
  code_point = (lead - 224) * 4096 + (a - 128) * 64 + (b - 128);
  scalar = record { in_range = ground arith; no_surrogate = ground arith };
  leads = ground arith;
  trails = ground arith;
}

four-IsRead :
    (lead a b d : ℕ) (text : List ℕ)
    → (240 ≤ lead) × (lead ≤ 244)
    → ((if lead == 240 then 144 else 128) ≤ a) × (a ≤ (if lead == 244 then 143 else 191))
    → (128 ≤ b) × (b ≤ 191)
    → (128 ≤ d) × (d ≤ 191)
    → IsRead lead (a ∷ b ∷ d ∷ text) text
four-IsRead lead a b d text h k m n = record {
  code_point = (lead - 240) * 262144 + (a - 128) * 4096 + (b - 128) * 64 + (d - 128);
  scalar = record { in_range = ground arith; no_surrogate = ground arith };
  leads = ground arith;
  trails = ground arith;
}

some_eq : (a b : List ℕ) → some a ≡ some b → a ≡ b
some_eq a b h = cc

-- The bytes that others and following have accepted.
others_byte :
    (n b : ℕ) (text rest : List ℕ)
    → others (suc n) (b ∷ text) ≡ some rest
    → (128 ≤ b) × (b ≤ 191) × (others n text ≡ some rest)
unfolding others
others_byte n b text rest h = ground arith

following_byte :
    (l : Lead) (b : ℕ) (text rest : List ℕ)
    → following l (b ∷ text) ≡ some rest
    → (l.first_min ≤ b) × (b ≤ l.first_max) × (others (l.trailing - 1) text ≡ some rest)
unfolding following
following_byte l b text rest h = ground arith

two-following :
    (lead : ℕ) (text rest : List ℕ)
    → (194 ≤ lead) × (lead ≤ 223)
    → following (record { trailing = 1; first_min = 128; first_max = 191 }) text ≡ some rest
    → IsRead lead text rest
unfolding following others
two-following lead [] rest h e = absurd (cc)
two-following lead (a ∷ text) rest h e =
    let f = following_byte _ a text rest e in
    subst (IsRead lead (a ∷ text)) (some_eq text rest f.2) (two-IsRead lead a text h (f.0, f.1))

one-others :
    (bs rest : List ℕ) → others 1 bs ≡ some rest → (b : ℕ) × (bs ≡ b ∷ rest) × (128 ≤ b) × (b ≤ 191)
unfolding others
one-others [] rest o = absurd (cc)
one-others (b ∷ bs) rest o =
    let m = others_byte 0 b bs rest o in (b, ap (λ t. b ∷ t) (some_eq bs rest m.2), m.0, m.1)

three-following :
    (lead low high : ℕ) (text rest : List ℕ)
    → (224 ≤ lead) × (lead ≤ 239)
    → low ≡ (if lead == 224 then 160 else 128)
    → high ≡ (if lead == 237 then 159 else 191)
    → following (record { trailing = 2; first_min = low; first_max = high }) text ≡ some rest
    → IsRead lead text rest
unfolding following
three-following lead low high [] rest h l g e = absurd (cc)
three-following lead low high (a ∷ text) rest h l g e =
    let f = following_byte _ a text rest e in
    let (b, t, k, m) = one-others text rest f.2 in
    subst (λ bs. IsRead lead (a ∷ bs) rest) (sym t)
      (three-IsRead lead a b rest h (subst (λ x. x ≤ a) l f.0, subst (λ x. a ≤ x) g f.1) (k, m))

pair-others :
    (bs rest : List ℕ)
    → others 2 bs ≡ some rest
    → (b d : ℕ) × (bs ≡ b ∷ d ∷ rest) × (128 ≤ b) × (b ≤ 191) × (128 ≤ d) × (d ≤ 191)
unfolding others
pair-others [] rest o = absurd (cc)
pair-others (b ∷ []) rest o = absurd (ground arith)
pair-others (b ∷ d ∷ bs) rest o =
    let m = others_byte 1 b (d ∷ bs) rest o in
    let n = others_byte 0 d bs rest m.2 in
    (b, d, ap (λ t. b ∷ d ∷ t) (some_eq bs rest n.2), m.0, m.1, n.0, n.1)

four-following :
    (lead low high : ℕ) (text rest : List ℕ)
    → (240 ≤ lead) × (lead ≤ 244)
    → low ≡ (if lead == 240 then 144 else 128)
    → high ≡ (if lead == 244 then 143 else 191)
    → following (record { trailing = 3; first_min = low; first_max = high }) text ≡ some rest
    → IsRead lead text rest
unfolding following
four-following lead low high [] rest h l g e = absurd (cc)
four-following lead low high (a ∷ text) rest h l g e =
    let f = following_byte _ a text rest e in
    let (b, d, t, k, m, n, o) = pair-others text rest f.2 in
    subst (λ bs. IsRead lead (a ∷ bs) rest) (sym t)
      (four-IsRead lead a b d rest h (subst (λ x. x ≤ a) l f.0, subst (λ x. a ≤ x) g f.1) (k, m)
        (n, o))

both : (a b c : ℕ) → (leb a b && leb b c) ≡ true → (a ≤ b) × (b ≤ c)
both a b c h = ground arith

character-IsRead :
    (lead : ℕ) (text rest : List ℕ) → character lead text ≡ some rest → IsRead lead text rest
unfolding character lead_of follow
character-IsRead lead text rest = elim (Bool-cases (ltb lead 128)) [
  | inl e ↦ rw e (λ h. one-IsRead lead text rest (below lead 128 e) (some_eq text rest h))
  | inr e ↦ elim (Bool-cases (leb 194 lead && leb lead 223)) [
    | inl f ↦ rw (e, f) (λ h. two-following lead text rest (both 194 lead 223 f) h)
    | inr f ↦ elim (Bool-cases (leb 224 lead && leb lead 239)) [
      | inl g ↦
          rw (e, f, g) (λ h. three-following lead _ _ text rest (both 224 lead 239 g) refl refl h)
      | inr g ↦ elim (Bool-cases (leb 240 lead && leb lead 244)) [
        | inl k ↦
            rw (e, f, g, k)
              (λ h. four-following lead _ _ text rest (both 240 lead 244 k) refl refl h)
        | inr k ↦ rw (e, f, g, k) (λ h. absurd (cc))
      ]
    ]
  ]
]

shorter :
    (l : List ℕ) (fuel : ℕ) (text rest : List ℕ)
    → text ≡ l ++ rest
    → length text ≤ fuel
    → length rest ≤ fuel
shorter l fuel text rest e h = ground (arith, length-append {0} l rest)

-- A text that is the code of some code points.
pub record IsText (text : List ℕ) : Type 0 where
  pub code_points : List ℕ
  pub scalars : AreScalar code_points
  pub encoded : text ≡ encode code_points

more-IsText :
    (lead : ℕ) (text rest : List ℕ) → IsRead lead text rest → IsText rest → IsText (lead ∷ text)
more-IsText lead text rest r t = record {
  code_points = r.code_point ∷ t.code_points;
  scalars = (r.scalar, t.scalars);
  encoded =
      rw (r.trails, t.encoded)
        (ap (λ b. b ∷ (tail_bytes r.code_point ++ encode t.code_points)) r.leads);
}

go_on-IsText :
    (loop : List ℕ → Bool) (lead : ℕ) (text : List ℕ) (x : Option (List ℕ))
    → character lead text ≡ x
    → ((rest : List ℕ) → IsRead lead text rest → loop rest ≡ true → IsText rest)
    → go_on loop x ≡ true
    → IsText (lead ∷ text)
unfolding go_on
go_on-IsText loop lead text none c k e = absurd (cc)
go_on-IsText loop lead text (some rest) c k e =
    let r = character-IsRead lead text rest c in more-IsText lead text rest r (k rest r e)

reason_loop-IsText :
    (fuel : ℕ) (text : List ℕ) → length text ≤ fuel → reason_loop fuel text ≡ true → IsText text
unfolding reason_loop
reason_loop-IsText fuel [] h e = record { code_points = []; scalars = tt; encoded = refl }
reason_loop-IsText zero (lead ∷ text) h e = absurd (cc)
reason_loop-IsText (suc fuel) (lead ∷ text) h e =
    go_on-IsText (reason_loop fuel) lead text (character lead text) refl
      (λ rest r.
        reason_loop-IsText fuel rest
          (shorter (tail_bytes r.code_point) fuel text rest r.trails (omega arith)))
      e

-- The text of a close is accepted just when it is UTF-8, that is, the code of some code points of which none
-- is a surrogate or above U+10FFFF: no longer form of a character and no part of one is.
pub valid_close_reason_iff : (text : List ℕ) → (valid_close_reason text ≡ true) ↔ IsText text
unfolding valid_close_reason
valid_close_reason_iff text = (
  reason_loop-IsText (length text) text (omega arith),
  λ t.
      subst (λ s. reason_loop (length s) s ≡ true) (sym t.encoded)
        (reason_loop-encode (length (encode t.code_points)) t.code_points t.scalars (omega arith)),
)
