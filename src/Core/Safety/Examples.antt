-- ===== src/Core/Safety/Examples.antt =====
-- Locks by two providers.
use aqua_one.Base.{ℕ, ◌≡◌, refl, true, false, List, [], ◌∷◌, Option, some, leb}
use aqua_one.Core.Safety.{
  Contribution, null_array, array, open_state, is_composition_valid, query, query_loop,
}
use aqua_one.Core.Safety.Query.{Answers, query_lem}

-- Above 5, the first provider locks and the second locks critically.
abbrev two : List (Option (ℕ → Contribution))
two =
    some (λ n. record { locked = leb 5 n; safety_critical = false })
    ∷ some (λ n. record { locked = leb 5 n; safety_critical = leb 5 n })
    ∷ []

two_lock :
    (query (array two) 7 ≡ record {
      is_locked = true;
      has_safety_critical_lock = true;
      active_provider_count = 2;
      composition_valid = true;
    })
    × (query (array two) 3 ≡ open_state)
    × ((query {A = ℕ} (null_array 2) 3).is_locked ≡ true)
unfolding query query_loop is_composition_valid
two_lock = (refl, refl, refl)

query_lem_example : Answers (array two) 7 (query (array two) 7)
query_lem_example = query_lem (array two) 7
