-- ===== src/Prune/Tests.antt =====
-- Points on a line, and their whole-number distances.
use scalable_vector_search.Order.{ltb-IsStrictWeak}
use scalable_vector_search.Neighbor.{SearchNeighbor}
use scalable_vector_search.SearchBuffer.Tests.{neighbor}
use scalable_vector_search.Prune.{rules_out, mark_pruned, prune_loop, heuristic_prune_neighbors}
use scalable_vector_search.Prune.Select.{select, prune-eq-select}
use scalable_vector_search.Prune.Rule.{IsPruned, prune-IsPruned}
use scalable_vector_search.Neighbor.Distinct.{IsDistinct}
use scalable_vector_search.Prune.Rounds.{
  prune_round, prune_rounds, prune_by, iterative, progressive, mark_behind, mark_iterative,
  mark_progressive, excluded, reenable,
}
use scalable_vector_search.Prune.Picked.{IsPicked}
use scalable_vector_search.Prune.Ended.{power_after, prune_by-IsPicked, progressive-IsStrategy}
use scalable_vector_search.Base.{
  ℕ, ◌+◌, ◌-◌, ◌*◌, ◌/◌, ◌≡◌, refl, inr, false, Option, none, some, List, [], ◌∷◌, map, ltb, ◌==◌,
  arith,
}

abbrev apart : ℕ → ℕ → ℕ
apart a b = (a - b) + (b - a)

-- The candidates for the vertex at 10, itself among them, the closest first.
abbrev pool : List (SearchNeighbor ℕ)
pool = neighbor 11 1 false ∷ neighbor 13 3 false ∷ neighbor 6 4 false ∷ neighbor 3 7 false ∷ []

abbrev with_self : List (SearchNeighbor ℕ)
with_self = neighbor 10 0 false ∷ pool

-- 11 rules 13 out, and 6 rules 3 out.
prune_run :
    map (λ x. x.id) (heuristic_prune_neighbors ltb (λ a d. a * d) apart 1 4 10 with_self [])
    ≡ 11 ∷ 6 ∷ []
unfolding heuristic_prune_neighbors prune_loop mark_pruned rules_out
prune_run = refl

-- An empty pool leaves what the result held before.
prune_empty : heuristic_prune_neighbors ltb (λ a d. a * d) apart 1 4 10 [] pool ≡ pool
unfolding heuristic_prune_neighbors
prune_empty = refl

prune-eq-select_example :
    heuristic_prune_neighbors ltb (λ a d. a * d) apart 1 4 10 with_self []
    ≡ (elim with_self [ [] ↦ [] | x ∷ rest ↦ select ltb (λ a d. a * d) apart 1 4 10 (x ∷ rest) [] ])
prune-eq-select_example = prune-eq-select ltb (λ a d. a * d) apart 1 4 10 with_self []

prune-IsPruned_example :
    IsPruned ltb
      (λ a d. a * d)
      apart
      1
      4
      10
      with_self
      (heuristic_prune_neighbors ltb (λ a d. a * d) apart 1 4 10 with_self [])
prune-IsPruned_example =
    prune-IsPruned ltb (λ a d. a * d) apart 1 4 10 (neighbor 10 0 false) pool []

abbrev ids : Option (List (SearchNeighbor ℕ)) → Option (List ℕ)
ids none = none
ids (some result) = some (map (λ x. x.id) result)

-- The first round gives 11 and 6. The second adds 13, which 11 does not rule out at twice the
-- distance, but also 3, which 6 does: what was added before marks nothing any more.
iterative_run :
    ids (
      prune_by
        (iterative ltb (λ a d. a * d) apart)
        ltb
        (λ a d. a * d)
        (λ a. a == 1)
        2
        2
        1
        4
        10
        with_self
        [])
    ≡ some (11 ∷ 6 ∷ 13 ∷ 3 ∷ [])
unfolding prune_by prune_rounds prune_round mark_behind mark_iterative excluded reenable
iterative_run = refl

-- One round, at alpha one.
iterative_once :
    ids (
      prune_by
        (iterative ltb (λ a d. a * d) apart)
        ltb
        (λ a d. a * d)
        (λ a. a == 1)
        1
        1
        1
        4
        10
        with_self
        [])
    ≡ some (11 ∷ 6 ∷ [])
unfolding prune_by prune_rounds prune_round mark_behind mark_iterative excluded reenable
iterative_once = refl

-- The same in hundredths: 3 stays out.
progressive_run :
    ids (
      prune_by
        (progressive ltb (λ a d. a * d / 100) apart (λ a b. a * 100 / b) 99999 0)
        ltb
        (λ a d. a * d / 100)
        (λ a. a == 100)
        200
        2
        100
        4
        10
        with_self
        [])
    ≡ some (11 ∷ 6 ∷ 13 ∷ [])
unfolding prune_by prune_rounds prune_round mark_behind mark_progressive
progressive_run = refl

with_self-IsDistinct : IsDistinct with_self
with_self-IsDistinct = (
  (
    (λ e. omega (arith, e)),
    ((λ e. omega (arith, e)), ((λ e. omega (arith, e)), ((λ e. omega (arith, e)), tt))),
  ),
  (
    ((λ e. omega (arith, e)), ((λ e. omega (arith, e)), ((λ e. omega (arith, e)), tt))),
    (
      ((λ e. omega (arith, e)), ((λ e. omega (arith, e)), tt)),
      (((λ e. omega (arith, e)), tt), (tt, tt)),
    ),
  ),
)

prune_by-IsPicked_example :
    (found : List (SearchNeighbor ℕ)) × (prune_by
        (progressive ltb (λ a d. a * d / 100) apart (λ a b. a * 100 / b) 99999 0)
        ltb
        (λ a d. a * d / 100)
        (λ a. a == 100)
        200
        2
        100
        4
        10
        with_self
        []
      ≡ some found)
    × IsPicked 4 10 with_self found
unfolding power_after
prune_by-IsPicked_example =
    prune_by-IsPicked (progressive ltb (λ a d. a * d / 100) apart (λ a b. a * 100 / b) 99999 0) ltb
      (λ a d. a * d / 100) (λ a. a == 100) 200
      (progressive-IsStrategy ltb (λ a d. a * d / 100) apart (λ a b. a * 100 / b) 99999 0 200
        ltb-IsStrictWeak refl)
      2 100 4 10 (neighbor 10 0 false) pool [] with_self-IsDistinct (inr refl)
