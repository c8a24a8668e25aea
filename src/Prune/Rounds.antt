-- ===== src/Prune/Rounds.antt =====
-- The strategies of include/svs/index/vamana/prune.h that visit the pool in rounds, at growing powers
-- of alpha: IterativePruneStrategy and ProgressivePruneStrategy. They share their two loops, and
-- differ in what they note of a candidate: its state, or the least power that rules it out.
-- Numbers are values of a type with a comparison; `times` and `ratio` are the source's product and
-- quotient, `is_one` its test of alpha, `sentinel` and `tombstone` those of `type_traits`.
use scalable_vector_search.Neighbor.{Neighbor}
use scalable_vector_search.Base.{
  ℕ, zero, suc, Bool, true, false, not, ◌&&◌, ◌||◌, List, [], ◌∷◌, ◌++◌, Option, none, some, map,
  length, replicate, ltb, ◌==◌, if◌then◌else◌,
}

pub data PruneState : Type 0 where
  available added pruned : PruneState

unfoldable pub reenable : PruneState → PruneState
reenable available = available
reenable added = added
reenable pruned = available

unfoldable pub excluded : PruneState → Bool
excluded available = false
excluded added = true
excluded pruned = true

-- What a strategy notes of a candidate, at a power of alpha.
pub record Strategy (D M : Type 0) : Type 1 where
  pub Note : Type 0
  pub fresh : Note
  pub picked : Note
  pub is_out : D → Note → Bool
  pub mark : D → Neighbor D M → Neighbor D M → Note → Note
  pub next_round : Note → Note

module _ {D M : Type 0} (s : Strategy D M) where
  -- The innermost loop, over the candidates behind the one picked.
  unfoldable pub mark_behind : D → Neighbor D M → List (Neighbor D M) → List s.Note → List s.Note
  mark_behind power kept [] notes = notes
  mark_behind power kept (c ∷ pool) [] = []
  mark_behind power kept (c ∷ pool) (n ∷ notes) =
      s.mark power kept c n ∷ mark_behind power kept pool notes

  -- One round over the pool and its notes: the notes and the result after it.
  unfoldable pub prune_round :
      D
      → ℕ
      → ℕ
      → List (Neighbor D M)
      → List s.Note
      → List (Neighbor D M)
      → List s.Note × List (Neighbor D M)
  unfolding mark_behind
  prune_round power limit current [] notes result = (notes, result)
  prune_round power limit current (x ∷ pool) [] result = ([], result)
  prune_round power limit current (x ∷ pool) (n ∷ notes) result = elim (ltb (length result) limit) [
    | false ↦ (n ∷ notes, result)
    | true ↦ elim (s.is_out power n || x.id == current) [
      | true ↦ let r = prune_round power limit current pool notes result in (n ∷ r.0, r.1)
      | false ↦
          let r =
            prune_round power limit current pool (mark_behind power x pool notes)
              (result ++ x ∷ []) in
          (s.picked ∷ r.0, r.1)
    ]
  ]

  module _ (lt : D → D → Bool) (times : D → D → D) (is_one : D → Bool) (alpha : D) where
    -- The rounds, on fuel.
    unfoldable pub prune_rounds :
        ℕ
        → D
        → ℕ
        → ℕ
        → List (Neighbor D M)
        → List s.Note
        → List (Neighbor D M)
        → Option (List (Neighbor D M))
    unfolding prune_round
    prune_rounds zero power limit current pool notes result =
        if ltb (length result) limit && not (lt alpha power) then none else some result
    prune_rounds (suc fuel) power limit current pool notes result =
        elim (ltb (length result) limit && not (lt alpha power)) [
          | false ↦ some result
          | true ↦
              let r = prune_round power limit current pool notes result in
              elim (is_one alpha) [
                | true ↦ some r.1
                | false ↦
                    prune_rounds fuel (times power alpha) limit current pool (map s.next_round r.0)
                      r.1
              ]
        ]

    -- The whole call; an empty pool leaves what the result held before.
    unfoldable pub prune_by :
        ℕ → D → ℕ → ℕ → List (Neighbor D M) → List (Neighbor D M) → Option (List (Neighbor D M))
    unfolding prune_rounds
    prune_by fuel one limit current [] result = some result
    prune_by fuel one limit current (x ∷ pool) result =
        prune_rounds fuel one limit current (x ∷ pool) (replicate (length (x ∷ pool)) s.fresh) []

module _ {D M : Type 0} (lt : D → D → Bool) (times : D → D → D) (distance : ℕ → ℕ → D) where
  unfoldable pub mark_iterative : D → Neighbor D M → Neighbor D M → PruneState → PruneState
  unfolding excluded
  mark_iterative power kept c n =
      if excluded n
      then n
      else if lt (times power (distance kept.id c.id)) c.distance
      then pruned
      else n

  abbrev pub iterative : Strategy D M
  iterative = record {
    Note = PruneState;
    fresh = available;
    picked = added;
    is_out = λ power n. excluded n;
    mark = mark_iterative;
    next_round = reenable;
  }

  unfoldable pub mark_progressive : (D → D → D) → D → Neighbor D M → Neighbor D M → D → D
  mark_progressive ratio power kept c n =
      if lt power n
      then n
      else let least = ratio c.distance (distance kept.id c.id) in if lt n least then least else n

  abbrev pub progressive : (D → D → D) → D → D → Strategy D M
  progressive ratio sentinel tombstone = record {
    Note = D;
    fresh = tombstone;
    picked = sentinel;
    is_out = λ power n. lt power n;
    mark = mark_progressive ratio;
    next_round = λ n. n;
  }
