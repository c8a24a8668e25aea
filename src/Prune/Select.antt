-- ===== src/Prune/Select.antt =====
-- The loops with their flags choose what a walk through the pool without flags chooses.
use scalable_vector_search.Neighbor.{Neighbor}
use scalable_vector_search.Prune.{rules_out, mark_pruned, prune_loop, heuristic_prune_neighbors}
use scalable_vector_search.Base.{
  ℕ, ◌≡◌, refl, ap, ◌∙◌, Bool, true, false, ◌||◌, List, [], ◌∷◌, ◌++◌, map, length, replicate, ltb,
  ◌==◌, if◌then◌else◌, arith, Bool-cases, inl, inr,
}

module _ {D M : Type 0} (lt : D → D → Bool) (scale : D → D → D) (distance : ℕ → ℕ → D)
    (alpha : D) where
  -- Whether some kept neighbor rules a candidate out.
  unfoldable pub ruled_out : List (Neighbor D M) → Neighbor D M → Bool
  ruled_out [] c = false
  ruled_out (r ∷ kept) c = rules_out lt scale distance alpha r c || ruled_out kept c

  -- The reference: walk through the pool and keep what no kept neighbor rules out.
  unfoldable pub select : ℕ → ℕ → List (Neighbor D M) → List (Neighbor D M) → List (Neighbor D M)
  unfolding ruled_out
  select limit current [] kept = kept
  select limit current (x ∷ pool) kept = elim (ltb (length kept) limit) [
    | false ↦ kept
    | true ↦ elim (ruled_out kept x || x.id == current) [
      | true ↦ select limit current pool kept
      | false ↦ select limit current pool (kept ++ x ∷ [])
    ]
  ]

  pub ruled_out-concat :
      (kept : List (Neighbor D M)) (x c : Neighbor D M)
      → ruled_out (kept ++ x ∷ []) c
        ≡ (if ruled_out kept c then true else rules_out lt scale distance alpha x c)
  unfolding ruled_out
  ruled_out-concat [] x c = ground arith
  ruled_out-concat (r ∷ kept) x c = ground (arith, ruled_out-concat kept x c)

  mark_pruned-map :
      (x : Neighbor D M) (kept pool : List (Neighbor D M))
      → mark_pruned lt scale distance alpha x pool (map (ruled_out kept) pool)
        ≡ map (ruled_out (kept ++ x ∷ [])) pool
  unfolding mark_pruned
  mark_pruned-map x kept [] = refl
  mark_pruned-map x kept (c ∷ pool) = rw (ruled_out-concat kept x c, mark_pruned-map x kept pool)

  prune_loop-eq-select :
      (limit current : ℕ) (pool kept : List (Neighbor D M))
      → prune_loop lt scale distance alpha limit current pool (map (ruled_out kept) pool) kept
        ≡ select limit current pool kept
  unfolding prune_loop select
  prune_loop-eq-select limit current [] kept = refl
  prune_loop-eq-select limit current (x ∷ pool) kept = elim (Bool-cases (ltb (length kept) limit)) [
    | inr e ↦ rw (e, prune_loop, select)
    | inl e ↦ elim (Bool-cases (ruled_out kept x || x.id == current)) [
      | inl out ↦ rw (e, prune_loop, select, out) (prune_loop-eq-select limit current pool kept)
      | inr in_result ↦
          rw (e, prune_loop, select, in_result, mark_pruned-map x kept pool)
            (prune_loop-eq-select limit current pool (kept ++ x ∷ []))
    ]
  ]

  no_flags : (pool : List (Neighbor D M)) → replicate (length pool) false ≡ map (ruled_out []) pool
  unfolding ruled_out
  no_flags [] = refl
  no_flags (x ∷ pool) = ap (◌∷◌ false) (no_flags pool)

  -- On a pool with candidates, the pruning with its flags gives what the walk without flags gives,
  -- whatever the result held before; on an empty pool the result stays as it was.
  pub prune-eq-select :
      (limit current : ℕ) (pool old : List (Neighbor D M))
      → heuristic_prune_neighbors lt scale distance alpha limit current pool old
        ≡ (elim pool [ [] ↦ old | x ∷ rest ↦ select limit current (x ∷ rest) [] ])
  unfolding heuristic_prune_neighbors
  prune-eq-select limit current [] old = refl
  prune-eq-select limit current (x ∷ pool) old =
      ap (λ flags. prune_loop lt scale distance alpha limit current (x ∷ pool) flags [])
        (no_flags (x ∷ pool))
      ∙ prune_loop-eq-select limit current (x ∷ pool) []
