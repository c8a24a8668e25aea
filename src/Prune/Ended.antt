-- ===== src/Prune/Ended.antt =====
-- The rounds end once the power of alpha has passed it, and give what they promise.
use scalable_vector_search.Order.{IsStrictWeak, lt-of_le_of_lt}
use scalable_vector_search.Neighbor.{Neighbor}
use scalable_vector_search.Neighbor.Distinct.{IsDistinct}
use scalable_vector_search.Prune.Rounds.{
  Strategy, prune_round, prune_rounds, prune_by, iterative, progressive, mark_iterative,
  mark_progressive, reenable, excluded,
}
use scalable_vector_search.Prune.Picked.{
  IsPicked, IsStrategy, IsUnderway, Underway, IsNoted-fresh, IsNoted-next_round,
  prune_round-IsUnderway,
}
use scalable_vector_search.Base.{
  ℕ, zero, suc, ◌<◌, ◌≡◌, ◌⊎◌, inl, inr, refl, Bool, true, false, not, ◌&&◌, List, [], ◌∷◌, some,
  map, length, replicate, ltb, arith, Bool-cases,
}

-- The power of alpha after some further rounds.
unfoldable pub power_after : {D : Type 0} → (D → D → D) → D → ℕ → D → D
power_after times alpha zero power = power
power_after times alpha (suc n) power = power_after times alpha n (times power alpha)

module _ {D M : Type 0} (s : Strategy D M) (lt : D → D → Bool) (times : D → D → D)
    (is_one : D → Bool) (alpha : D) (law : IsStrategy s lt alpha) where
  -- Either one round is all, or alpha is passed within the fuel.
  abbrev pub IsEnough : ℕ → D → Type 0
  IsEnough fuel power =
      ((is_one alpha ≡ true) × 0 < fuel) ⊎ (lt alpha (power_after times alpha fuel power) ≡ true)

  picked :
      (limit current : ℕ) (pool : List (Neighbor D M)) (notes : List s.Note)
      (result : List (Neighbor D M))
      → IsUnderway s lt alpha law limit current pool notes [] result
      → IsPicked limit current pool result
  picked limit current pool notes result u = record {
    bounded = u.bounded;
    from_pool = λ P p. u.from_pool P tt p;
    no_loop = u.no_loop;
    distinct = u.distinct;
  }

  prune_round-IsNext :
      (power : D) (limit current : ℕ) (pool : List (Neighbor D M)) (notes : List s.Note)
      (result : List (Neighbor D M))
      → lt alpha power ≡ false
      → IsDistinct pool
      → IsUnderway s lt alpha law limit current pool notes [] result
      → Underway s lt alpha law limit current pool []
          (prune_round s power limit current pool notes result)
  unfolding Underway
  prune_round-IsNext power limit current pool notes result within d u =
      let r =
        prune_round-IsUnderway s lt alpha law power limit current pool notes result within d
          (record {
            bounded = u.bounded;
            from_pool = λ P b p. b;
            no_loop = u.no_loop;
            distinct = u.distinct;
            noted = u.noted;
          }) in
      record {
        bounded = r.bounded;
        from_pool = λ P b p. r.from_pool P (u.from_pool P b p) p;
        no_loop = r.no_loop;
        distinct = r.distinct;
        noted = r.noted;
      }

  prune_rounds-IsPicked :
      (fuel : ℕ) (power : D) (limit current : ℕ) (pool : List (Neighbor D M)) (notes : List s.Note)
      (result : List (Neighbor D M))
      → IsDistinct pool
      → IsUnderway s lt alpha law limit current pool notes [] result
      → IsEnough fuel power
      → (found : List (Neighbor D M)) × (prune_rounds s lt times is_one alpha fuel power limit
            current pool notes result
          ≡ some found)
        × IsPicked limit current pool found
  unfolding prune_rounds power_after Underway
  prune_rounds-IsPicked zero power limit current pool notes result d u enough =
      let stop : (ltb (length result) limit && not (lt alpha power)) ≡ false = elim enough [
        | inl e ↦ absurd (omega (arith, e.1))
        | inr e ↦ ground (arith, e)
      ] in
      (result, rw stop, picked limit current pool notes result u)
  prune_rounds-IsPicked (suc fuel) power limit current pool notes result d u enough =
      elim (Bool-cases (ltb (length result) limit && not (lt alpha power))) [
        | inr stop ↦ (result, rw (stop, prune_rounds), picked limit current pool notes result u)
        | inl more ↦
            let r = prune_round s power limit current pool notes result in
            let within : lt alpha power ≡ false = ground (arith, more) in
            let v = prune_round-IsNext power limit current pool notes result within d u in
            elim (Bool-cases (is_one alpha)) [
              | inl one ↦ (r.1, rw (more, prune_rounds, one), picked limit current pool r.0 r.1 v)
              | inr other ↦
                  let (found, runs, p) =
                    prune_rounds-IsPicked fuel (times power alpha) limit current pool
                      (map s.next_round r.0) r.1 d
                      (record {
                        bounded = v.bounded;
                        from_pool = v.from_pool;
                        no_loop = v.no_loop;
                        distinct = v.distinct;
                        noted = IsNoted-next_round s lt alpha law pool r.0 r.1 v.noted;
                      })
                      (elim enough [ inl e ↦ ground (arith, e.0) | inr e ↦ inr e ]) in
                  (found, rw (more, prune_rounds, other) runs, p)
            ]
      ]

  -- For a strategy that, up to alpha, keeps out what it picked, on a pool with candidates, no two of the same id,
  -- whatever the result held before: if alpha is one and there is fuel, or the power of alpha passes
  -- alpha within the fuel, the pruning ends with at most the number of neighbors asked for, all from
  -- the pool, none the vertex itself and no two of the same id.
  pub prune_by-IsPicked :
      (fuel : ℕ) (one : D) (limit current : ℕ) (x : Neighbor D M) (pool old : List (Neighbor D M))
      → IsDistinct (x ∷ pool)
      → IsEnough fuel one
      → (found : List (Neighbor D M)) × (prune_by s lt times is_one alpha fuel one limit current
            (x ∷ pool)
            old
          ≡ some found)
        × IsPicked limit current (x ∷ pool) found
  unfolding prune_by
  prune_by-IsPicked fuel one limit current x pool old d enough =
      prune_rounds-IsPicked fuel one limit current (x ∷ pool)
        (replicate (length (x ∷ pool)) s.fresh) [] d
        (record {
          bounded = omega arith;
          from_pool = λ P b p. tt;
          no_loop = tt;
          distinct = tt;
          noted = IsNoted-fresh s lt alpha law (x ∷ pool) (replicate (length (x ∷ pool)) s.fresh);
        })
        enough

module _ {D M : Type 0} (lt : D → D → Bool) (times : D → D → D) (distance : ℕ → ℕ → D) where
  pub iterative-IsStrategy :
      (alpha : D) → IsStrategy {D = D} {M = M} (iterative lt times distance) lt alpha
  unfolding mark_iterative excluded reenable
  iterative-IsStrategy alpha = record {
    out = λ power within. refl;
    marked = λ power kept c within. refl;
    kept_out = refl;
  }

  -- For distances in a strict weak order, if the sentinel is beyond alpha: it is beyond every power
  -- that a round has.
  pub progressive-IsStrategy :
      (ratio : D → D → D) (sentinel tombstone alpha : D)
      → IsStrictWeak lt
      → lt alpha sentinel ≡ true
      → IsStrategy {D = D} {M = M} (progressive lt times distance ratio sentinel tombstone) lt alpha
  unfolding mark_progressive
  progressive-IsStrategy ratio sentinel tombstone alpha order beyond = record {
    out = λ power within. lt-of_le_of_lt lt order power alpha sentinel within beyond;
    marked = λ power kept c within. rw (lt-of_le_of_lt lt order power alpha sentinel within beyond);
    kept_out = refl;
  }
