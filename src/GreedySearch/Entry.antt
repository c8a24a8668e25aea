-- ===== src/GreedySearch/Entry.antt =====
-- Every entry point that there is room for is a candidate before the main loop.
use mathlib.Core.List.{Permᴰ}
use scalable_vector_search.Neighbor.{SearchNeighbor}
use scalable_vector_search.SearchBuffer.{SearchBuffer, view, full, clear, push_back, sort}
use scalable_vector_search.SearchBuffer.Insert.{IsShaped}
use scalable_vector_search.SearchBuffer.Start.{IsSorter, clear-IsSeeding, view-push_back, view-sort}
use scalable_vector_search.GreedySearch.{Visit, build, populate}
use scalable_vector_search.GreedySearch.Held.{Has}
use scalable_vector_search.GreedySearch.Ends.{SameLimits}
use scalable_vector_search.Base.{
  ℕ, zero, suc, ◌≤◌, ◌<◌, ◌≡◌, refl, sym, ap, ◌∙◌, Bool, false, List, [], ◌∷◌, ◌++◌, arith, All,
  All-map, length, length-set, ◌+◌, some-inj,
}

module _ {D : Type 0} where
  Has-append : (xs ys : List (SearchNeighbor D)) (u : ℕ) → Has xs u → Has (xs ++ ys) u
  Has-append [] ys u (j, y, at, e) = cc
  Has-append (x ∷ xs) ys u (zero, y, at, e) = (zero, y, at, e)
  Has-append (x ∷ xs) ys u (suc j, y, at, e) =
      let (k, z, at', e') = Has-append xs ys u (j, y, at, e) in (suc k, z, at', e')

  Has-last : (xs : List (SearchNeighbor D)) (n : SearchNeighbor D) → Has (xs ++ n ∷ []) n.id
  Has-last [] n = (zero, n, refl, refl)
  Has-last (x ∷ xs) n = let (k, z, at, e) = Has-last xs n in (suc k, z, at, e)

  Has-Permᴰ : {xs ys : List (SearchNeighbor D)} → Permᴰ xs ys → (u : ℕ) → Has xs u → Has ys u
  Has-Permᴰ Permᴰ.nil u h = h
  Has-Permᴰ (Permᴰ.cons {a = a} {b = b} e p) u (zero, y, at, k) =
      (zero, b, refl, ap (λ (z : SearchNeighbor D). z.id) (sym e ∙ some-inj at) ∙ k)
  Has-Permᴰ (Permᴰ.cons e p) u (suc j, y, at, k) =
      let (i, z, at', k') = Has-Permᴰ p u (j, y, at, k) in (suc i, z, at', k')
  Has-Permᴰ (Permᴰ.swap {a' = a'} {b' = b'} e f) u (zero, y, at, k) =
      (suc zero, b', refl, ap (λ (z : SearchNeighbor D). z.id) (sym e ∙ some-inj at) ∙ k)
  Has-Permᴰ (Permᴰ.swap {a' = a'} e f) u (suc zero, y, at, k) =
      (zero, a', refl, ap (λ (z : SearchNeighbor D). z.id) (sym f ∙ some-inj at) ∙ k)
  Has-Permᴰ (Permᴰ.swap e f) u (suc (suc j), y, at, k) = (suc (suc j), y, at, k)
  Has-Permᴰ (Permᴰ.trans p q) u h = Has-Permᴰ q u (Has-Permᴰ p u h)

  push_back_room :
      (x : SearchNeighbor D) (b : SearchBuffer D)
      → IsShaped b
      → b.size < b.capacity
      → (full b ≡ false)
        × IsShaped (push_back x b)
        × ((push_back x b).size ≡ b.size + 1)
        × SameLimits b (push_back x b)
  unfolding push_back full
  push_back_room x b w h =
      ground (arith, w.slots, w.fits, w.window, length-set b.candidates b.size x)

  clear_limits : (b : SearchBuffer D) → ((clear b).size ≡ 0) × SameLimits b (clear b)
  unfolding clear
  clear_limits b = (refl, (refl, refl))

  sort_limits :
      (by : List (SearchNeighbor D) → List (SearchNeighbor D)) (b : SearchBuffer D)
      → SameLimits b (sort by b)
  unfolding sort
  sort_limits by b = (refl, refl)

module _ {D : Type 0} (lt : D → D → Bool) (neighbors : ℕ → List ℕ) (dist : ℕ → D)
    (by : List (SearchNeighbor D) → List (SearchNeighbor D)) where
  populate-Has :
      (b : SearchBuffer D) (log : List (Visit D)) (entry_points : List ℕ)
      → IsShaped b
      → b.size + length entry_points ≤ b.capacity
      → let c = (populate lt neighbors dist by b log entry_points).0 in
        ((u : ℕ) → Has (view b) u → Has (view c) u)
        × All (Has (view c)) entry_points
        × SameLimits b c
        × IsShaped c
  unfolding populate build
  populate-Has b log [] w h = (λ u x. x, tt, (refl, refl), w)
  populate-Has b log (id ∷ rest) w h =
      let x : SearchNeighbor D = build lt neighbors dist by id in
      let (room, w', size, limits) = push_back_room x b w (omega arith) in
      let more : view (push_back x b) ≡ view b ++ x ∷ [] = view-push_back x b w ∙ (rw room) in
      let (kept, all, rest_limits, shaped) =
        populate-Has (push_back x b) _ rest w' (omega (arith, size, limits)) in
      (
        λ u k. kept u (rw more (Has-append (view b) (x ∷ []) u k)),
        (kept id (rw more (Has-last (view b) x)), all),
        omega (arith, limits, rest_limits),
        shaped,
      )

  pub start-Has :
      IsSorter lt by
      → (b : SearchBuffer D) (entry_points : List ℕ) → IsShaped b
      → length entry_points ≤ b.capacity
      → let c = sort by (populate lt neighbors dist by (clear b) [] entry_points).0 in
        All (Has (view c)) entry_points × SameLimits b c
  start-Has sorter b entry_points w h =
      let (zero_size, start_limits) = clear_limits b in
      let (kept, all, limits, shaped) =
        populate-Has (clear b) [] entry_points ((clear-IsSeeding b w).0.shaped)
          (omega (arith, zero_size, start_limits)) in
      let r : SearchBuffer D = (populate lt neighbors dist by (clear b) [] entry_points).0 in
      (
        All-map (Has (view r)) (Has (view (sort by r)))
            (λ u k. rw (view-sort lt by sorter r shaped) (Has-Permᴰ (sorter.perm (view r)) u k))
            entry_points all,
        omega (arith, start_limits, limits, sort_limits by r),
      )
