-- ===== src/SearchBuffer/Insert.antt =====
-- `insert` on the vector of the search buffer refines an insertion into a sorted list.
use scalable_vector_search.Order.{IsStrictWeak, lt-of_le_of_lt}
use scalable_vector_search.Neighbor.{SearchNeighbor}
use scalable_vector_search.Candidates.{position, copy_backward, insert_at}
use scalable_vector_search.Candidates.Slots.{
  take-set-copy_backward, take-min, take_all, take-insert_at, get_elem?-take,
}
use scalable_vector_search.Candidates.Sorted.{
  IsSorted, repeated, position-le, has_repeat-eq-repeated, position-beyond, repeated-below,
  All-le_last,
}
use scalable_vector_search.SearchBuffer.{
  SearchBuffer, view, full, back, can_skip, insert_inner, insert, unsafe_insert,
}
use scalable_vector_search.Base.{
  ℕ, ◌+◌, ◌-◌, ◌≤◌, ◌<◌, ◌≡◌, sym, ap, ◌∙◌, Bool, true, false, List, some, get_elem?, take, length,
  ◌==◌, if◌then◌else◌, arith, inl, inr, Option-cases, Bool-cases, All, All-map, min, length-take,
  set,
}

module _ {D : Type 0} where
  -- The class invariants on the sizes: the vector has one slot more than the capacity, so that
  -- `unsafe_insert` may write behind the last element in use.
  pub record IsShaped (b : SearchBuffer D) : Type 0 where
    pub slots : length b.candidates ≡ b.capacity + 1
    pub fits : b.size ≤ b.capacity
    pub window : b.search_window_size ≤ b.capacity

  pub length-view : (b : SearchBuffer D) → IsShaped b → length (view b) ≡ b.size
  unfolding view
  length-view b w = omega (arith, w.slots, w.fits, length-take b.size b.candidates)

  module _ (lt : D → D → Bool) where
    -- Insertion into a sorted list that keeps the closest `capacity` elements and ignores a repeat.
    abbrev pub insert_spec :
        ℕ → SearchNeighbor D → List (SearchNeighbor D) → List (SearchNeighbor D)
    insert_spec capacity n xs =
        if repeated lt n xs then xs else take capacity (insert_at (position lt n.distance xs) n xs)

    view-unsafe_insert :
        (b : SearchBuffer D) (n : SearchNeighbor D) (i : ℕ)
        → IsShaped b
        → i ≤ b.size
        → take (min (b.size + 1) b.capacity) (unsafe_insert n i b).candidates
          ≡ take b.capacity (insert_at i n (view b))
    unfolding unsafe_insert view
    view-unsafe_insert b n i w h =
        take-min (b.size + 1) b.capacity (set (copy_backward b.candidates i (b.size - i)) i n)
        ∙ ap (take b.capacity)
            (take-set-copy_backward b.candidates b.size i n h (omega (arith, w.slots, w.fits)))

    module _ (order : IsStrictWeak lt) where
      -- What `can_skip` passes over is farther than everything in a full buffer.
      pub skipped-above :
          (b : SearchBuffer D) (d : D)
          → IsShaped b
          → IsSorted lt (view b)
          → can_skip lt d b ≡ true
          → (b.size ≡ b.capacity) × All (λ y. lt y.distance d ≡ true) (view b)
      unfolding can_skip back full view
      skipped-above b d w s h = elim (Bool-cases (b.size == 0)) [
        | inl empty ↦ ground arith
        | inr used ↦ elim (Option-cases (get_elem? b.candidates (b.size - 1))) [
          | inl outside ↦ ground arith
          | inr (last, e) ↦
              let facts : (lt last.distance d ≡ true) × (b.size ≡ b.capacity) = ground arith in
              let at : get_elem? (view b) (b.size - 1) ≡ some last =
                ground (arith, get_elem?-take b.size b.candidates (b.size - 1)) in
              (
                facts.1,
                All-map _ _ (λ y le. lt-of_le_of_lt lt order y.distance last.distance d le facts.0)
                    (view b)
                    (All-le_last lt order (view b) (b.size - 1) last s
                      (omega (arith, length-view b w, positive used)) at),
              )
        ]
      ]
        where
          positive : (b.size == 0) ≡ false → 0 < b.size
          positive u = ground arith

      skip-insert_spec :
          (n : SearchNeighbor D) (capacity : ℕ) (xs : List (SearchNeighbor D))
          → length xs ≡ capacity
          → All (λ y. lt y.distance n.distance ≡ true) xs
          → insert_spec capacity n xs ≡ xs
      skip-insert_spec n capacity xs e above =
          rw
            (
              repeated-below lt order n xs above,
              position-beyond lt order n xs
                  (All-map _ _ (λ y h. order.asym y.distance n.distance h) xs above),
              e,
            )
            (take-insert_at capacity n xs (omega arith) ∙ take_all capacity xs (omega arith))

      -- For distances in a strict weak order: on a buffer of the right sizes whose slots in use are in
      -- order, `insert` leaves in them exactly the insertion into a sorted list that keeps the closest
      -- elements up to the capacity and ignores a repeat.
      pub view-insert :
          (b : SearchBuffer D) (n : SearchNeighbor D)
          → IsShaped b
          → IsSorted lt (view b)
          → view (insert lt n b).0 ≡ insert_spec b.capacity n (view b)
      unfolding insert insert_inner
      view-insert b n w s = elim (Bool-cases (can_skip lt n.distance b)) [
        | inl skip ↦
            let (e, above) = skipped-above b n.distance w s skip in
            rw skip (sym (skip-insert_spec n b.capacity (view b) (length-view b w ∙ e) above))
        | inr keep ↦ elim (Bool-cases (repeated lt n (view b))) [
          | inl old ↦ rw (keep, has_repeat-eq-repeated lt order n (view b) s, old)
          | inr new ↦
              rw (keep, has_repeat-eq-repeated lt order n (view b) s, new)
                (view-unsafe_insert b n (position lt n.distance (view b)) w
                  (omega (arith, position-le lt n.distance (view b), length-view b w)))
        ]
      ]
