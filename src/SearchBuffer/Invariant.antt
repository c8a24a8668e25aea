-- ===== src/SearchBuffer/Invariant.antt =====
-- The state of a search buffer between two operations of a search, and its preservation.
use scalable_vector_search.Order.{IsStrictWeak}
use scalable_vector_search.Neighbor.{SearchNeighbor}
use scalable_vector_search.Candidates.{position, has_repeat, copy_backward, insert_at}
use scalable_vector_search.Candidates.Slots.{
  length-copy_backward, get_elem?-take, get_elem?-insert_at,
}
use scalable_vector_search.Candidates.Sorted.{
  IsSorted, repeated, position-le, has_repeat-eq-repeated, IsSorted-insert_at, IsSorted-take,
}
use scalable_vector_search.SearchBuffer.{
  SearchBuffer, view, can_skip, insert_inner, insert, unsafe_insert,
}
use scalable_vector_search.SearchBuffer.Insert.{IsShaped, length-view, insert_spec, view-insert}
use scalable_vector_search.Base.{
  ℕ, ◌+◌, ◌-◌, ◌≤◌, ◌<◌, ◌≡◌, ap, ◌∙◌, Bool, true, false, List, none, some, get_elem?, take, ltb,
  ◌==◌, if◌then◌else◌, arith, ◌⊎◌, inl, inr, Bool-cases, min, length-set,
}

module _ {D : Type 0} where
  -- The flag of a slot; a slot that is not in use counts as visited.
  abbrev pub visited_at : List (SearchNeighbor D) → ℕ → Bool
  visited_at xs j = elim (get_elem? xs j) [ none ↦ true | some x ↦ x.meta.visited ]

  -- `best_unvisited` is the first slot in use that is not visited, or the end of the window.
  pub record IsScanned (b : SearchBuffer D) : Type 0 where
    pub within : b.best_unvisited ≤ min b.size b.search_window_size
    pub behind : (j : ℕ) → j < b.best_unvisited → visited_at (view b) j ≡ true
    pub ahead :
        b.best_unvisited < min b.size b.search_window_size
        → visited_at (view b) b.best_unvisited ≡ false

  module _ (lt : D → D → Bool) where
    pub record IsReady (b : SearchBuffer D) : Type 0 where
      pub shaped : IsShaped b
      pub sorted : IsSorted lt (view b)
      pub scanned : IsScanned b

    IsShaped-insert :
        (b : SearchBuffer D) (n : SearchNeighbor D) → IsShaped b → IsShaped (insert lt n b).0
    unfolding insert insert_inner unsafe_insert
    IsShaped-insert b n w =
        let i = position lt n.distance (view b) in
        ground (
          arith,
          length-set (copy_backward b.candidates i (b.size - i)) i n,
          length-copy_backward (b.size - i) b.candidates i,
        )

    -- What an insertion that is neither skipped nor a repeat does.
    pub record IsPlaced (b : SearchBuffer D) (n : SearchNeighbor D) (b' : SearchBuffer D)
        : Type 0 where
      pub new : repeated lt n (view b) ≡ false
      pub items : view b' ≡ take b.capacity (insert_at (position lt n.distance (view b)) n (view b))
      pub count : b'.size ≡ min (b.size + 1) b.capacity
      pub first : b'.best_unvisited ≡ min b.best_unvisited (position lt n.distance (view b))
      pub same_window : b'.search_window_size ≡ b.search_window_size
      pub same_capacity : b'.capacity ≡ b.capacity
      pub same_visited : b'.visited ≡ b.visited

    pub insert_skipped :
        (b : SearchBuffer D) (n : SearchNeighbor D)
        → can_skip lt n.distance b ≡ true
        → (insert lt n b).0 ≡ b
    unfolding insert
    insert_skipped b n h = rw h

    pub insert_old :
        (b : SearchBuffer D) (n : SearchNeighbor D)
        → can_skip lt n.distance b ≡ false
        → has_repeat lt n (view b) (position lt n.distance (view b)) ≡ true
        → (insert lt n b).0 ≡ b
    unfolding insert insert_inner
    insert_old b n h k = rw (h, k)

    pub insert_new :
        (b : SearchBuffer D) (n : SearchNeighbor D)
        → can_skip lt n.distance b ≡ false
        → repeated lt n (view b) ≡ false
        → has_repeat lt n (view b) (position lt n.distance (view b)) ≡ false
        → view (insert lt n b).0 ≡ insert_spec lt b.capacity n (view b)
        → IsPlaced b n (insert lt n b).0
    unfolding insert insert_inner unsafe_insert
    insert_new b n h new k e = record {
      new = new;
      items = e ∙ (rw new);
      count = rw (h, k);
      first = rw (h, k);
      same_window = rw (h, k);
      same_capacity = rw (h, k);
      same_visited = rw (h, k);
    }

    module _ (order : IsStrictWeak lt) where
      pub insert_cases :
          (b : SearchBuffer D) (n : SearchNeighbor D)
          → IsShaped b
          → IsSorted lt (view b)
          → ((insert lt n b).0 ≡ b) ⊎ IsPlaced b n (insert lt n b).0
      insert_cases b n w s = elim (Bool-cases (can_skip lt n.distance b)) [
        | inl skip ↦ inl (insert_skipped b n skip)
        | inr keep ↦ elim (Bool-cases (repeated lt n (view b))) [
          | inl old ↦ inl (insert_old b n keep (has_repeat-eq-repeated lt order n (view b) s ∙ old))
          | inr new ↦ inr (
              insert_new b n keep new (has_repeat-eq-repeated lt order n (view b) s ∙ new)
                (view-insert lt order b n w s))
        ]
      ]

      pub get_elem?-placed :
          (b : SearchBuffer D) (n : SearchNeighbor D) (b' : SearchBuffer D) (j : ℕ)
          → IsShaped b
          → IsPlaced b n b'
          → let i = position lt n.distance (view b) in
            get_elem? (view b') j ≡ (
              if ltb j b.capacity
              then if ltb j i
                then get_elem? (view b) j
                else if j == i
                then some n
                else get_elem? (view b) (j - 1)
              else none)
      get_elem?-placed b n b' j w p =
          let i = position lt n.distance (view b) in
          rw p.items (
            get_elem?-take b.capacity (insert_at i n (view b)) j
            ∙ ap (λ t. if ltb j b.capacity then t else none)
                (get_elem?-insert_at i n (view b) j (position-le lt n.distance (view b))))

      IsScanned-placed :
          (b : SearchBuffer D) (n : SearchNeighbor D) (b' : SearchBuffer D)
          → n.meta.visited ≡ false
          → IsShaped b
          → IsPlaced b n b'
          → IsScanned b
          → IsScanned b'
      IsScanned-placed b n b' fresh w p s =
          let i = position lt n.distance (view b) in
          let i_le = position-le lt n.distance (view b) in
          let len = length-view b w in
          record {
            within = omega (arith, p.count, p.first, p.same_window, s.within, w.fits, w.window);
            behind = λ j h.
                ground
                  (arith, p.first, s.within, w.fits, s.behind j, get_elem?-placed b n b' j w p);
            ahead = λ h. ground (
              arith,
              p.first,
              p.count,
              p.same_window,
              s.within,
              w.fits,
              w.window,
              s.ahead,
              get_elem?-placed b n b' b'.best_unvisited w p,
              fresh,
              i_le,
              len,
            );
          }

      -- For distances in a strict weak order, `insert` of an unvisited neighbor keeps the buffer ready: shape, order and scan position.
      pub insert-IsReady :
          (b : SearchBuffer D) (n : SearchNeighbor D)
          → n.meta.visited ≡ false
          → IsReady b
          → IsReady (insert lt n b).0
      insert-IsReady b n fresh r = record {
        shaped = IsShaped-insert b n r.shaped;
        sorted = sorted_after;
        scanned = elim (insert_cases b n r.shaped r.sorted) [
          | inl e ↦ rw e r.scanned
          | inr p ↦ IsScanned-placed b n (insert lt n b).0 fresh r.shaped p r.scanned
        ];
      }
        where
          sorted_after : IsSorted lt (view (insert lt n b).0)
          sorted_after = elim (insert_cases b n r.shaped r.sorted) [
            | inl e ↦ rw e r.sorted
            | inr p ↦
                rw p.items
                  (IsSorted-take lt b.capacity _ (IsSorted-insert_at lt order n (view b) r.sorted))
          ]

    pub insert_same_visited :
        (b : SearchBuffer D) (n : SearchNeighbor D) → (insert lt n b).0.visited ≡ b.visited
    unfolding insert insert_inner unsafe_insert
    insert_same_visited b n = ground arith
