-- ===== src/Candidates.antt =====
-- The steps on a sorted range of neighbors that both search buffers make in `insert_inner`:
-- include/svs/index/vamana/search_buffer.h and dynamic_search_buffer.h.
pub mod Slots
pub mod Sorted
use scalable_vector_search.Neighbor.{Neighbor}
use scalable_vector_search.Base.{
  ℕ, zero, suc, ◌+◌, Bool, true, false, not, List, [], ◌∷◌, none, some, get_elem?, set, ◌==◌,
  if◌then◌else◌,
}

-- `std::lower_bound` with the test "not d < x": the first position whose distance exceeds d.
unfoldable pub position : {D M : Type 0} → (D → D → Bool) → D → List (Neighbor D M) → ℕ
position lt d [] = 0
position lt d (x ∷ xs) = if not (lt d x.distance) then suc (position lt d xs) else 0

-- The `do … while (back != start)` loop: walk back from the position, over the elements that are
-- not closer than the new one, and look for its id.
unfoldable pub has_repeat :
    {D M : Type 0} → (D → D → Bool) → Neighbor D M → List (Neighbor D M) → ℕ → Bool
has_repeat lt n xs zero = false
has_repeat lt n xs (suc back) =
    let rest = has_repeat lt n xs back in
    elim (get_elem? xs back) [
      | none ↦ false
      | some candidate ↦
          if lt candidate.distance n.distance
          then false
          else if candidate.id == n.id
          then true
          else rest
    ]

-- One assignment of `std::copy_backward`: slot j goes to slot j + 1.
move_slot : {A : Type 0} → List A → ℕ → List A
move_slot xs j = elim (get_elem? xs j) [ none ↦ xs | some x ↦ set xs (j + 1) x ]

-- `std::copy_backward(index, end, end + 1)` over `count` slots from `first`, the last one first.
unfoldable pub copy_backward : {A : Type 0} → List A → ℕ → ℕ → List A
unfolding move_slot
copy_backward xs first zero = xs
copy_backward xs first (suc count) = copy_backward (move_slot xs (first + count)) first count

-- A vector's `insert` at a position.
unfoldable pub insert_at : {A : Type 0} → ℕ → A → List A → List A
insert_at zero n xs = n ∷ xs
insert_at (suc i) n [] = n ∷ []
insert_at (suc i) n (x ∷ xs) = x ∷ insert_at i n xs
