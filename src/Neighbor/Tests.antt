-- ===== src/Neighbor/Tests.antt =====
-- Neighbors on whole-number distances, and flag bytes.
use scalable_vector_search.Order.{ltb-IsStrictWeak}
use scalable_vector_search.Neighbor.{total_order, Visited}
use scalable_vector_search.Neighbor.Totality.{IsTotalOrder, total_order-IsTotalOrder}
use scalable_vector_search.Neighbor.Flags.{
  ValidVisit, valid_visit, set_visited, visited, valid, set_visited-IsMarked,
}
use scalable_vector_search.Base.{◌/◌, ◌^◌, ◌<◌, ◌≡◌, refl, true, false, ltb, arith}

total_order-IsTotalOrder_example : IsTotalOrder {M = Visited} ltb (total_order ltb)
total_order-IsTotalOrder_example = total_order-IsTotalOrder ltb ltb-IsStrictWeak

-- A new byte is not visited, and as valid as asked for.
new_flags :
    (visited (valid_visit true) ≡ false)
    × (valid (valid_visit true) ≡ true)
    × (visited (valid_visit false) ≡ false)
    × (valid (valid_visit false) ≡ false)
unfolding valid_visit visited valid
new_flags = (refl, refl, refl, refl)

-- A byte with flags that the class does not name.
abbrev crowded : ValidVisit
crowded = record { flags = 0xa6 }

set_visited-IsMarked_example :
    (visited (set_visited crowded) ≡ true)
    × (valid (set_visited crowded) ≡ valid crowded)
    × ((set_visited crowded).flags < 2 ^ 8)
    × ((set_visited crowded).flags / 2 ≡ crowded.flags / 2)
    × (set_visited (set_visited crowded) ≡ set_visited crowded)
set_visited-IsMarked_example = set_visited-IsMarked crowded (omega arith)
