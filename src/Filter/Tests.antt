-- ===== src/Filter/Tests.antt =====
-- The visited filter on concrete ids, at the width of the search buffers and at a small one.
use scalable_vector_search.Filter.{
  sentinel, filter_capacity, hash, value, check, new_filter, reset, emplace, contains, emplace_all,
}
use scalable_vector_search.Filter.Soundness.{contains-emplace_all, contains-emplace, contains-reset}
use scalable_vector_search.Base.{
  ℕ, ◌≡◌, ◌↔◌, ◌⊎◌, refl, true, false, List, [], ◌∷◌, if◌then◌else◌, ◌==◌,
}
use mathlib.Core.List.{Memᴰ}

-- At four index bits, ids 3 and 19 share a slot: the later one displaces the earlier one.
displaced :
    (contains 4 (emplace_all 4 (new_filter 4) (3 ∷ 19 ∷ 7 ∷ [])) 3 ≡ false)
    × (contains 4 (emplace_all 4 (new_filter 4) (3 ∷ 19 ∷ 7 ∷ [])) 19 ≡ true)
    × (contains 4 (emplace_all 4 (new_filter 4) (3 ∷ 19 ∷ 7 ∷ [])) 7 ≡ true)
unfolding contains emplace_all emplace new_filter filter_capacity sentinel hash value check
displaced = (refl, refl, refl)

abbrev two_keys : List ℕ
two_keys = 3 ∷ 7 ∷ []

seven_there : contains 4 (emplace_all 4 (new_filter 4) two_keys) 7 ≡ true
unfolding contains emplace_all emplace new_filter filter_capacity sentinel hash value check
seven_there = refl

contains-emplace_all_example : Memᴰ 7 two_keys ⊎ (value 4 7 ≡ sentinel 4)
contains-emplace_all_example = contains-emplace_all 4 two_keys 7 seven_there

abbrev small_slots : List ℕ
small_slots = 5 ∷ 9 ∷ 2 ∷ 3 ∷ []

contains-emplace_example :
    (contains 2 (emplace 2 small_slots 8).values 8 ≡ true)
    × (contains 2 (emplace 2 small_slots 8).values 9
        ≡ (if hash 2 8 == hash 2 9 then check 2 9 (value 2 8) else contains 2 small_slots 9))
unfolding filter_capacity
contains-emplace_example = contains-emplace 2 small_slots 8 9 refl

contains-reset_example : (contains 2 (reset 2 small_slots) 9 ≡ true) ↔ (value 2 9 ≡ sentinel 2)
unfolding filter_capacity
contains-reset_example = contains-reset 2 small_slots 9 refl
