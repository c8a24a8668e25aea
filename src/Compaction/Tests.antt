-- ===== src/Compaction/Tests.antt =====
-- Runs of `compact_data` on rows of a dataset, in batches of two.
use scalable_vector_search.Compaction.{
  compacted, dimension_mismatch, fault, out_of_fuel, compact_data,
}
use scalable_vector_search.Compaction.Lists.{compact_data-IsCompacted}
use scalable_vector_search.Base.{ℕ, ◌≡◌, refl, List, [], ◌∷◌, ◌≤◌, get_elem?, length, some, arith}

abbrev kept_rows : List ℕ
kept_rows = 0 ∷ 2 ∷ 3 ∷ []

abbrev vectors : List ℕ
vectors = 10 ∷ 11 ∷ 12 ∷ 13 ∷ []

abbrev buffer : List ℕ
buffer = 0 ∷ 0 ∷ []

compact_data_run : compact_data 3 2 2 kept_rows vectors buffer ≡ compacted (10 ∷ 12 ∷ 13 ∷ 13 ∷ [])
unfolding compact_data
compact_data_run = refl

compact_data_dims : compact_data 3 2 5 kept_rows vectors buffer ≡ dimension_mismatch
unfolding compact_data
compact_data_dims = refl

compact_data_row : compact_data 3 2 2 (0 ∷ 4 ∷ []) vectors buffer ≡ fault
unfolding compact_data
compact_data_row = refl

-- A buffer without rows makes no progress.
compact_data_empty_buffer : compact_data 9 2 2 kept_rows vectors [] ≡ out_of_fuel
unfolding compact_data
compact_data_empty_buffer = refl

compact_data-IsCompacted_example :
    (result : List ℕ) × (compact_data 3 2 2 kept_rows vectors buffer ≡ compacted result)
    × (length result ≡ length vectors)
    × ((k o : ℕ) → get_elem? kept_rows k ≡ some o → get_elem? result k ≡ get_elem? vectors o)
    × ((k : ℕ) → length kept_rows ≤ k → get_elem? result k ≡ get_elem? vectors k)
compact_data-IsCompacted_example =
    compact_data-IsCompacted 3 2 kept_rows vectors buffer
      ((omega arith, (omega arith, tt)), ((omega arith, tt), (tt, tt)))
      (omega arith, (omega arith, (omega arith, tt))) (omega arith) (omega arith)
