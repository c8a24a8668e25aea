-- ===== src/Compaction.antt =====
-- Moving the entries of a table together, in place and batch by batch, through a buffer: `compact_data`
-- of include/svs/core/compact.h, and the loop of the same shape over the graph in
-- `MutableVamanaIndex::compact` of include/svs/index/vamana/dynamic_index.h.
-- The two loops differ in their tables, in what they do to an entry on its way, and in the type of their
-- indices, so both are `compact_batches` over a `Table`, with the sum in that type as a parameter. Each parallel run handles every index of a batch once, in an order
-- that does not matter, as the indices written are distinct and nothing that is read is written.
pub mod Batches
pub mod Lists
pub mod Tests
use scalable_vector_search.Threads.{UnitRange, unit_range, range_size}
use scalable_vector_search.Base.{
  ℕ, zero, suc, ◌+◌, ◌<◌, ◌≡◌, ◌≢◌, Bool, true, false, not, List, [], ◌∷◌, Option, none, some,
  get_elem?, set, length, ltb, ◌==◌, if◌then◌else◌, min,
}

-- What the loops use of a table; `none` is an access outside it.
pub record Table : Type 1 where
  pub State : Type 0
  pub Entry : Type 0
  pub size : State → ℕ
  pub get : State → ℕ → Option Entry
  pub put : State → ℕ → Entry → Option State

-- A table whose states keep an invariant, for entries that it can hold.
pub record IsTable (t : Table) (Good : t.State → Type 0) (Fits : t.Entry → Type 0) : Type 0 where
  pub get-inside :
      (s : t.State) (i : ℕ) → Good s → i < t.size s → (v : t.Entry) × (t.get s i ≡ some v) × Fits v
  pub put-inside :
      (s : t.State) (i : ℕ) (v : t.Entry)
      → Good s
      → i < t.size s
      → Fits v
      → (s' : t.State) × (t.put s i v ≡ some s')
        × Good s'
        × (t.size s' ≡ t.size s)
        × (t.get s' i ≡ some v)
        × ((j : ℕ) → i ≢ j → t.get s' j ≡ t.get s j)

-- How a compaction ends: with the table, by an exception (of unequal dimensions, or of an entry that
-- cannot be moved), or by a fault.
pub data CompactResult (S : Type 0) : Type 0 where
  compacted : S → CompactResult S
  dimension_mismatch not_moved fault out_of_fuel : CompactResult S

module _ (t b : Table) (move : t.Entry → Option b.Entry) (back : b.Entry → t.Entry) where
  -- The first run of a batch: entries from their old places into the buffer, from `batch_id` on.
  unfoldable pub fill_buffer : t.State → List ℕ → ℕ → ℕ → ℕ → b.State → CompactResult b.State
  fill_buffer s new_to_old start batch_id zero buffer = compacted buffer
  fill_buffer s new_to_old start batch_id (suc count) buffer =
      elim (get_elem? new_to_old (start + batch_id)) [
        | none ↦ fault
        | some old_id ↦ elim (t.get s old_id) [
          | none ↦ fault
          | some v ↦ elim (move v) [
            | none ↦ not_moved
            | some w ↦ elim (b.put buffer batch_id w) [
              | none ↦ fault
              | some buffer' ↦ fill_buffer s new_to_old start (batch_id + 1) count buffer'
            ]
          ]
        ]
      ]

  -- The second run: entries from the buffer to their new places.
  unfoldable pub write_back : b.State → ℕ → ℕ → ℕ → t.State → Option t.State
  write_back buffer start batch_id zero s = some s
  write_back buffer start batch_id (suc count) s = elim (b.get buffer batch_id) [
    | none ↦ none
    | some w ↦ elim (t.put s (start + batch_id) (back w)) [
      | none ↦ none
      | some s' ↦ write_back buffer start (batch_id + 1) count s'
    ]
  ]

  unfoldable pub compact_batch :
      List ℕ → UnitRange → t.State → b.State → CompactResult (t.State × b.State)
  unfolding fill_buffer write_back range_size
  compact_batch new_to_old range s buffer =
      elim (fill_buffer s new_to_old range.start 0 (range_size range) buffer) [
        | dimension_mismatch ↦ dimension_mismatch
        | not_moved ↦ not_moved
        | fault ↦ fault
        | out_of_fuel ↦ out_of_fuel
        | compacted buffer' ↦ elim (write_back buffer' range.start 0 (range_size range) s) [
          | none ↦ fault
          | some s' ↦ compacted (s', buffer')
        ]
      ]

  -- The loop over the batches from `start` to the end of the map. `plus` is the sum in the type of the
  -- indices.
  unfoldable pub compact_batches :
      (plus : ℕ → ℕ → ℕ) → ℕ → ℕ → List ℕ → ℕ → t.State → b.State → CompactResult t.State
  unfolding compact_batch unit_range
  compact_batches plus zero batch_size new_to_old start s buffer =
      if ltb start (length new_to_old) then out_of_fuel else compacted s
  compact_batches plus (suc fuel) batch_size new_to_old start s buffer =
      elim (ltb start (length new_to_old)) [
        | false ↦ compacted s
        | true ↦
            let stop = min (plus start batch_size) (length new_to_old) in
            elim (compact_batch new_to_old (unit_range start stop) s buffer) [
              | dimension_mismatch ↦ dimension_mismatch
              | not_moved ↦ not_moved
              | fault ↦ fault
              | out_of_fuel ↦ out_of_fuel
              | compacted (s', buffer') ↦
                  compact_batches plus fuel batch_size new_to_old stop s' buffer'
            ]
      ]

-- The rows of a dataset, as a table.
abbrev pub rows : Type 0 → Table
rows V = record {
  State = List V;
  Entry = V;
  size = length;
  get = get_elem?;
  put = λ s i v. if ltb i (length s) then some (set s i v) else none;
}

-- `compact_data`, for data and a buffer of the given numbers of dimensions. Its indices are of the type
-- of sizes, in which the sum of the sizes of two vectors in memory is exact.
unfoldable pub compact_data :
    {V : Type 0} → ℕ → ℕ → ℕ → List ℕ → List V → List V → CompactResult (List V)
unfolding compact_batches
compact_data {V} fuel data_dims buffer_dims new_to_old vectors buffer =
    if not (data_dims == buffer_dims)
    then dimension_mismatch
    else compact_batches (rows V) (rows V) some (λ v. v) (λ i n. i + n) fuel (length buffer)
        new_to_old 0 vectors buffer
