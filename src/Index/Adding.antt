-- ===== src/Index/Adding.antt =====
-- `add_points` of the mutable index, in two parts: up to its call of `VamanaBuilder`, with what it hands
-- to the builder, and from there on, for whatever graph the builder leaves.
use scalable_vector_search.Graph.{Graph, clear_node}
use scalable_vector_search.Translation.{HashMap, Translator, Result, insert}
use scalable_vector_search.Index.Compacting.{unsafe_resize}
use scalable_vector_search.Index.{
  SlotMetadata, empty, valid, is_empty_slot, resized, Index, IndexResult, done, size_mismatch,
  thrown, fault,
}
use scalable_vector_search.Base.{
  ℕ, zero, suc, ◌+◌, ◌-◌, ◌%◌, ◌^◌, Bool, true, false, not, List, [], ◌∷◌, ◌++◌, Option, none, some,
  get_elem?, set, replicate, length, ltb, ◌==◌, if◌then◌else◌, max,
}

-- The numbers from `start` on.
unfoldable pub numbers_from : ℕ → ℕ → List ℕ
numbers_from start zero = []
numbers_from start (suc count) = start ∷ numbers_from (start + 1) count

-- The search for empty slots: those found, and whether they are enough.
unfoldable pub find_slots : ℕ → ℕ → List SlotMetadata → List ℕ → List ℕ × Bool
unfolding is_empty_slot
find_slots num_points i [] slots = (slots, false)
find_slots num_points i (s ∷ status) slots =
    let slots' = if is_empty_slot s then slots ++ i ∷ [] else slots in
    elim (length slots' == num_points) [
      | true ↦ (slots', true)
      | false ↦ find_slots num_points (i + 1) status slots'
    ]

-- The loop of `copy_points`, and a fault outside the data.
unfoldable pub copy_points : {V : Type 0} → List V → List ℕ → List V → Option (List V)
copy_points points [] vectors = some vectors
copy_points [] (i ∷ slots) vectors = none
copy_points (p ∷ points) (i ∷ slots) vectors =
    if ltb i (length vectors) then copy_points points slots (set vectors i p) else none

-- `clear_lists`.
unfoldable pub clear_lists : List ℕ → Graph → Graph
unfolding clear_node
clear_lists [] g = g
clear_lists (i ∷ slots) g = clear_lists slots (clear_node i g)

-- The last loop.
unfoldable pub mark_valid : List ℕ → List SlotMetadata → List SlotMetadata
mark_valid [] status = status
mark_valid (i ∷ slots) status = mark_valid slots (set status i valid)

-- How the first part ends: with the entry point, the slots and the index that the builder is to work
-- on, or without a call of the builder.
pub data AddResult (m : HashMap) (V : Type 0) : Type 0 where
  to_build : ℕ → List ℕ → Index m V → AddResult m V
  ended : IndexResult m V → AddResult m V

module _ (m : HashMap) {V : Type 0} where
  -- The index with its vectors resized, and the slots with those behind the others.
  unfoldable pub grow_to : V → List ℕ → ℕ → List ℕ → Index m V → List ℕ × Index m V
  unfolding unsafe_resize resized numbers_from
  grow_to blank_datum blank_row new_size slots ix =
      let current_size = length ix.vectors in
      (
        slots ++ numbers_from current_size (max current_size new_size - current_size),
        record ix {
          vectors = resized new_size blank_datum ix.vectors;
          graph = unsafe_resize new_size blank_row ix.graph;
          status = resized new_size empty ix.status;
        },
      )

  -- The slots found are used if they are enough. The number of those that are missing is computed on
  -- unsigned numbers of 64 bits.
  unfoldable pub grow : V → List ℕ → ℕ → List ℕ × Bool → Index m V → List ℕ × Index m V
  unfolding grow_to
  grow blank_datum blank_row num_points found ix =
      let needed = (num_points + 2 ^ 64 - length found.0) % 2 ^ 64 in
      if found.1
      then (found.0, ix)
      else grow_to blank_datum blank_row ((length ix.vectors + needed) % 2 ^ 64) found.0 ix

  unfoldable pub make_room : V → List ℕ → ℕ → Index m V → List ℕ × Index m V
  unfolding find_slots grow
  make_room blank_datum blank_row num_points ix =
      grow blank_datum blank_row num_points (find_slots num_points 0 ix.status []) ix

  -- What follows once there is room, up to the builder.
  unfoldable pub fill_slots :
      (points : List V) (external_ids : List ℕ) → List ℕ × Index m V → AddResult m V
  unfolding insert copy_points clear_lists
  fill_slots points external_ids (slots, ix) =
      elim (insert m external_ids slots true ix.translator) [
        | Result.thrown error t ↦ ended (thrown error (record ix { translator = t }))
        | Result.fault ↦ ended fault
        | Result.done t ↦ elim (copy_points points slots ix.vectors) [
          | none ↦ ended fault
          | some vectors ↦ elim (get_elem? ix.entry_points 0) [
            | none ↦ ended fault
            | some entry_point ↦ to_build entry_point slots (record ix {
              graph = clear_lists slots ix.graph;
              vectors = vectors;
              translator = t;
            })
          ]
        ]
      ]

  -- The call, up to the builder.
  unfoldable pub add_points :
      (blank_datum : V) (blank_row : List ℕ) (points : List V) (external_ids : List ℕ)
      → Index m V
      → AddResult m V
  unfolding make_room fill_slots
  add_points blank_datum blank_row points external_ids ix =
      if not (length points == length external_ids)
      then ended (size_mismatch ix)
      else fill_slots points external_ids (make_room blank_datum blank_row (length points) ix)

  -- The rest of the call, where the builder leaves the graph g: the slots it returns, and the index.
  unfoldable pub finish_points : Graph → List ℕ → Index m V → List ℕ × Index m V
  unfolding mark_valid
  finish_points g slots ix = (slots, record ix { graph = g; status = mark_valid slots ix.status })

  -- The constructor from a graph and its data.
  unfoldable pub make_index :
      (g : Graph) (vectors : List V) (dimensions entry_point : ℕ) (external_ids : List ℕ)
      (new_translator : Translator m) (max_candidates prune_to : ℕ)
      → IndexResult m V
  unfolding insert numbers_from
  make_index g vectors dimensions entry_point external_ids new_translator max_candidates prune_to =
      let made : Index m V = record {
        graph = g;
        vectors = vectors;
        dimensions = dimensions;
        entry_points = entry_point ∷ [];
        status = replicate (length vectors) valid;
        translator = new_translator;
        max_candidates = max_candidates;
        prune_to = prune_to;
      } in
      elim (insert m external_ids (numbers_from 0 (length external_ids)) true new_translator) [
        | Result.done t ↦ done (record made { translator = t })
        | Result.thrown error t ↦ thrown error (record made { translator = t })
        | Result.fault ↦ fault
      ]
