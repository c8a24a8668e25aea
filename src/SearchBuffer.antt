-- ===== src/SearchBuffer.antt =====
-- The buffer of a greedy search: include/svs/index/vamana/search_buffer.h.
-- `candidates` is the whole vector, of which the first `size` slots are in use. A read outside the
-- vector, which the source leaves undefined, is `none`.
pub mod Insert
pub mod Invariant
pub mod Next
pub mod Start
pub mod Setup
pub mod Tests
use scalable_vector_search.Filter
use scalable_vector_search.Neighbor.{SearchNeighbor, Visited, set_visited}
use scalable_vector_search.Candidates.{position, has_repeat, copy_backward}
use scalable_vector_search.Base.{
  ℕ, zero, suc, ◌+◌, ◌-◌, Bool, true, false, not, ◌&&◌, List, [], ◌∷◌, ◌++◌, Option, none, some,
  get_elem?, set, take, drop, replicate, length, ltb, ◌==◌, if◌then◌else◌, min,
}

-- `SearchBufferConfig`, and the exception of `check_invariants`.
pub record SearchBufferConfig : Type 0 where
  pub search_window_size : ℕ
  pub total_capacity : ℕ

pub data ConfigResult : Type 0 where
  ok : SearchBufferConfig → ConfigResult
  improper_configuration : ConfigResult

unfoldable pub make_config : ℕ → ℕ → ConfigResult
make_config window capacity =
    if ltb capacity window
    then improper_configuration
    else ok (record { search_window_size = window; total_capacity = capacity })

pub record SearchBuffer (D : Type 0) : Type 0 where
  pub size : ℕ
  pub best_unvisited : ℕ
  pub search_window_size : ℕ
  pub capacity : ℕ
  pub candidates : List (SearchNeighbor D)
  pub visited : Option (List ℕ)

-- The index bits of the visited filter.
abbrev pub filter_bits : ℕ
filter_bits = 16

-- `std::vector::resize`; `blank` is what a new slot holds.
unfoldable pub resize : {A : Type 0} → A → ℕ → List A → List A
resize blank n xs = take n xs ++ replicate (n - length xs) blank

module _ {D : Type 0} where
  unfoldable pub make_buffer : SearchNeighbor D → SearchBufferConfig → Bool → SearchBuffer D
  make_buffer blank config enable_visited = record {
    size = 0;
    best_unvisited = 0;
    search_window_size = config.search_window_size;
    capacity = config.total_capacity;
    candidates = replicate (config.total_capacity + 1) blank;
    visited = if enable_visited then some (Filter.new_filter filter_bits) else none;
  }

  unfoldable pub visited_set_enabled : SearchBuffer D → Bool
  visited_set_enabled b = elim b.visited [ none ↦ false | some _ ↦ true ]

  unfoldable pub config : SearchBuffer D → SearchBufferConfig
  config b = record { search_window_size = b.search_window_size; total_capacity = b.capacity }

  unfoldable pub shallow_copy : SearchNeighbor D → SearchBuffer D → SearchBuffer D
  unfolding make_buffer config visited_set_enabled
  shallow_copy blank b = make_buffer blank (config b) (visited_set_enabled b)

  -- The two overloads: by a size, and by a configuration.
  unfoldable pub change_maxsize : SearchNeighbor D → ℕ → SearchBuffer D → SearchBuffer D
  unfolding resize
  change_maxsize blank new_size b = record b {
    search_window_size = new_size;
    capacity = new_size;
    candidates = resize blank (new_size + 1) b.candidates;
    size = min b.size new_size;
  }

  unfoldable pub change_config :
      SearchNeighbor D → SearchBufferConfig → SearchBuffer D → SearchBuffer D
  unfolding resize
  change_config blank c b = record b {
    search_window_size = c.search_window_size;
    capacity = c.total_capacity;
    candidates = resize blank (c.total_capacity + 1) b.candidates;
  }

  unfoldable pub clear : SearchBuffer D → SearchBuffer D
  clear b = record b {
    size = 0;
    best_unvisited = 0;
    visited = elim b.visited [ none ↦ none | some slots ↦ some (Filter.reset filter_bits slots) ];
  }

  unfoldable pub full : SearchBuffer D → Bool
  full b = b.size == b.capacity

  unfoldable pub back : SearchBuffer D → Option (SearchNeighbor D)
  back b = if b.size == 0 then none else get_elem? b.candidates (b.size - 1)

  unfoldable pub view : SearchBuffer D → List (SearchNeighbor D)
  view b = take b.size b.candidates

  unfoldable pub done : SearchBuffer D → Bool
  done b = b.best_unvisited == min b.size b.search_window_size

  -- The loop of `next` from position p on: stop at `upper` or at an unvisited slot.
  unfoldable pub skip_visited : ℕ → List (SearchNeighbor D) → ℕ → ℕ → ℕ
  skip_visited zero xs upper p = p
  skip_visited (suc fuel) xs upper p =
      let rest = skip_visited fuel xs upper (p + 1) in
      if p == upper
      then p
      else elim (get_elem? xs p) [ none ↦ p | some x ↦ if x.meta.visited then rest else p ]

  -- The buffer and the neighbor, or `none` for an access outside the vector.
  unfoldable pub next : SearchBuffer D → Option (SearchBuffer D × SearchNeighbor D)
  next b = elim (get_elem? b.candidates b.best_unvisited) [
    | none ↦ none
    | some node ↦
        let node' = set_visited node in
        let cs = set b.candidates b.best_unvisited node' in
        let upper = min b.size b.search_window_size in
        some (
          record b {
            candidates = cs;
            best_unvisited =
                skip_visited (upper - b.best_unvisited) cs upper (b.best_unvisited + 1);
          },
          node',
        )
  ]

  unfoldable pub push_back : SearchNeighbor D → SearchBuffer D → SearchBuffer D
  unfolding full
  push_back n b =
      if not (full b)
      then record b { candidates = set b.candidates b.size n; size = b.size + 1 }
      else b

  -- The vector after `unsafe_insert` at a position.
  unfoldable pub unsafe_insert : SearchNeighbor D → ℕ → SearchBuffer D → SearchBuffer D
  unsafe_insert n i b = record b {
    candidates = set (copy_backward b.candidates i (b.size - i)) i n;
  }

  module _ (lt : D → D → Bool) where
    -- On an empty buffer the source compares with what stands before the vector, and drops the
    -- answer unless the capacity is zero; that case is `false` here.
    unfoldable pub can_skip : D → SearchBuffer D → Bool
    unfolding back full
    can_skip d b = elim (back b) [ none ↦ false | some last ↦ lt last.distance d && full b ]

    -- The buffer and the reported position.
    unfoldable pub insert_inner : SearchNeighbor D → SearchBuffer D → SearchBuffer D × ℕ
    unfolding view unsafe_insert
    insert_inner n b =
        let pos = position lt n.distance (view b) in
        if has_repeat lt n (view b) pos then (b, b.size + 1) else (
          record (unsafe_insert n pos b) {
            size = min (b.size + 1) b.capacity;
            best_unvisited = min b.best_unvisited pos;
          },
          pos,
        )

    unfoldable pub insert : SearchNeighbor D → SearchBuffer D → SearchBuffer D × ℕ
    unfolding can_skip insert_inner
    insert n b = if can_skip n.distance b then (b, b.size) else insert_inner n b

  -- `std::sort` on the slots in use. Which order it leaves among equal distances is not said, so
  -- the sorting function is a parameter.
  unfoldable pub sort :
      (List (SearchNeighbor D) → List (SearchNeighbor D)) → SearchBuffer D → SearchBuffer D
  unfolding view
  sort by b = record b { candidates = by (view b) ++ drop b.size b.candidates }

  unfoldable pub enable_visited_set : SearchBuffer D → SearchBuffer D
  unfolding visited_set_enabled
  enable_visited_set b =
      if not (visited_set_enabled b)
      then record b { visited = some (Filter.new_filter filter_bits) }
      else b

  unfoldable pub disable_visited_set : SearchBuffer D → SearchBuffer D
  disable_visited_set b = record b { visited = none }

  unfoldable pub is_visited : ℕ → SearchBuffer D → Bool
  is_visited i b = elim b.visited [
    | none ↦ false
    | some slots ↦ Filter.contains filter_bits slots i
  ]

  -- The buffer and whether the filter reported the id.
  unfoldable pub emplace_visited : ℕ → SearchBuffer D → SearchBuffer D × Bool
  emplace_visited i b = elim b.visited [
    | none ↦ (b, false)
    | some slots ↦
        let r = Filter.emplace filter_bits slots i in
        (record b { visited = some r.values }, r.present)
  ]
