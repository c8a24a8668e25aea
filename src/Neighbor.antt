-- ===== src/Neighbor.antt =====
-- Pairs of an id and a distance: include/svs/lib/neighbor.h. `Flags` has the two-flag metadata.
pub mod Flags
pub mod Totality
pub mod Distinct
pub mod Tests
use scalable_vector_search.Base.{ℕ, Bool, true, false, ltb, if◌then◌else◌}

-- `Neighbor<Idx, Meta>` over a type `D` of distances.
pub record Neighbor (D M : Type 0) : Type 0 where
  pub id : ℕ
  pub distance : D
  pub meta : M

-- `Visited`.
pub record Visited : Type 0 where
  pub visited : Bool

abbrev pub SearchNeighbor : Type 0 → Type 0
SearchNeighbor D = Neighbor D Visited

-- `set_visited` on a search neighbor.
abbrev pub set_visited : {D : Type 0} → SearchNeighbor D → SearchNeighbor D
set_visited n = record n { meta = record { visited = true } }

module _ {D M : Type 0} (lt : D → D → Bool) where
  -- `operator<`.
  pub before : Neighbor D M → Neighbor D M → Bool
  before x y = lt x.distance y.distance

  -- `TotalOrder`: ties go to the smaller id.
  pub total_order : Neighbor D M → Neighbor D M → Bool
  unfolding before
  total_order x y = if before x y then true else if before y x then false else ltb x.id y.id
