-- ===== src/Filter.antt =====
-- The visited filter of graph search: include/svs/index/vamana/filter.h.
-- A direct-mapped cache of 2 ^ n slots over 32-bit ids. From sixteen index bits on, a slot holds
-- the upper half of an id; below that it holds the whole id.
pub mod Soundness
mod Tests
use Prim.Native.Nat.{bit_and}
use scalable_vector_search.Base.{
  ℕ, ◌-◌, ◌/◌, ◌^◌, Bool, List, [], ◌∷◌, get_or, set, map, replicate, leb, ◌==◌, if◌then◌else◌,
}

-- The width `N` of the index is a parameter, as in the source.
module _ (n : ℕ) where
  -- The largest value of the stored type: 16 bits wide if n ≥ 16, and 32 bits wide otherwise.
  unfoldable pub sentinel : ℕ
  sentinel = if leb 16 n then 2 ^ 16 - 1 else 2 ^ 32 - 1

  unfoldable pub filter_capacity : ℕ
  filter_capacity = 2 ^ n

  hash_mask : ℕ
  hash_mask = 2 ^ n - 1

  unfoldable pub hash : ℕ → ℕ
  unfolding hash_mask
  hash key = bit_and key hash_mask

  unfoldable pub value : ℕ → ℕ
  value key = if leb 16 n then key / 2 ^ 16 else key

  unfoldable pub check : ℕ → ℕ → Bool
  check key v = if leb 16 n then key / 2 ^ 16 == v else key == v

  -- The slots of a new filter.
  unfoldable pub new_filter : List ℕ
  new_filter = replicate filter_capacity sentinel

  -- `reset` fills the slots that are there.
  unfoldable pub reset : List ℕ → List ℕ
  reset values = map (λ _. sentinel) values

  -- The slots and the answer whether the key was there.
  unfoldable pub emplace : List ℕ → ℕ → record { values : List ℕ; present : Bool }
  emplace values key = record {
    values = set values (hash key) (value key);
    present = check key (get_or values (hash key) 0);
  }

  unfoldable pub contains : List ℕ → ℕ → Bool
  contains values key = check key (get_or values (hash key) 0)

  -- The slots after a sequence of insertions.
  unfoldable pub emplace_all : List ℕ → List ℕ → List ℕ
  emplace_all values [] = values
  emplace_all values (key ∷ keys) = emplace_all (emplace values key).values keys
