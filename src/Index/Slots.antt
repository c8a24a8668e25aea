-- ===== src/Index/Slots.antt =====
-- What holds of an index between its calls, and the lists of states.
use scalable_vector_search.Graph.{n_nodes}
use scalable_vector_search.Graph.Edges.{IsGraph}
use scalable_vector_search.Translation.{HashMap}
use scalable_vector_search.Translation.Bijection.{IsBijection}
use scalable_vector_search.Consolidate.Generated.{IsInside}
use scalable_vector_search.Index.{
  SlotMetadata, empty, valid, deleted, is_valid, is_deleted_slot, is_deleted, vacate, Index,
}
use scalable_vector_search.Base.{
  ℕ, zero, suc, ◌≡◌, refl, ap, true, false, List, [], ◌∷◌, some, get_elem?, length,
}

-- Graph, data and states have the same length, the edges are inside, and the slots that are valid are
-- those that the translation knows.
pub record IsIndex (m : HashMap) {V : Type 0} (ix : Index m V) : Type 0 where
  pub slots : length ix.status ≡ n_nodes ix.graph
  pub rows : length ix.vectors ≡ n_nodes ix.graph
  pub is_graph : IsGraph ix.graph
  pub inside : IsInside (n_nodes ix.graph) ix.graph
  pub bijection : IsBijection m ix.translator
  pub tracked :
      (e i : ℕ)
      → m.find ix.translator.external_to_internal e ≡ some i
      → get_elem? ix.status i ≡ some valid
  pub known :
      (i : ℕ)
      → get_elem? ix.status i ≡ some valid
      → (e : ℕ) × (m.find ix.translator.internal_to_external i ≡ some e)

pub is_valid-only : (s : SlotMetadata) → is_valid s ≡ true → s ≡ valid
unfolding is_valid
is_valid-only empty h = cc
is_valid-only valid h = refl
is_valid-only deleted h = cc

pub is_deleted-valid :
    (status : List SlotMetadata) (i : ℕ)
    → is_deleted status i ≡ false
    → get_elem? status i ≡ some valid
unfolding is_deleted is_valid
is_deleted-valid [] i h = cc
is_deleted-valid (empty ∷ status) zero h = cc
is_deleted-valid (valid ∷ status) zero h = refl
is_deleted-valid (deleted ∷ status) zero h = cc
is_deleted-valid (s ∷ status) (suc i) h = is_deleted-valid status i h

pub valid-is_deleted :
    (status : List SlotMetadata) (i : ℕ)
    → get_elem? status i ≡ some valid
    → is_deleted status i ≡ false
unfolding is_deleted is_valid
valid-is_deleted status i h = rw (h, is_deleted) refl

pub length-vacate : (status : List SlotMetadata) → length (vacate status) ≡ length status
unfolding vacate
length-vacate [] = refl
length-vacate (s ∷ status) = ap suc (length-vacate status)

-- After `vacate` the valid slots are those that were, and none is deleted.
pub vacate-valid :
    (status : List SlotMetadata) (i : ℕ)
    → get_elem? status i ≡ some valid
    → get_elem? (vacate status) i ≡ some valid
unfolding vacate is_deleted_slot
vacate-valid [] i h = h
vacate-valid (empty ∷ status) zero h = h
vacate-valid (valid ∷ status) zero h = h
vacate-valid (deleted ∷ status) zero h = cc
vacate-valid (s ∷ status) (suc i) h = vacate-valid status i h

pub valid-vacate :
    (status : List SlotMetadata) (i : ℕ)
    → get_elem? (vacate status) i ≡ some valid
    → get_elem? status i ≡ some valid
unfolding vacate is_deleted_slot
valid-vacate [] i h = h
valid-vacate (empty ∷ status) zero h = h
valid-vacate (valid ∷ status) zero h = h
valid-vacate (deleted ∷ status) zero h = cc
valid-vacate (s ∷ status) (suc i) h = valid-vacate status i h

pub vacate-deleted :
    (status : List SlotMetadata) (i : ℕ) → ¬ (get_elem? (vacate status) i ≡ some deleted)
unfolding vacate is_deleted_slot
vacate-deleted [] i h = cc
vacate-deleted (empty ∷ status) zero h = cc
vacate-deleted (valid ∷ status) zero h = cc
vacate-deleted (deleted ∷ status) zero h = cc
vacate-deleted (s ∷ status) (suc i) h = vacate-deleted status i h
