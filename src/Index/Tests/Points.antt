-- ===== src/Index/Tests/Points.antt =====
-- The addition of two points to the consolidated index of three slots, up to the builder and after it.
use scalable_vector_search.Index.Tests.{two_ids, reclaimed, IsRow-of_degree, reclaimed-IsIndex}
use scalable_vector_search.Graph.{Graph, n_nodes, get_node, adjacency, clear_node}
use scalable_vector_search.Graph.Edges.{IsGraph}
use scalable_vector_search.Translation.{
  check, contains, external_key, internal_key, insert, insert_all, insert_translation, check_free,
  all_unique, all_unique_from,
}
use scalable_vector_search.Translation.Tests.{put, functions, functions-IsHashMap}
use scalable_vector_search.Consolidate.Generated.{IsInside}
use scalable_vector_search.Index.{
  is_empty_slot, empty, valid, Index, translate_external_id, resized,
}
use scalable_vector_search.Index.Compacting.{unsafe_resize}
use scalable_vector_search.Index.Adding.{
  AddResult, to_build, ended, finish_points, add_points, fill_slots, make_room, grow, grow_to,
  find_slots, numbers_from, copy_points, clear_lists,
}
use scalable_vector_search.Index.Extended.{IsAdded}
use scalable_vector_search.Index.Added.{IsPrepared, add_points-IsPrepared, finish_points-IsAdded}
use scalable_vector_search.Base.{
  sym, ◌∙◌, ℕ, zero, suc, ◌≡◌, refl, subst, List, [], ◌∷◌, some, get_elem?, arith,
}

-- With two points added, before the builder: the first takes the empty slot, and the second a new one.
abbrev awaiting : Index functions ℕ
awaiting = record reclaimed {
  graph = record {
    rows = (1 ∷ 2 ∷ 0 ∷ []) ∷ (0 ∷ 2 ∷ 0 ∷ []) ∷ (1 ∷ 0 ∷ 0 ∷ []) ∷ (0 ∷ 7 ∷ 7 ∷ []) ∷ [];
    max_degree = 2;
  };
  vectors = 10 ∷ 20 ∷ 12 ∷ 21 ∷ [];
  status = valid ∷ empty ∷ valid ∷ empty ∷ [];
  translator = record {
    external_to_internal = put (put two_ids.external_to_internal 90 (some 1)) 91 (some 3);
    internal_to_external = put (put two_ids.internal_to_external 1 (some 90)) 3 (some 91);
  };
}

add_points_run :
    add_points functions 0 (7 ∷ 7 ∷ 7 ∷ []) (20 ∷ 21 ∷ []) (90 ∷ 91 ∷ []) reclaimed
    ≡ to_build 2 (1 ∷ 3 ∷ []) awaiting
unfolding add_points fill_slots make_room grow grow_to find_slots is_empty_slot numbers_from
    copy_points clear_lists unsafe_resize resized clear_node insert insert_all insert_translation
    check_free all_unique all_unique_from check contains external_key internal_key
add_points_run = refl

add_points-IsPrepared_example :
    (slots : List ℕ) × (ix' : Index functions ℕ) × (add_points functions 0
        (7 ∷ 7 ∷ 7 ∷ [])
        (20 ∷ 21 ∷ [])
        (90 ∷ 91 ∷ [])
        reclaimed
      ≡ to_build 2 slots ix')
    × IsPrepared functions (7 ∷ 7 ∷ 7 ∷ []) (20 ∷ 21 ∷ []) (90 ∷ 91 ∷ []) reclaimed 2 slots ix'
unfolding n_nodes
add_points-IsPrepared_example =
    add_points-IsPrepared functions 0 (7 ∷ 7 ∷ 7 ∷ []) (20 ∷ 21 ∷ []) (90 ∷ 91 ∷ []) reclaimed 2
      functions-IsHashMap reclaimed-IsIndex refl (omega arith) refl refl (omega arith) (omega arith)
      (((λ e. omega (arith, e)), tt), (tt, tt)) (omega arith, (omega arith, tt)) (refl, (refl, tt))

abbrev handed_slots : AddResult functions ℕ → List ℕ
handed_slots r = elim r [ to_build ep slots ix ↦ slots | ended e ↦ [] ]

abbrev handed_index : AddResult functions ℕ → Index functions ℕ
handed_index r = elim r [ to_build ep slots ix ↦ ix | ended e ↦ awaiting ]

awaiting-IsPrepared :
    IsPrepared functions
      (7 ∷ 7 ∷ 7 ∷ [])
      (20 ∷ 21 ∷ [])
      (90 ∷ 91 ∷ [])
      reclaimed
      2
      (1 ∷ 3 ∷ [])
      awaiting
unfolding n_nodes
awaiting-IsPrepared =
    let (slots, ix', runs, p) =
      add_points-IsPrepared functions 0 (7 ∷ 7 ∷ 7 ∷ []) (20 ∷ 21 ∷ []) (90 ∷ 91 ∷ []) reclaimed 2
        functions-IsHashMap reclaimed-IsIndex refl (omega arith) refl refl (omega arith)
        (omega arith) (((λ e. omega (arith, e)), tt), (tt, tt)) (omega arith, (omega arith, tt))
        (refl, (refl, tt)) in
    let same : to_build 2 slots ix' ≡ to_build 2 (1 ∷ 3 ∷ []) awaiting =
      sym runs ∙ add_points_run in
    subst
      (λ z.
        IsPrepared functions (7 ∷ 7 ∷ 7 ∷ []) (20 ∷ 21 ∷ []) (90 ∷ 91 ∷ []) reclaimed 2
          (handed_slots z) (handed_index z))
      same p

-- What a builder may leave: 1 and 3 are linked to 2, and 2 to all.
abbrev built : Graph
built = record {
  rows = (1 ∷ 2 ∷ 0 ∷ []) ∷ (1 ∷ 2 ∷ 0 ∷ []) ∷ (2 ∷ 1 ∷ 3 ∷ []) ∷ (1 ∷ 2 ∷ 7 ∷ []) ∷ [];
  max_degree = 2;
}

built-IsGraph : IsGraph built
built-IsGraph zero row e = IsRow-of_degree 1 (1 ∷ 2 ∷ 0 ∷ []) row e refl refl (omega arith)
built-IsGraph (suc zero) row e = IsRow-of_degree 1 (1 ∷ 2 ∷ 0 ∷ []) row e refl refl (omega arith)
built-IsGraph (suc (suc zero)) row e =
    IsRow-of_degree 2 (2 ∷ 1 ∷ 3 ∷ []) row e refl refl (omega arith)
built-IsGraph (suc (suc (suc zero))) row e =
    IsRow-of_degree 1 (1 ∷ 2 ∷ 7 ∷ []) row e refl refl (omega arith)
built-IsGraph (suc (suc (suc (suc i)))) row e = cc

built-IsInside : IsInside 4 built
unfolding get_node adjacency
built-IsInside zero h = (2 ∷ [], refl, (omega arith, tt))
built-IsInside (suc zero) h = (2 ∷ [], refl, (omega arith, tt))
built-IsInside (suc (suc zero)) h = (1 ∷ 3 ∷ [], refl, (omega arith, (omega arith, tt)))
built-IsInside (suc (suc (suc zero))) h = (2 ∷ [], refl, (omega arith, tt))
built-IsInside (suc (suc (suc (suc i)))) h = absurd (omega arith)

finish_points-IsAdded_example :
    IsAdded functions
      (20 ∷ 21 ∷ [])
      (90 ∷ 91 ∷ [])
      reclaimed
      (finish_points functions built (1 ∷ 3 ∷ []) awaiting).1
    × ((j e i : ℕ)
        → get_elem? (90 ∷ 91 ∷ []) j ≡ some e
        → get_elem? (finish_points functions built (1 ∷ 3 ∷ []) awaiting).0 j ≡ some i
        → translate_external_id functions (finish_points functions built (1 ∷ 3 ∷ []) awaiting).1 e
          ≡ some i)
unfolding n_nodes
finish_points-IsAdded_example =
    finish_points-IsAdded functions (7 ∷ 7 ∷ 7 ∷ []) (20 ∷ 21 ∷ []) (90 ∷ 91 ∷ []) reclaimed 2
      (1 ∷ 3 ∷ []) awaiting built reclaimed-IsIndex awaiting-IsPrepared built-IsGraph refl
      built-IsInside
