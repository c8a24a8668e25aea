-- ===== src/Index/Filled.antt =====
-- The loops of `add_points` over the slots: the data, the states and the adjacency lists.
use native.Mathlib.Decide.{ℕ_discrete}
use scalable_vector_search.Candidates.Slots.{get_elem?-lt, get_elem?-some_lt}
use scalable_vector_search.Compaction.Batches.{IsAscending}
use scalable_vector_search.Graph.{Graph, n_nodes, get_node, adjacency, clear_node}
use scalable_vector_search.Graph.Rows.{IsRow}
use scalable_vector_search.Graph.Edges.{IsGraph, get_node-row}
use scalable_vector_search.Index.{SlotMetadata, valid}
use scalable_vector_search.Index.Adding.{copy_points, clear_lists, mark_valid}
use scalable_vector_search.Base.{
  ℕ, zero, suc, ◌+◌, ◌<◌, ◌≡◌, ◌≢◌, ◌⊎◌, inl, inr, refl, sym, ap, ◌∙◌, subst, true, List, [], ◌∷◌,
  some, some-inj, get_elem?, set, length, length-set, ltb, arith, All, All-map, get_elem?-set_self,
  get_elem?-set_ne,
}

-- A number is at some place of a list, or is none of its elements.
pub place_or_none :
    (x : ℕ) (xs : List ℕ) → ((j : ℕ) × (get_elem? xs j ≡ some x)) ⊎ All (λ y. y ≢ x) xs
place_or_none x [] = inr tt
place_or_none x (y ∷ xs) = elim (ℕ_discrete y x) [
  | yes same ↦ inl (0, ap some same)
  | no other ↦ elim (place_or_none x xs) [
    | inl (j, at) ↦ inl (suc j, at)
    | inr none_there ↦ inr (other, none_there)
  ]
]

-- What lies below an ascending list is none of its elements.
pub All-ne : (x : ℕ) (xs : List ℕ) → All (λ y. x < y) xs → All (λ y. y ≢ x) xs
All-ne x xs a = All-map (λ y. x < y) (λ y. y ≢ x) (λ y h e. omega (arith, e, h)) xs a

pub record IsCopied {V : Type 0} (points : List V) (slots : List ℕ) (vectors vectors' : List V)
    : Type 0 where
  pub same_length : length vectors' ≡ length vectors
  pub copied : (j i : ℕ) → get_elem? slots j ≡ some i → get_elem? vectors' i ≡ get_elem? points j
  pub others : (i : ℕ) → All (λ y. y ≢ i) slots → get_elem? vectors' i ≡ get_elem? vectors i

copy_step :
    {V : Type 0} (p : V) (points : List V) (i : ℕ) (slots : List ℕ) (vectors : List V)
    → i < length vectors
    → copy_points (p ∷ points) (i ∷ slots) vectors ≡ copy_points points slots (set vectors i p)
unfolding copy_points
copy_step p points i slots vectors h =
    let inside : ltb i (length vectors) ≡ true = ground arith in rw inside refl

pub copy_points-IsCopied :
    {V : Type 0} (points : List V) (slots : List ℕ) (vectors : List V)
    → length points ≡ length slots
    → IsAscending slots
    → All (λ i. i < length vectors) slots
    → (vectors' : List V) × (copy_points points slots vectors ≡ some vectors')
      × IsCopied points slots vectors vectors'
unfolding copy_points
copy_points-IsCopied points [] vectors same a inside =
    (vectors, refl, record { same_length = refl; copied = λ j i at. cc; others = λ i h. refl })
copy_points-IsCopied [] (i ∷ slots) vectors same a inside = absurd (omega (arith, same))
copy_points-IsCopied (p ∷ points) (i ∷ slots) vectors same a inside =
    let size = length-set vectors i p in
    let (vectors', runs, c) =
      copy_points-IsCopied points slots (set vectors i p) (omega (arith, same)) a.1 (
        All-map (λ k. k < length vectors) (λ k. k < length (set vectors i p))
          (λ k h. omega (arith, h, size)) slots inside.1) in
    (
      vectors',
      copy_step p points i slots vectors inside.0 ∙ runs,
      record {
        same_length = c.same_length ∙ size;
        copied = λ j k at. here c j k at;
        others = λ k h. c.others k h.1 ∙ get_elem?-set_ne vectors p h.0;
      },
    )
  where
    here :
        {vectors' : List _}
        → IsCopied points slots (set vectors i p) vectors'
        → (j k : ℕ) → get_elem? (i ∷ slots) j ≡ some k
        → get_elem? vectors' k ≡ get_elem? (p ∷ points) j
    here {vectors'} c zero k at =
        subst (λ z. get_elem? vectors' z ≡ some p) (some-inj at)
          (c.others i (All-ne i slots a.0) ∙ get_elem?-set_self vectors i p inside.0)
    here {vectors'} c (suc j) k at = c.copied j k at

pub record IsMarkedValid (slots : List ℕ) (status status' : List SlotMetadata) : Type 0 where
  pub same_length : length status' ≡ length status
  pub marked : (j i : ℕ) → get_elem? slots j ≡ some i → get_elem? status' i ≡ some valid
  pub others : (i : ℕ) → All (λ y. y ≢ i) slots → get_elem? status' i ≡ get_elem? status i

pub mark_valid-IsMarkedValid :
    (slots : List ℕ) (status : List SlotMetadata)
    → IsAscending slots
    → All (λ i. i < length status) slots
    → IsMarkedValid slots status (mark_valid slots status)
unfolding mark_valid
mark_valid-IsMarkedValid [] status a inside = record {
  same_length = refl;
  marked = λ j i at. cc;
  others = λ i h. refl;
}
mark_valid-IsMarkedValid (i ∷ slots) status a inside =
    let size = length-set status i valid in
    let m = mark_valid-IsMarkedValid slots (set status i valid) a.1 (
      All-map (λ k. k < length status) (λ k. k < length (set status i valid))
        (λ k h. omega (arith, h, size)) slots inside.1) in
    record {
      same_length = m.same_length ∙ size;
      marked = here m;
      others = λ k h. m.others k h.1 ∙ get_elem?-set_ne status valid h.0;
    }
  where
    here :
        {status' : List SlotMetadata}
        → IsMarkedValid slots (set status i valid) status'
        → (j k : ℕ) → get_elem? (i ∷ slots) j ≡ some k
        → get_elem? status' k ≡ some valid
    here {status'} m zero k at =
        subst (λ z. get_elem? status' z ≡ some valid) (some-inj at)
          (m.others i (All-ne i slots a.0) ∙ get_elem?-set_self status i valid inside.0)
    here {status'} m (suc j) k at = m.marked j k at

-- All rows of a table have d + 1 slots, and those that are not to be cleared are rows of a graph.
pub record IsClearable (slots : List ℕ) (g : Graph) : Type 0 where
  pub slotted :
      (i : ℕ) (row : List ℕ) → get_elem? g.rows i ≡ some row → length row ≡ g.max_degree + 1
  pub outside :
      (i : ℕ) (row : List ℕ)
      → get_elem? g.rows i ≡ some row
      → All (λ y. y ≢ i) slots
      → (degree : ℕ) × IsRow g.max_degree row degree

pub record IsCleared (slots : List ℕ) (g g' : Graph) : Type 0 where
  pub is_graph : IsGraph g'
  pub same_nodes : n_nodes g' ≡ n_nodes g
  pub same_max_degree : g'.max_degree ≡ g.max_degree
  pub cleared : (j i : ℕ) → get_elem? slots j ≡ some i → get_node g' i ≡ some []
  pub others : (i : ℕ) → All (λ y. y ≢ i) slots → get_elem? g'.rows i ≡ get_elem? g.rows i

clear_step :
    (i : ℕ) (g : Graph) (row : List ℕ)
    → get_elem? g.rows i ≡ some row
    → clear_node i g ≡ record g { rows = set g.rows i (set row 0 0) }
unfolding clear_node
clear_step i g row at = rw (at, clear_node) refl

cleared-IsRow : (d : ℕ) (row : List ℕ) → length row ≡ d + 1 → IsRow d (set row 0 0) 0
cleared-IsRow d [] h = absurd (omega (arith, h))
cleared-IsRow d (x ∷ row) h = record { slots = h; head = refl; fits = omega arith }

clear_node-IsClearable :
    (i : ℕ) (slots : List ℕ) (g : Graph) (row : List ℕ)
    → get_elem? g.rows i ≡ some row
    → IsClearable (i ∷ slots) g
    → IsClearable slots (record g { rows = set g.rows i (set row 0 0) })
clear_node-IsClearable i slots g row at c =
    let inside = get_elem?-some_lt g.rows i row at in
    let here = get_elem?-set_self g.rows i (set row 0 0) inside in
    let zeroed = cleared-IsRow g.max_degree row (c.slotted i row at) in
    record {
      slotted = λ j r e. elim (ℕ_discrete i j) [
        | yes same ↦
            let is = some-inj (
              sym here
              ∙ subst (λ z. get_elem? (set g.rows i (set row 0 0)) z ≡ some r) (sym same) e) in
            ap length (sym is) ∙ zeroed.slots
        | no other ↦ c.slotted j r (sym (get_elem?-set_ne g.rows (set row 0 0) other) ∙ e)
      ];
      outside = λ j r e apart. elim (ℕ_discrete i j) [
        | yes same ↦
            let is = some-inj (
              sym here
              ∙ subst (λ z. get_elem? (set g.rows i (set row 0 0)) z ≡ some r) (sym same) e) in
            (0, subst (λ z. IsRow g.max_degree z 0) is zeroed)
        | no other ↦
            c.outside j r (sym (get_elem?-set_ne g.rows (set row 0 0) other) ∙ e) (other, apart)
      ];
    }

pub clear_lists-IsCleared :
    (slots : List ℕ) (g : Graph)
    → IsAscending slots
    → All (λ i. i < n_nodes g) slots
    → IsClearable slots g
    → IsCleared slots g (clear_lists slots g)
unfolding clear_lists n_nodes adjacency
clear_lists-IsCleared [] g a inside c = record {
  is_graph = λ i row at. c.outside i row at tt;
  same_nodes = refl;
  same_max_degree = refl;
  cleared = λ j i at. cc;
  others = λ i h. refl;
}
clear_lists-IsCleared (i ∷ slots) g a inside c =
    let (row, at) = get_elem?-lt g.rows i inside.0 in
    let row' = set row 0 0 in
    let g1 : Graph = record g { rows = set g.rows i row' } in
    let size = length-set g.rows i row' in
    let k =
      clear_lists-IsCleared slots g1 a.1
        (All-map (λ x. x < length g.rows) (λ x. x < length (set g.rows i row'))
          (λ x h. omega (arith, h, size)) slots inside.1)
        (clear_node-IsClearable i slots g row at c) in
    subst (λ z. IsCleared (i ∷ slots) g (clear_lists slots z)) (sym (clear_step i g row at))
      (record {
        is_graph = k.is_graph;
        same_nodes = k.same_nodes ∙ size;
        same_max_degree = k.same_max_degree;
        cleared = here row at k;
        others = λ j h. k.others j h.1 ∙ get_elem?-set_ne g.rows row' h.0;
      })
  where
    here :
        (row : List ℕ)
        → get_elem? g.rows i ≡ some row
        → {g' : Graph} → IsCleared slots (record g { rows = set g.rows i (set row 0 0) }) g'
        → (j x : ℕ) → get_elem? (i ∷ slots) j ≡ some x
        → get_node g' x ≡ some []
    here row at {g'} k zero x e =
        subst (λ z. get_node g' z ≡ some []) (some-inj e)
          (get_node-row g' i (set row 0 0) 0
            (k.others i (All-ne i slots a.0) ∙ get_elem?-set_self g.rows i (set row 0 0) inside.0)
            ((cleared-IsRow g.max_degree row (c.slotted i row at)).head))
    here row at {g'} k (suc j) x e = k.cleared j x e
