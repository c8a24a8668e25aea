-- ===== src/Consolidate/Applied.antt =====
-- The second run of a batch: it settles the batch, and touches no vertex that was settled before.
use native.Mathlib.Decide.{ℕ_discrete}
use scalable_vector_search.Graph.{Graph, n_nodes, get_node, replace_node}
use scalable_vector_search.Graph.Edges.{IsGraph, IsUpdated, replace_node-IsUpdated}
use scalable_vector_search.Consolidate.{BulkUpdate, get_update, apply_updates}
use scalable_vector_search.Consolidate.Candidates.{IsAlive}
use scalable_vector_search.Consolidate.Generated.{IsInside, IsSettled, IsPending}
use scalable_vector_search.Base.{
  ℕ, zero, suc, ◌+◌, ◌^◌, ◌≤◌, ◌<◌, ◌≡◌, inl, inr, refl, sym, ◌∙◌, subst, Bool, true, false, List,
  some, get_elem?, take, length, min, arith, All, All-take, All-map,
}

module _ (is_deleted : ℕ → Bool) (n : ℕ) where
  -- The graph g is o with the vertices before `upto` settled.
  pub record IsPartly (upto : ℕ) (o g : Graph) : Type 0 where
    pub is_graph : IsGraph g
    pub same_nodes : n_nodes g ≡ n_nodes o
    pub same_max_degree : g.max_degree ≡ o.max_degree
    pub settled : (v : ℕ) → v < upto → IsSettled is_deleted n g v
    pub later : (v : ℕ) → upto ≤ v → get_node g v ≡ get_node o v
    pub untouched : (v : ℕ) → IsSettled is_deleted n o v → get_node g v ≡ get_node o v
    pub inside : IsInside n g

  pub IsSettled-same :
      (g h : Graph) (v : ℕ)
      → get_node g v ≡ get_node h v
      → IsSettled is_deleted n h v
      → IsSettled is_deleted n g v
  IsSettled-same g h v e s = elim s [
    | inl dead ↦ inl dead
    | inr (list, at, clean) ↦ inr (list, e ∙ at, clean)
  ]

  pub IsPending-move :
      (limit : ℕ) (g h : Graph) (u : BulkUpdate) (j v : ℕ)
      → get_node g v ≡ get_node h v
      → IsPending is_deleted n limit g u j v
      → IsPending is_deleted n limit h u j v
  IsPending-move limit g h u j v e p = elim p [
    | inl (flag, unsettled, list, at, fits, alive) ↦
        inl (flag, (λ s. unsettled (IsSettled-same g h v e s)), list, at, fits, alive)
    | inr (flag, s) ↦ inr (flag, IsSettled-same h g v (sym e) s)
  ]

  IsPartly-skip :
      (k next : ℕ) (o g : Graph)
      → next ≡ suc k
      → IsPartly k o g
      → IsSettled is_deleted n o k
      → IsPartly next o g
  IsPartly-skip k next o g e p s = record {
    is_graph = p.is_graph;
    same_nodes = p.same_nodes;
    same_max_degree = p.same_max_degree;
    settled = λ v h. elim (ℕ_discrete k v) [
      | yes same ↦
          subst (IsSettled is_deleted n g) same (IsSettled-same g o k (p.later k (omega arith)) s)
      | no other ↦ p.settled v (omega (arith, other))
    ];
    later = λ v h. p.later v (omega arith);
    untouched = p.untouched;
    inside = p.inside;
  }

  IsPartly-write :
      (k next m : ℕ) (o g g' : Graph) (list : List ℕ)
      → next ≡ suc k
      → IsPartly k o g
      → ¬ (IsSettled is_deleted n o k)
      → All (IsAlive is_deleted n) list
      → IsUpdated g k (take m list) g'
      → IsPartly next o g'
  IsPartly-write k next m o g g' list e p unsettled alive w = record {
    is_graph = w.is_graph;
    same_nodes = w.same_nodes ∙ p.same_nodes;
    same_max_degree = w.same_max_degree ∙ p.same_max_degree;
    settled = λ v h. elim (ℕ_discrete k v) [
      | yes same ↦
          subst (IsSettled is_deleted n g') same
            (inr (take m list, w.here, All-take (IsAlive is_deleted n) m list alive))
      | no other ↦ IsSettled-same g' g v (w.others v other) (p.settled v (omega (arith, other)))
    ];
    later = λ v h. w.others v (λ same. omega (arith, same)) ∙ p.later v (omega arith);
    untouched = λ v s.
        w.others v (λ same. unsettled (subst (IsSettled is_deleted n o) (sym same) s))
        ∙ p.untouched v s;
    inside = λ v h. elim (ℕ_discrete k v) [
      | yes same ↦
          subst (λ z. (l : List ℕ) × (get_node g' z ≡ some l) × All (λ x. x < n) l) same
            (
              take m list,
              w.here,
              All-map (IsAlive is_deleted n) (λ x. x < n) (λ x a. a.0) (take m list)
                  (All-take (IsAlive is_deleted n) m list alive),
            )
      | no other ↦ let (l, at, q) = p.inside v h in (l, w.others v other ∙ at, q)
    ];
  }

  module _ (width limit : ℕ) (small : limit < 2 ^ width) where
    apply_skip :
        (u : BulkUpdate) (start i count : ℕ) (g : Graph)
        → get_elem? u.needs_update i ≡ some false
        → apply_updates width u start i (suc count) g ≡ apply_updates width u start (i + 1) count g
    unfolding apply_updates
    apply_skip u start i count g flag = rw (flag, apply_updates) refl

    apply_write :
        (u : BulkUpdate) (start i count : ℕ) (g g' : Graph) (list : List ℕ)
        → get_elem? u.needs_update i ≡ some true
        → get_update u i ≡ some list
        → replace_node width (start + i) list g ≡ some g'
        → apply_updates width u start i (suc count) g ≡ apply_updates width u start (i + 1) count g'
    unfolding apply_updates
    apply_write u start i count g g' list flag at runs = rw (flag, apply_updates, at, runs) refl

    pub apply_updates-IsPartly :
        (u : BulkUpdate) (start i count : ℕ) (o g : Graph)
        → n_nodes o ≡ n
        → IsPartly (start + i) o g
        → start + (i + count) ≤ n
        → ((j : ℕ) → i ≤ j → j < i + count → IsPending is_deleted n limit o u j (start + j))
        → (g' : Graph) × (apply_updates width u start i count g ≡ some g')
          × IsPartly (start + (i + count)) o g'
    unfolding apply_updates
    apply_updates-IsPartly u start i zero o g nodes p h pending =
        (g, refl, subst (λ k. IsPartly (start + k) o g) (omega arith) p)
    apply_updates-IsPartly u start i (suc count) o g nodes p h pending =
        elim (pending i (omega arith) (omega arith)) [
          | inr (flag, s) ↦
              let (g', runs, q) =
                apply_updates-IsPartly u start (i + 1) count o g nodes
                  (IsPartly-skip (start + i) (start + (i + 1)) o g (omega arith) p s) (omega arith)
                  (λ j k l. pending j (omega arith) (omega arith)) in
              (
                g',
                apply_skip u start i count g flag ∙ runs,
                subst (λ k. IsPartly (start + k) o g') (omega arith) q,
              )
          | inl (flag, unsettled, list, at, fits, alive) ↦
              let (g1, written, w) =
                replace_node-IsUpdated width g (start + i) list p.is_graph
                  (omega (arith, p.same_nodes)) (omega arith) in
              let (g', runs, q) =
                apply_updates-IsPartly u start (i + 1) count o g1 nodes
                  (IsPartly-write (start + i) (start + (i + 1)) (min g.max_degree (length list)) o g
                    g1 list (omega arith) p unsettled alive w)
                  (omega arith) (λ j k l. pending j (omega arith) (omega arith)) in
              (
                g',
                apply_write u start i count g g1 list flag at written ∙ runs,
                subst (λ k. IsPartly (start + k) o g') (omega arith) q,
              )
        ]
