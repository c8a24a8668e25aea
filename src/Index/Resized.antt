-- ===== src/Index/Resized.antt =====
-- Cutting vectors and graphs to a smaller size.
use scalable_vector_search.Candidates.Slots.{get_elem?-take, get_elem?-some_lt}
use scalable_vector_search.Graph.{Graph, n_nodes, get_node}
use scalable_vector_search.Graph.Edges.{IsGraph}
use scalable_vector_search.Index.{resized}
use scalable_vector_search.Index.Compacting.{unsafe_resize}
use scalable_vector_search.Base.{
  ℕ, ◌-◌, ◌≤◌, ◌<◌, ◌≡◌, refl, sym, ap, ◌∙◌, true, List, [], ◌∷◌, ◌++◌, none, get_elem?, take,
  replicate, length, length-take, ltb, arith, if◌then◌else◌,
}

append_nil : {A : Type 0} (xs : List A) → xs ++ [] ≡ xs
append_nil [] = refl
append_nil (x ∷ xs) = ap (◌∷◌ x) (append_nil xs)

resized-take :
    {A : Type 0} (n : ℕ) (x : A) (xs : List A) → n ≤ length xs → resized n x xs ≡ take n xs
unfolding resized
resized-take n x xs h =
    let no_more : n - length xs ≡ 0 = omega arith in
    ap (λ k. take n xs ++ replicate k x) no_more ∙ append_nil (take n xs)

pub length-resized :
    {A : Type 0} (n : ℕ) (x : A) (xs : List A) → n ≤ length xs → length (resized n x xs) ≡ n
length-resized n x xs h = ap length (resized-take n x xs h) ∙ omega (arith, length-take n xs)

pub get_elem?-resized :
    {A : Type 0} (n : ℕ) (x : A) (xs : List A) (i : ℕ)
    → n ≤ length xs
    → i < n
    → get_elem? (resized n x xs) i ≡ get_elem? xs i
get_elem?-resized n x xs i h inside =
    let test : ltb i n ≡ true = ground arith in
    ap (λ ys. get_elem? ys i) (resized-take n x xs h)
    ∙ get_elem?-take n xs i
    ∙ ap (λ b. if b then get_elem? xs i else none) test

pub get_node_same :
    (g h : Graph) (i : ℕ) → get_elem? g.rows i ≡ get_elem? h.rows i → get_node g i ≡ get_node h i
unfolding get_node
get_node_same g h i e = rw (e, get_node) refl

pub get_node-unsafe_resize :
    (n : ℕ) (blank : List ℕ) (g : Graph) (i : ℕ)
    → n ≤ n_nodes g
    → i < n
    → get_node (unsafe_resize n blank g) i ≡ get_node g i
unfolding unsafe_resize n_nodes
get_node-unsafe_resize n blank g i h inside =
    get_node_same (unsafe_resize n blank g) g i (get_elem?-resized n blank g.rows i h inside)

pub n_nodes-unsafe_resize :
    (n : ℕ) (blank : List ℕ) (g : Graph) → n ≤ n_nodes g → n_nodes (unsafe_resize n blank g) ≡ n
unfolding unsafe_resize n_nodes
n_nodes-unsafe_resize n blank g h = length-resized n blank g.rows h

pub unsafe_resize-IsGraph :
    (n : ℕ) (blank : List ℕ) (g : Graph)
    → n ≤ n_nodes g
    → IsGraph g
    → IsGraph (unsafe_resize n blank g)
unfolding unsafe_resize n_nodes
unsafe_resize-IsGraph n blank g h w i row at =
    let inside : i < n = omega (
      arith,
      get_elem?-some_lt (resized n blank g.rows) i row at,
      length-resized n blank g.rows h,
    ) in
    w i row (sym (get_elem?-resized n blank g.rows i h inside) ∙ at)
