-- ===== src/Index/Room.antt =====
-- The index with room for new points.
use native.Mathlib.Nat.{mod-eq_of_lt}
use scalable_vector_search.Candidates.Slots.{get_elem?-lt, get_elem?-some_lt, take_all}
use scalable_vector_search.Graph.{n_nodes}
use scalable_vector_search.Compaction.Batches.{IsAscending}
use scalable_vector_search.Translation.{HashMap}
use scalable_vector_search.Index.{empty, valid, Index, resized}
use scalable_vector_search.Index.Compacting.{unsafe_resize}
use scalable_vector_search.Index.Adding.{numbers_from, find_slots, grow_to, grow, make_room}
use scalable_vector_search.Index.Slots.{IsIndex}
use scalable_vector_search.Index.Found.{
  IsFound, IsCounted, find_slots-IsFound, length-numbers_from, numbers_from-between,
  numbers_from-IsAscending, IsAscending-append,
}
use scalable_vector_search.Base.{
  ℕ, zero, suc, ◌+◌, ◌-◌, ◌%◌, ◌^◌, ◌≤◌, ◌<◌, ◌≡◌, ◌≢◌, refl, sym, ap, ◌∙◌, subst, Bool, true,
  false, List, [], ◌∷◌, ◌++◌, some, some-inj, get_elem?, replicate, length, length-append,
  length-replicate, max, arith, All, All-map, All-append,
}

get_elem?-append :
    {A : Type 0} (xs ys : List A) (i : ℕ) → i < length xs → get_elem? (xs ++ ys) i ≡ get_elem? xs i
get_elem?-append [] ys i h = elim h [ ]
get_elem?-append (x ∷ xs) ys zero h = refl
get_elem?-append (x ∷ xs) ys (suc i) h = get_elem?-append xs ys i (omega arith)

get_elem?-behind :
    {A : Type 0} (xs ys : List A) (j : ℕ) → get_elem? (xs ++ ys) (length xs + j) ≡ get_elem? ys j
get_elem?-behind [] ys j = let shift : 0 + j ≡ j = omega arith in ap (get_elem? ys) shift
get_elem?-behind (x ∷ xs) ys j =
    let shift : suc (length xs) + j ≡ suc (length xs + j) = omega arith in
    ap (get_elem? (x ∷ xs ++ ys)) shift ∙ get_elem?-behind xs ys j

get_elem?-replicate :
    {A : Type 0} (n : ℕ) (x y : A) (i : ℕ) → get_elem? (replicate n x) i ≡ some y → x ≡ y
get_elem?-replicate zero x y i e = cc
get_elem?-replicate (suc n) x y zero e = some-inj e
get_elem?-replicate (suc n) x y (suc i) e = get_elem?-replicate n x y i e

module _ {A : Type 0} (n : ℕ) (x : A) (xs : List A) (grows : length xs ≤ n) where
  resized-append : resized n x xs ≡ xs ++ replicate (n - length xs) x
  unfolding resized
  resized-append = ap (λ ys. ys ++ replicate (n - length xs) x) (take_all n xs grows)

  pub length-grown : length (resized n x xs) ≡ n
  length-grown =
      ap length resized-append
      ∙ omega (
        arith,
        length-append xs (replicate (n - length xs) x),
        length-replicate (n - length xs) x,
      )

  pub get_elem?-grown : (i : ℕ) → i < length xs → get_elem? (resized n x xs) i ≡ get_elem? xs i
  get_elem?-grown i h =
      ap (λ ys. get_elem? ys i) resized-append
      ∙ get_elem?-append xs (replicate (n - length xs) x) i h

  pub get_elem?-new :
      (i : ℕ) (y : A) → length xs ≤ i → get_elem? (resized n x xs) i ≡ some y → x ≡ y
  get_elem?-new i y h e =
      let split : length xs + (i - length xs) ≡ i = omega arith in
      get_elem?-replicate (n - length xs) x y (i - length xs) (
        sym (get_elem?-behind xs (replicate (n - length xs) x) (i - length xs))
        ∙ ap (get_elem? (xs ++ replicate (n - length xs) x)) split
        ∙ ap (λ ys. get_elem? ys i) (sym resized-append)
        ∙ e)

module _ (m : HashMap) {V : Type 0} where
  -- The index ix' has room for `num` points in `slots`.
  pub record IsRoom (blank_row : List ℕ) (ix : Index m V) (num : ℕ) (slots : List ℕ)
      (ix' : Index m V) : Type 0 where
    pub count : length slots ≡ num
    pub ascending : IsAscending slots
    pub inside : All (λ i. i < length ix'.vectors) slots
    pub unused : All (λ i. ¬ (get_elem? ix.status i ≡ some valid)) slots
    pub bigger : length ix.vectors ≤ length ix'.vectors
    pub bounded : length ix'.vectors ≤ length ix.vectors + num
    pub same_slots : length ix'.status ≡ length ix'.vectors
    pub same_nodes : n_nodes ix'.graph ≡ length ix'.vectors
    pub same_max_degree : ix'.graph.max_degree ≡ ix.graph.max_degree
    pub same_translator : ix'.translator ≡ ix.translator
    pub same_entry_points : ix'.entry_points ≡ ix.entry_points
    pub kept :
        (i : ℕ)
        → i < length ix.vectors
        → (get_elem? ix'.vectors i ≡ get_elem? ix.vectors i)
          × (get_elem? ix'.status i ≡ get_elem? ix.status i)
          × (get_elem? ix'.graph.rows i ≡ get_elem? ix.graph.rows i)
    pub added :
        (i : ℕ)
        → length ix.vectors ≤ i
        → i < length ix'.vectors
        → (get_elem? ix'.status i ≡ some empty)
          × ((j : ℕ) × (get_elem? slots j ≡ some i))
          × ((row : List ℕ) → get_elem? ix'.graph.rows i ≡ some row → blank_row ≡ row)

  empties-unused :
      (ix : Index m V) (slots : List ℕ)
      → IsFound 0 ix.status slots
      → All (λ i. ¬ (get_elem? ix.status i ≡ some valid)) slots
        × All (λ i. i < length ix.status) slots
  empties-unused ix slots f = (
    All-map (λ o. (j : ℕ) × (o ≡ 0 + j) × (get_elem? ix.status j ≡ some empty))
        (λ i. ¬ (get_elem? ix.status i ≡ some valid))
        (λ o h e.
          let (j, same, at) = h in
          apart (
            some-inj
              (sym at ∙ subst (λ z. get_elem? ix.status z ≡ some valid) (omega (arith, same)) e)))
        slots f.empties,
    All-map (λ o. (j : ℕ) × (o ≡ 0 + j) × (get_elem? ix.status j ≡ some empty))
        (λ i. i < length ix.status)
        (λ o h.
          let (j, same, at) = h in omega (arith, same, get_elem?-some_lt ix.status j empty at))
        slots f.empties,
  )
    where
      apart : empty ≢ valid
      apart e = cc

  module _ (blank_datum : V) (blank_row : List ℕ) where
    grow_enough :
        (num : ℕ) (slots : List ℕ) (ix : Index m V)
        → grow m blank_datum blank_row num (slots, true) ix ≡ (slots, ix)
    unfolding grow
    grow_enough num slots ix = refl

    grow_more :
        (num k : ℕ) (slots : List ℕ) (ix : Index m V)
        → length slots + k ≡ num
        → length ix.vectors + num < 2 ^ 64
        → grow m blank_datum blank_row num (slots, false) ix
          ≡ grow_to m blank_datum blank_row (length ix.vectors + k) slots ix
    unfolding grow
    grow_more num k slots ix h small =
        let needed : (num + 2 ^ 64 - length slots) % 2 ^ 64 ≡ k = omega (arith, h, small) in
        let size : (length ix.vectors + k) % 2 ^ 64 ≡ length ix.vectors + k =
          mod-eq_of_lt (omega (arith, h, small)) in
        ap (λ z. grow_to m blank_datum blank_row ((length ix.vectors + z) % 2 ^ 64) slots ix) needed
        ∙ ap (λ z. grow_to m blank_datum blank_row z slots ix) size

    numbers_from-place :
        (start count j : ℕ) → j < count → get_elem? (numbers_from start count) j ≡ some (start + j)
    unfolding numbers_from
    numbers_from-place start zero j h = absurd (omega arith)
    numbers_from-place start (suc count) zero h = ap some (omega arith)
    numbers_from-place start (suc count) (suc j) h =
        let same : start + 1 + j ≡ start + suc j = omega arith in
        numbers_from-place (start + 1) count j (omega arith) ∙ ap some same

    grow_to-IsRoom :
        (k : ℕ) (slots : List ℕ) (ix : Index m V)
        → IsIndex m ix
        → IsFound 0 ix.status slots
        → let r = grow_to m blank_datum blank_row (length ix.vectors + k) slots ix in
          IsRoom blank_row ix (length slots + k) r.0 r.1
    unfolding grow_to unsafe_resize n_nodes
    grow_to-IsRoom k slots ix w f =
        let n = length ix.vectors in
        let size : max n (n + k) - n ≡ k = omega arith in
        let (unused, inside) = empties-unused ix slots f in
        let same : length ix.status ≡ length ix.vectors = w.slots ∙ sym w.rows in
        let nodes : length ix.graph.rows ≡ length ix.vectors = sym w.rows in
        let all_rows = length-grown (n + k) blank_datum ix.vectors (omega arith) in
        let all_slots = length-grown (n + k) empty ix.status (omega (arith, same)) in
        let fresh = numbers_from n (max n (n + k) - n) in
        let between = numbers_from-between n (max n (n + k) - n) in
        let below : All (λ i. i < n) slots =
          All-map (λ i. i < length ix.status) (λ i. i < n) (λ i h. omega (arith, same)) slots
            inside in
        record {
          count =
              omega
                (arith, length-append slots fresh, length-numbers_from n (max n (n + k) - n), size);
          ascending =
              IsAscending-append n slots fresh f.ascending
                (numbers_from-IsAscending n (max n (n + k) - n)) below
                (All-map (λ o. (n ≤ o) × (o < n + (max n (n + k) - n))) (λ o. n ≤ o) (λ o h. h.0)
                  fresh between);
          inside =
              All-append (λ i. i < length (resized (n + k) blank_datum ix.vectors)) slots fresh
                (All-map (λ i. i < n) (λ i. i < length (resized (n + k) blank_datum ix.vectors))
                  (λ i h. omega (arith, h, all_rows)) slots below)
                (All-map (λ o. (n ≤ o) × (o < n + (max n (n + k) - n)))
                  (λ i. i < length (resized (n + k) blank_datum ix.vectors))
                  (λ o h. omega (arith, h.1, all_rows, size)) fresh between);
          unused =
              All-append (λ i. ¬ (get_elem? ix.status i ≡ some valid)) slots fresh unused
                (All-map (λ o. (n ≤ o) × (o < n + (max n (n + k) - n)))
                  (λ i. ¬ (get_elem? ix.status i ≡ some valid))
                  (λ o h e. omega (arith, get_elem?-some_lt ix.status o valid e, same, h.0)) fresh
                  between);
          bigger = omega (arith, all_rows);
          bounded = omega (arith, all_rows);
          same_slots = all_slots ∙ sym all_rows;
          same_nodes =
              length-grown (n + k) blank_row ix.graph.rows (omega (arith, nodes)) ∙ sym all_rows;
          same_max_degree = refl;
          same_translator = refl;
          same_entry_points = refl;
          kept = λ i h. (
            get_elem?-grown (n + k) blank_datum ix.vectors (omega arith) i h,
            get_elem?-grown (n + k) empty ix.status (omega (arith, same)) i
                (omega (arith, h, same)),
            get_elem?-grown (n + k) blank_row ix.graph.rows (omega (arith, nodes)) i
                (omega (arith, h, nodes)),
          );
          added = λ i low high.
              let (y, at) =
                get_elem?-lt (resized (n + k) empty ix.status) i
                  (omega (arith, high, all_rows, all_slots)) in
              let is_empty_there =
                get_elem?-new (n + k) empty ix.status (omega (arith, same)) i y
                  (omega (arith, same, low)) at in
              let offset : n + (i - n) ≡ i = omega (arith, low) in
              (
                at ∙ ap some (sym is_empty_there),
                (
                  length slots + (i - n),
                  get_elem?-behind slots fresh (i - n)
                      ∙ numbers_from-place n (max n (n + k) - n) (i - n)
                          (omega (arith, high, all_rows, size, low))
                      ∙ ap some offset,
                ),
                λ row e.
                    get_elem?-new (n + k) blank_row ix.graph.rows (omega (arith, nodes)) i row
                      (omega (arith, nodes, low)) e,
              );
        }

    -- For an index that is well formed, with at least one point and room for all in 64 bits: there are
    -- as many slots as points, ascending, inside the vectors and of no valid slot; all that was there
    -- is kept, and what was added are empty slots, each one of those given.
    pub make_room-IsRoom :
        (ix : Index m V) (num : ℕ)
        → IsIndex m ix
        → 0 < num
        → length ix.vectors + num < 2 ^ 64
        → (slots : List ℕ) × (ix' : Index m V) × (make_room m blank_datum blank_row num ix
            ≡ (slots, ix'))
          × IsRoom blank_row ix num slots ix'
    unfolding make_room IsCounted
    make_room-IsRoom ix num w some_point small =
        let (fresh, enough, runs, f, count) = find_slots-IsFound num 0 ix.status [] some_point in
        finish fresh enough runs f count
      where
        finish :
            (fresh : List ℕ) (enough : Bool)
            → find_slots num 0 ix.status [] ≡ (fresh, enough)
            → IsFound 0 ix.status fresh
            → IsCounted num enough (0 + length fresh)
            → (slots : List ℕ) × (ix' : Index m V) × (make_room m blank_datum blank_row num ix
                ≡ (slots, ix'))
              × IsRoom blank_row ix num slots ix'
        finish fresh true runs f count =
            let (unused, inside) = empties-unused ix fresh f in
            (
              fresh,
              ix,
              ap (λ r. grow m blank_datum blank_row num r ix) runs ∙ grow_enough num fresh ix,
              record {
                count = omega (arith, count);
                ascending = f.ascending;
                inside =
                    All-map (λ i. i < length ix.status) (λ i. i < length ix.vectors)
                      (λ i h. omega (arith, h, w.slots, w.rows)) fresh inside;
                unused = unused;
                bigger = omega arith;
                bounded = omega arith;
                same_slots = w.slots ∙ sym w.rows;
                same_nodes = sym w.rows;
                same_max_degree = refl;
                same_translator = refl;
                same_entry_points = refl;
                kept = λ i h. (refl, refl, refl);
                added = λ i low high. absurd (omega (arith, low, high));
              },
            )
        finish fresh false runs f count =
            let k = num - length fresh in
            let total : length fresh + k ≡ num = omega (arith, count) in
            let r = grow_to m blank_datum blank_row (length ix.vectors + k) fresh ix in
            (
              r.0,
              r.1,
              ap (λ z. grow m blank_datum blank_row num z ix) runs
                  ∙ grow_more num k fresh ix total small,
              subst (λ z. IsRoom blank_row ix z r.0 r.1) total (grow_to-IsRoom k fresh ix w f),
            )
