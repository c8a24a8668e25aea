-- ===== src/Compaction/Lists.antt =====
-- `compact_data` on the rows of a dataset.
use scalable_vector_search.Candidates.Slots.{get_elem?-lt, get_elem?-some_lt}
use scalable_vector_search.Compaction.{IsTable, compacted, rows, compact_data}
use scalable_vector_search.Compaction.Batches.{
  IsAscending, IsMovable, IsMoved, compact_batches-IsCompacted, get_elem?-ascending,
}
use scalable_vector_search.Base.{
  ℕ, ◌+◌, ◌≤◌, ◌<◌, ◌≡◌, refl, sym, ap, ◌∙◌, true, List, [], ◌∷◌, some, some-inj, get_elem?, set,
  length, length-set, ltb, ◌==◌, arith, All, All-get_elem?, get_elem?-set_self, get_elem?-set_ne,
}

pub length-ascending : (xs : List ℕ) (n : ℕ) → IsAscending xs → All (λ o. o < n) xs → length xs ≤ n
length-ascending [] n h a = omega arith
length-ascending (x ∷ xs) n h a =
    let (last, at) = get_elem?-lt (x ∷ xs) (length xs) (omega arith) in
    omega (
      arith,
      get_elem?-ascending (x ∷ xs) (length xs) last h at,
      All-get_elem? (λ o. o < n) (x ∷ xs) (length xs) last a at,
    )

module _ {V : Type 0} where
  pub rows-IsTable : IsTable (rows V) (λ s. Unit) (λ v. Unit)
  rows-IsTable = record {
    get-inside = λ s i g h. let (v, at) = get_elem?-lt s i h in (v, at, tt);
    put-inside = λ s i v g h f.
        let inside : ltb i (length s) ≡ true = ground arith in
        (
          set s i v,
          rw inside,
          tt,
          length-set s i v,
          get_elem?-set_self s i v h,
          λ j ne. get_elem?-set_ne s v ne,
        );
  }

  module _ (new_to_old : List ℕ) (vectors : List V) where
    IsMovedRow : ℕ → V → Type 0
    IsMovedRow k w =
        IsMoved (rows V) (rows V) some (λ v. v) rows-IsTable rows-IsTable new_to_old vectors k w

    movable :
        All (λ o. o < length vectors) new_to_old
        → IsMovable (rows V) (rows V) some (λ v. v) rows-IsTable rows-IsTable new_to_old vectors
    movable inside k h =
        let (o, mapped) = get_elem?-lt new_to_old k h in
        let (v, from) =
          get_elem?-lt vectors o
            (All-get_elem? (λ o. o < length vectors) new_to_old k o inside mapped) in
        (
          v,
          record {
            old_id = o;
            entry = v;
            mapped = mapped;
            from = from;
            moved = refl;
            fits = tt;
            fits_back = tt;
          },
        )

    row_moved :
        (k o : ℕ) (w : V)
        → IsMovedRow k w
        → get_elem? new_to_old k ≡ some o
        → some w ≡ get_elem? vectors o
    unfolding IsMovedRow
    row_moved k o w m e =
        sym (m.moved) ∙ sym (m.from) ∙ ap (λ i. get_elem? vectors i) (some-inj (sym m.mapped ∙ e))

  -- With equal dimensions, a buffer that is not empty, and fuel for every row: if the map is strictly
  -- ascending and gives rows only, the compaction ends with the row that the map names in each of the
  -- first places, and the others as they were.
  pub compact_data-IsCompacted :
      (fuel dims : ℕ) (new_to_old : List ℕ) (vectors buffer : List V)
      → IsAscending new_to_old
      → All (λ o. o < length vectors) new_to_old
      → 0 < length buffer
      → length new_to_old ≤ fuel
      → (result : List V) × (compact_data fuel dims dims new_to_old vectors buffer
          ≡ compacted result)
        × (length result ≡ length vectors)
        × ((k o : ℕ) → get_elem? new_to_old k ≡ some o → get_elem? result k ≡ get_elem? vectors o)
        × ((k : ℕ) → length new_to_old ≤ k → get_elem? result k ≡ get_elem? vectors k)
  unfolding compact_data IsMovedRow
  compact_data-IsCompacted fuel dims new_to_old vectors buffer ascending inside p enough =
      let same : (dims == dims) ≡ true = ground arith in
      let (result, runs, i) =
        compact_batches-IsCompacted (rows V) (rows V) some (λ v. v) rows-IsTable rows-IsTable
          new_to_old vectors ascending (movable new_to_old vectors inside) (λ i n. i + n) fuel
          buffer (λ k h. refl) tt tt p
          (length-ascending new_to_old (length vectors) ascending inside) enough in
      (
        result,
        rw same runs,
        i.same_size,
        λ k o e.
            let (w, m, at) = i.before k (get_elem?-some_lt new_to_old k o e) in
            at ∙ row_moved new_to_old vectors k o w m e,
        λ k h. i.after k h,
      )
