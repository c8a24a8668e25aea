-- ===== src/Graph/Rows.antt =====
-- One row of the graph's table: what the operations make of its adjacency list.
use scalable_vector_search.Candidates.{copy_backward}
use scalable_vector_search.Graph.{adjacency, find, copy_to, replace_row, add_to_row}
use scalable_vector_search.Base.{
  ℕ, zero, suc, ◌+◌, ◌-◌, ◌%◌, ◌^◌, ◌≤◌, ◌<◌, ◌≡◌, refl, sym, ap, ◌∙◌, Bool, true, false, not, ◌||◌,
  List, [], ◌∷◌, ◌++◌, some, get_elem?, set, take, length, ◌==◌, min, arith, inl, inr, Bool-cases,
  length-set, length-take,
}
use native.Mathlib.Nat.{mod-eq_of_lt}

-- Whether a list has an id.
unfoldable pub has_id : ℕ → List ℕ → Bool
has_id id [] = false
has_id id (x ∷ xs) = x == id || has_id id xs

find-le : (id : ℕ) (xs : List ℕ) → find id xs ≤ length xs
unfolding find
find-le id [] = omega arith
find-le id (x ∷ xs) = ground (arith, find-le id xs)

pub find-has_id : (id : ℕ) (xs : List ℕ) → not (find id xs == length xs) ≡ has_id id xs
unfolding find has_id
find-has_id id [] = refl
find-has_id id (x ∷ xs) = ground (arith, find-has_id id xs, find-le id xs)

-- A row of the table: room for `max_degree` neighbors behind their number.
pub record IsRow (max_degree : ℕ) (row : List ℕ) (degree : ℕ) : Type 0 where
  pub slots : length row ≡ max_degree + 1
  pub head : get_elem? row 0 ≡ some degree
  pub fits : degree ≤ max_degree

pub length-copy_to : (row : List ℕ) (i : ℕ) (xs : List ℕ) → length (copy_to row i xs) ≡ length row
unfolding copy_to
length-copy_to row i [] = refl
length-copy_to row i (x ∷ xs) = length-copy_to (set row i x) (i + 1) xs ∙ length-set row i x

-- `copy_to` behind the first slot leaves it.
copy_to-tail :
    (d : ℕ) (slots : List ℕ) (i : ℕ) (xs : List ℕ)
    → copy_to (d ∷ slots) (suc i) xs ≡ d ∷ copy_to slots i xs
unfolding copy_to
copy_to-tail d slots i [] = refl
copy_to-tail d slots i (x ∷ xs) =
    let next : suc i + 1 ≡ suc (i + 1) = omega arith in
    rw next (copy_to-tail d (set slots i x) (i + 1) xs)

pub take-copy_to :
    (slots xs : List ℕ) → length xs ≤ length slots → take (length xs) (copy_to slots 0 xs) ≡ xs
unfolding copy_to
take-copy_to slots [] h = refl
take-copy_to [] (x ∷ xs) h = absurd (omega arith)
take-copy_to (s ∷ slots) (x ∷ xs) h =
    ap (take (suc (length xs))) (copy_to-tail x slots 0 xs)
    ∙ ap (◌∷◌ x) (take-copy_to slots xs (omega arith))

take-set_end :
    (k : ℕ) (xs : List ℕ) (x : ℕ) → k < length xs → take (suc k) (set xs k x) ≡ take k xs ++ x ∷ []
take-set_end k [] x h = elim h [ ]
take-set_end zero (y ∷ xs) x h = refl
take-set_end (suc k) (y ∷ xs) x h = ap (◌∷◌ y) (take-set_end k xs x (omega arith))

module _ (width max_degree : ℕ) where
  -- `replace_row` on a row that is split into its first slot and the others.
  replace_row-cons :
      (d : ℕ) (slots new_neighbors : List ℕ)
      → length slots ≡ max_degree
      → length new_neighbors < 2 ^ width
      → let degree' = min max_degree (length new_neighbors) in
        let row' = replace_row width max_degree (d ∷ slots) new_neighbors in
        IsRow max_degree row' degree' × (adjacency degree' row' ≡ take degree' new_neighbors)
  unfolding replace_row adjacency
  replace_row-cons d slots ns r h =
      let degree' = min max_degree (length ns) in
      let wide : length ns % 2 ^ width ≡ length ns = mod-eq_of_lt h in
      let count : length (take degree' ns) ≡ degree' = omega (arith, length-take degree' ns) in
      let filled =
        ap (λ k. take k (copy_to slots 0 (take degree' ns))) (sym count)
        ∙ take-copy_to slots (take degree' ns) (omega (arith, count)) in
      rw (wide, copy_to-tail d slots 0 (take degree' ns))
        (
          record {
            slots = omega (arith, length-copy_to slots 0 (take degree' ns));
            head = refl;
            fits = omega arith;
          },
          filled,
        )

  pub replace_row-IsRow :
      (row : List ℕ) (degree : ℕ) (new_neighbors : List ℕ)
      → IsRow max_degree row degree
      → length new_neighbors < 2 ^ width
      → let degree' = min max_degree (length new_neighbors) in
        let row' = replace_row width max_degree row new_neighbors in
        IsRow max_degree row' degree' × (adjacency degree' row' ≡ take degree' new_neighbors)
  replace_row-IsRow [] degree ns r h = absurd (omega (arith, r.slots))
  replace_row-IsRow (d ∷ slots) degree ns r h =
      replace_row-cons d slots ns (omega (arith, r.slots)) h

  pub length-adjacency :
      (row : List ℕ) (degree : ℕ)
      → IsRow max_degree row degree
      → length (adjacency degree row) ≡ degree
  unfolding adjacency
  length-adjacency [] degree r = absurd (omega (arith, r.slots))
  length-adjacency (d ∷ slots) degree r = omega (arith, length-take degree slots, r.slots, r.fits)

  -- A full row and a row with the id stay; else the id is appended.
  pub add_to_row-kept :
      (row : List ℕ) (degree dst : ℕ)
      → IsRow max_degree row degree
      → max_degree < 2 ^ width
      → (degree == max_degree || has_id dst (adjacency degree row)) ≡ true
      → add_to_row width max_degree row degree dst ≡ (row, degree)
  unfolding add_to_row
  add_to_row-kept row degree dst r w h = elim (Bool-cases (degree == max_degree)) [
    | inl full ↦ rw full
    | inr room ↦
        let small : (degree + 1) % 2 ^ width - 1 ≡ degree = omega (arith, mod_small room) in
        let there : not (find dst (adjacency degree row) == degree) ≡ true =
          ap (λ k. not (find dst (adjacency degree row) == k)) (sym (length-adjacency row degree r))
          ∙ find-has_id dst (adjacency degree row)
          ∙ ground arith in
        rw (room, small, there)
  ]
    where
      mod_small : (degree == max_degree) ≡ false → (degree + 1) % 2 ^ width ≡ degree + 1
      mod_small room = mod-eq_of_lt (ground (arith, r.fits))

  add_to_row-set :
      (row : List ℕ) (degree dst : ℕ)
      → IsRow max_degree row degree
      → max_degree < 2 ^ width
      → (degree == max_degree || has_id dst (adjacency degree row)) ≡ false
      → add_to_row width max_degree row degree dst
        ≡ (set (set row (degree + 1) dst) 0 (degree + 1), degree + 1)
  unfolding add_to_row copy_backward
  add_to_row-set row degree dst r w h =
      let room : (degree == max_degree) ≡ false = ground arith in
      let small : (degree + 1) % 2 ^ width ≡ degree + 1 = mod-eq_of_lt (ground (arith, r.fits)) in
      let less : degree + 1 - 1 ≡ degree = omega arith in
      let missing : not (find dst (adjacency degree row) == degree) ≡ false =
        ap (λ k. not (find dst (adjacency degree row) == k)) (sym (length-adjacency row degree r))
        ∙ find-has_id dst (adjacency degree row)
        ∙ ground arith in
      let at_end : find dst (adjacency degree row) ≡ degree = ground arith in
      let none_left : degree - degree ≡ 0 = omega arith in
      rw (room, small, less, missing, at_end, none_left)

  add_to_row-cons :
      (d : ℕ) (slots : List ℕ) (degree dst : ℕ)
      → length slots ≡ max_degree
      → degree < max_degree
      → let row' = set (set (d ∷ slots) (degree + 1) dst) 0 (degree + 1) in
        IsRow max_degree row' (degree + 1)
        × (adjacency (degree + 1) row' ≡ adjacency degree (d ∷ slots) ++ dst ∷ [])
  unfolding adjacency
  add_to_row-cons d slots degree dst s h =
      let next : degree + 1 ≡ suc degree = omega arith in
      rw next (
        record {
          slots = omega (arith, length-set slots degree dst);
          head = refl;
          fits = omega arith;
        },
        take-set_end degree slots dst (omega arith),
      )

  pub add_to_row-added :
      (row : List ℕ) (degree dst : ℕ)
      → IsRow max_degree row degree
      → max_degree < 2 ^ width
      → (degree == max_degree || has_id dst (adjacency degree row)) ≡ false
      → let result = add_to_row width max_degree row degree dst in
        (result.1 ≡ degree + 1)
        × IsRow max_degree result.0 (degree + 1)
        × (adjacency (degree + 1) result.0 ≡ adjacency degree row ++ dst ∷ [])
  add_to_row-added [] degree dst r w h = absurd (omega (arith, r.slots))
  add_to_row-added (d ∷ slots) degree dst r w h =
      let below : degree < max_degree = ground (arith, r.fits) in
      rw (add_to_row-set (d ∷ slots) degree dst r w h) (
        let (shaped, items) = add_to_row-cons d slots degree dst (omega (arith, r.slots)) below in
        (refl, shaped, items))
