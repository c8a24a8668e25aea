-- ===== src/Consolidate/Updates.antt =====
-- The buffer of pending updates, `BulkUpdate`: what is put in at an index is what is taken out.
use native.Mathlib.Nat.{mod-eq_of_lt}
use native.Mathlib.Decide.{ℕ_discrete}
use scalable_vector_search.Candidates.Slots.{get_elem?-lt}
use scalable_vector_search.Graph.{copy_to}
use scalable_vector_search.Graph.Rows.{take-copy_to, length-copy_to}
use scalable_vector_search.Consolidate.{BulkUpdate, make_update, prepare, insert_update, get_update}
use scalable_vector_search.Base.{
  ℕ, zero, suc, ◌%◌, ◌^◌, ◌≤◌, ◌<◌, ◌≡◌, ◌≢◌, refl, sym, ap, ◌∙◌, subst, Bool, true, false, List,
  [], ◌∷◌, some, get_elem?, set, take, replicate, length, map, leb, arith, length-set,
  length-replicate, length-map, get_elem?-set_self, get_elem?-set_ne, some-inj, Option-cases, inl,
  inr,
}

-- Room for `places` updates of at most `limit` neighbors.
pub record IsBulk (places limit : ℕ) (u : BulkUpdate) : Type 0 where
  pub rows : length u.neighbors ≡ places
  pub sizes : length u.lengths ≡ places
  pub flags : length u.needs_update ≡ places
  pub slots : (i : ℕ) (row : List ℕ) → get_elem? u.neighbors i ≡ some row → length row ≡ limit

-- The update at i is `xs`, and the others are as they were.
pub record IsInserted (places limit : ℕ) (u : BulkUpdate) (i : ℕ) (xs : List ℕ) (u' : BulkUpdate)
    : Type 0 where
  pub bulk : IsBulk places limit u'
  pub flag : get_elem? u'.needs_update i ≡ some true
  pub held : get_update u' i ≡ some xs
  pub other_flags : (j : ℕ) → i ≢ j → get_elem? u'.needs_update j ≡ get_elem? u.needs_update j
  pub other_held : (j : ℕ) → i ≢ j → get_update u' j ≡ get_update u j

get_update_at :
    (u : BulkUpdate) (i size : ℕ) (row : List ℕ)
    → get_elem? u.neighbors i ≡ some row
    → get_elem? u.lengths i ≡ some size
    → get_update u i ≡ some (take size row)
unfolding get_update
get_update_at u i size row at count = rw (at, get_update, count)

get_update_same :
    (u u' : BulkUpdate) (j : ℕ)
    → get_elem? u'.neighbors j ≡ get_elem? u.neighbors j
    → get_elem? u'.lengths j ≡ get_elem? u.lengths j
    → get_update u' j ≡ get_update u j
unfolding get_update
get_update_same u u' j rows sizes = elim (Option-cases (get_elem? u.neighbors j)) [
  | inl e ↦ rw (rows ∙ e, get_update, e) refl
  | inr (row, e) ↦ rw (rows ∙ e, get_update, e, sizes) refl
]

insert_update_runs :
    (width i : ℕ) (xs : List ℕ) (u : BulkUpdate) (row : List ℕ)
    → get_elem? u.neighbors i ≡ some row
    → length xs ≤ length row
    → insert_update width i xs u
      ≡ some (record {
        neighbors = set u.neighbors i (copy_to row 0 xs);
        lengths = set u.lengths i (length xs % 2 ^ width);
        needs_update = set u.needs_update i true;
      })
unfolding insert_update
insert_update_runs width i xs u row at room =
    let fits : leb (length xs) (length row) ≡ true = ground arith in rw (at, insert_update, fits)

set_slots :
    (limit : ℕ) (rows : List (List ℕ)) (i : ℕ) (row : List ℕ)
    → length row ≡ limit
    → i < length rows
    → ((j : ℕ) (r : List ℕ) → get_elem? rows j ≡ some r → length r ≡ limit)
    → (j : ℕ) (r : List ℕ) → get_elem? (set rows i row) j ≡ some r
    → length r ≡ limit
set_slots limit rows i row fits inside h j r e = elim (ℕ_discrete i j) [
  | yes same ↦
      let at : get_elem? (set rows i row) i ≡ some r =
        subst (λ z. get_elem? (set rows i row) z ≡ some r) (sym same) e in
      sym (ap length (some-inj (sym (get_elem?-set_self rows i row inside) ∙ at))) ∙ fits
  | no other ↦ h j r (sym (get_elem?-set_ne rows row other) ∙ e)
]

-- In a buffer with room for the index and for the list, whose length the type of the neighbors holds,
-- insert succeeds, the index has a pending update, get_update gives the list back, and all other
-- indices are as they were.
pub insert_update-IsInserted :
    (width places limit i : ℕ) (xs : List ℕ) (u : BulkUpdate)
    → IsBulk places limit u
    → i < places
    → length xs ≤ limit
    → length xs < 2 ^ width
    → (u' : BulkUpdate) × (insert_update width i xs u ≡ some u') × IsInserted places limit u i xs u'
insert_update-IsInserted width places limit i xs u b inside fits small =
    let (row, at) = get_elem?-lt u.neighbors i (omega (arith, b.rows)) in
    let slots = b.slots i row at in
    let wide : length xs % 2 ^ width ≡ length xs = mod-eq_of_lt small in
    let row' = copy_to row 0 xs in
    let u' : BulkUpdate = record {
      neighbors = set u.neighbors i row';
      lengths = set u.lengths i (length xs % 2 ^ width);
      needs_update = set u.needs_update i true;
    } in
    (
      u',
      insert_update_runs width i xs u row at (omega (arith, slots)),
      record {
        bulk = record {
          rows = length-set u.neighbors i row' ∙ b.rows;
          sizes = length-set u.lengths i (length xs % 2 ^ width) ∙ b.sizes;
          flags = length-set u.needs_update i true ∙ b.flags;
          slots =
              set_slots limit u.neighbors i row' (length-copy_to row 0 xs ∙ slots)
                (omega (arith, b.rows)) b.slots;
        };
        flag = get_elem?-set_self u.needs_update i true (omega (arith, b.flags));
        held =
            get_update_at u' i (length xs % 2 ^ width) row'
              (get_elem?-set_self u.neighbors i row' (omega (arith, b.rows)))
              (get_elem?-set_self u.lengths i (length xs % 2 ^ width) (omega (arith, b.sizes)))
            ∙ ap (λ k. some (take k row')) wide
            ∙ ap some (take-copy_to row xs (omega (arith, slots)));
        other_flags = λ j ne. get_elem?-set_ne u.needs_update true ne;
        other_held = λ j ne.
            get_update_same u u' j (get_elem?-set_ne u.neighbors row' ne)
              (get_elem?-set_ne u.lengths (length xs % 2 ^ width) ne);
      },
    )

all_false :
    (flags : List Bool) (j : ℕ)
    → j < length flags
    → get_elem? (map (λ b. false) flags) j ≡ some false
all_false [] j h = elim h [ ]
all_false (x ∷ flags) zero h = refl
all_false (x ∷ flags) (suc j) h = all_false flags j (omega arith)

pub prepare-IsBulk :
    (places limit : ℕ) (u : BulkUpdate)
    → IsBulk places limit u
    → IsBulk places limit (prepare u)
      × ((j : ℕ) → j < places → get_elem? (prepare u).needs_update j ≡ some false)
unfolding prepare
prepare-IsBulk places limit u b = (
  record {
    rows = b.rows;
    sizes = b.sizes;
    flags = length-map u.needs_update (λ b. false) ∙ b.flags;
    slots = b.slots;
  },
  λ j h. all_false u.needs_update j (omega (arith, b.flags)),
)

replicate-All :
    {A : Type 0} (n : ℕ) (x : A) (i : ℕ) (y : A) → get_elem? (replicate n x) i ≡ some y → x ≡ y
replicate-All zero x i y e = cc
replicate-All (suc n) x zero y e = some-inj e
replicate-All (suc n) x (suc i) y e = replicate-All n x i y e

pub make_update-IsBulk :
    (blank : ℕ) (flag : Bool) (places limit : ℕ)
    → IsBulk places limit (make_update blank flag places limit)
unfolding make_update
make_update-IsBulk blank flag places limit = record {
  rows = length-replicate places (replicate limit blank);
  sizes = length-replicate places blank;
  flags = length-replicate places flag;
  slots = λ i row e.
      sym (ap length (replicate-All places (replicate limit blank) i row e))
      ∙ length-replicate limit blank;
}
