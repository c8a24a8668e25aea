-- ===== src/Index/Found.antt =====
-- The slots for new points: the empty ones, and new ones behind the others if they are too few.
use scalable_vector_search.Translation.Checks.{IsDistinctIds}
use scalable_vector_search.Compaction.Batches.{IsAscending}
use scalable_vector_search.Index.{SlotMetadata, empty, valid, deleted, is_empty_slot}
use scalable_vector_search.Index.Adding.{numbers_from, find_slots}
use scalable_vector_search.Base.{
  ℕ, zero, suc, ◌+◌, ◌≤◌, ◌<◌, ◌≡◌, ◌≢◌, inl, inr, refl, sym, ap, ◌∙◌, subst, Bool, true, false,
  List, [], ◌∷◌, ◌++◌, some, get_elem?, length, length-append, ◌==◌, if◌then◌else◌, arith,
  Bool-cases, All, All-map, All-append,
}

empty_slot-only : (s : SlotMetadata) → is_empty_slot s ≡ true → s ≡ empty
unfolding is_empty_slot
empty_slot-only empty h = refl
empty_slot-only valid h = cc
empty_slot-only deleted h = cc

append_assoc_one : (xs : List ℕ) (i : ℕ) (ys : List ℕ) → (xs ++ i ∷ []) ++ ys ≡ xs ++ i ∷ ys
append_assoc_one [] i ys = refl
append_assoc_one (x ∷ xs) i ys = ap (◌∷◌ x) (append_assoc_one xs i ys)

append_none : (xs : List ℕ) → xs ++ [] ≡ xs
append_none [] = refl
append_none (x ∷ xs) = ap (◌∷◌ x) (append_none xs)

-- Empty slots from `start` on, in ascending order.
pub record IsFound (start : ℕ) (status : List SlotMetadata) (fresh : List ℕ) : Type 0 where
  pub above : All (λ o. start ≤ o) fresh
  pub ascending : IsAscending fresh
  pub empties : All (λ o. (j : ℕ) × (o ≡ start + j) × (get_elem? status j ≡ some empty)) fresh

IsFound-skip :
    (start : ℕ) (s : SlotMetadata) (status : List SlotMetadata) (fresh : List ℕ)
    → IsFound (start + 1) status fresh
    → IsFound start (s ∷ status) fresh
IsFound-skip start s status fresh f = record {
  above = All-map (λ o. start + 1 ≤ o) (λ o. start ≤ o) (λ o h. omega arith) fresh f.above;
  ascending = f.ascending;
  empties =
      All-map (λ o. (j : ℕ) × (o ≡ start + 1 + j) × (get_elem? status j ≡ some empty))
        (λ o. (j : ℕ) × (o ≡ start + j) × (get_elem? (s ∷ status) j ≡ some empty))
        (λ o h. let (j, same, at) = h in (suc j, omega (arith, same), at)) fresh f.empties;
}

IsFound-take :
    (start : ℕ) (status : List SlotMetadata) (fresh : List ℕ)
    → IsFound (start + 1) status fresh
    → IsFound start (empty ∷ status) (start ∷ fresh)
IsFound-take start status fresh f =
    let g = IsFound-skip start empty status fresh f in
    record {
      above = (omega arith, g.above);
      ascending = (
        All-map (λ o. start + 1 ≤ o) (λ o. start < o) (λ o h. omega arith) fresh f.above,
        f.ascending,
      );
      empties = ((0, omega arith, refl), g.empties);
    }

find_stop :
    (num i : ℕ) (s : SlotMetadata) (status : List SlotMetadata) (slots slots' : List ℕ)
    → (if is_empty_slot s then slots ++ i ∷ [] else slots) ≡ slots'
    → (length slots' == num) ≡ true
    → find_slots num i (s ∷ status) slots ≡ (slots', true)
unfolding find_slots
find_stop num i s status slots slots' e full = rw (e, find_slots, full, e) refl

find_next :
    (num i : ℕ) (s : SlotMetadata) (status : List SlotMetadata) (slots slots' : List ℕ)
    → (if is_empty_slot s then slots ++ i ∷ [] else slots) ≡ slots'
    → (length slots' == num) ≡ false
    → find_slots num i (s ∷ status) slots ≡ find_slots num (i + 1) status slots'
unfolding find_slots
find_next num i s status slots slots' e room = rw (e, find_slots, room, e) refl

-- Whether the slots are as many as the points.
unfoldable pub IsCounted : ℕ → Bool → ℕ → Type 0
IsCounted num true count = count ≡ num
IsCounted num false count = count < num

pub find_slots-IsFound :
    (num i : ℕ) (status : List SlotMetadata) (slots : List ℕ)
    → length slots < num
    → (fresh : List ℕ) × (enough : Bool) × (find_slots num i status slots
        ≡ (slots ++ fresh, enough))
      × IsFound i status fresh
      × IsCounted num enough (length slots + length fresh)
unfolding find_slots IsCounted
find_slots-IsFound num i [] slots h = (
  [],
  false,
  ap (λ xs. (xs, false)) (sym (append_none slots)),
  record { above = tt; ascending = tt; empties = tt },
  omega arith,
)
find_slots-IsFound num i (s ∷ status) slots h = elim (Bool-cases (is_empty_slot s)) [
  | inr taken ↦
      let same : (if is_empty_slot s then slots ++ i ∷ [] else slots) ≡ slots = rw taken refl in
      let test : (length slots == num) ≡ false = ground arith in
      let (fresh, enough, runs, f, count) = find_slots-IsFound num (i + 1) status slots h in
      (
        fresh,
        enough,
        find_next num i s status slots slots same test ∙ runs,
        IsFound-skip i s status fresh f,
        count,
      )
  | inl is ↦
      let more = slots ++ i ∷ [] in
      let same : (if is_empty_slot s then slots ++ i ∷ [] else slots) ≡ more = rw is refl in
      let size = length-append slots (i ∷ []) in
      let s_empty = sym (empty_slot-only s is) in
      elim (Bool-cases (length more == num)) [
        | inl full ↦ (
          i ∷ [],
          true,
          find_stop num i s status slots more same full,
          subst (λ z. IsFound i (z ∷ status) (i ∷ [])) s_empty
              (IsFound-take i status [] (record { above = tt; ascending = tt; empties = tt })),
          ground (arith, full, size),
        )
        | inr room ↦
            let (fresh, enough, runs, f, count) =
              find_slots-IsFound num (i + 1) status more (ground (arith, room, size)) in
            (
              i ∷ fresh,
              enough,
              find_next num i s status slots more same room
                  ∙ runs
                  ∙ ap (λ xs. (xs, enough)) (append_assoc_one slots i fresh),
              subst (λ z. IsFound i (z ∷ status) (i ∷ fresh)) s_empty
                  (IsFound-take i status fresh f),
              subst (IsCounted num enough) (omega (arith, size)) count,
            )
      ]
]

pub length-numbers_from : (start count : ℕ) → length (numbers_from start count) ≡ count
unfolding numbers_from
length-numbers_from start zero = refl
length-numbers_from start (suc count) = ap suc (length-numbers_from (start + 1) count)

pub numbers_from-between :
    (start count : ℕ) → All (λ o. (start ≤ o) × (o < start + count)) (numbers_from start count)
unfolding numbers_from
numbers_from-between start zero = tt
numbers_from-between start (suc count) = (
  (omega arith, omega arith),
  All-map (λ o. (start + 1 ≤ o) × (o < start + 1 + count))
      (λ o. (start ≤ o) × (o < start + suc count)) (λ o h. (omega (arith, h.0), omega (arith, h.1)))
      (numbers_from (start + 1) count) (numbers_from-between (start + 1) count),
)

pub numbers_from-IsAscending : (start count : ℕ) → IsAscending (numbers_from start count)
unfolding numbers_from
numbers_from-IsAscending start zero = tt
numbers_from-IsAscending start (suc count) = (
  All-map (λ o. (start + 1 ≤ o) × (o < start + 1 + count)) (λ o. start < o)
      (λ o h. omega (arith, h.0)) (numbers_from (start + 1) count)
      (numbers_from-between (start + 1) count),
  numbers_from-IsAscending (start + 1) count,
)

pub IsAscending-append :
    (n : ℕ) (xs ys : List ℕ)
    → IsAscending xs
    → IsAscending ys
    → All (λ x. x < n) xs
    → All (λ y. n ≤ y) ys
    → IsAscending (xs ++ ys)
IsAscending-append n [] ys a b low high = b
IsAscending-append n (x ∷ xs) ys a b low high = (
  All-append (λ y. x < y) xs ys a.0
      (All-map (λ y. n ≤ y) (λ y. x < y) (λ y h. omega (arith, low.0)) ys high),
  IsAscending-append n xs ys a.1 b low.1 high,
)

pub IsAscending-IsDistinctIds : (xs : List ℕ) → IsAscending xs → IsDistinctIds xs
IsAscending-IsDistinctIds [] a = tt
IsAscending-IsDistinctIds (x ∷ xs) a = (
  All-map (λ y. x < y) (λ y. x ≢ y) (λ y h e. omega (arith, e)) xs a.0,
  IsAscending-IsDistinctIds xs a.1,
)
