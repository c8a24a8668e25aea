-- ===== src/Compaction/Batches.antt =====
-- The batches of a compaction leave every entry at its new place, as if they had all been moved at
-- once.
use native.Mathlib.Decide.{ℕ_discrete}
use scalable_vector_search.Threads.{UnitRange, unit_range, range_size}
use scalable_vector_search.Compaction.{
  Table, IsTable, compacted, fill_buffer, write_back, compact_batch, compact_batches,
}
use scalable_vector_search.Base.{
  ℕ, zero, suc, ◌+◌, ◌-◌, ◌≤◌, ◌<◌, ◌≡◌, inl, inr, refl, sym, ◌∙◌, subst, false, List, [], ◌∷◌,
  Option, some, some-inj, get_elem?, length, ltb, min, arith, Bool-cases, All, All-map, dec_lt,
}

-- Strictly ascending.
abbrev pub IsAscending : List ℕ → Type 0
IsAscending [] = Unit
IsAscending (x ∷ xs) = All (λ y. x < y) xs × IsAscending xs

ascending-above :
    (xs : List ℕ) (low k o : ℕ)
    → All (λ y. low ≤ y) xs
    → IsAscending xs
    → get_elem? xs k ≡ some o
    → low + k ≤ o
ascending-above [] low k o a h e = cc
ascending-above (x ∷ xs) low zero o a h e = omega (arith, subst (λ y. low ≤ y) (some-inj e) a.0)
ascending-above (x ∷ xs) low (suc k) o a h e = omega (
  arith,
  a.0,
  ascending-above xs (suc x) k o (All-map (λ y. x < y) (λ y. suc x ≤ y) (λ y p. p) xs h.0) h.1 e,
)

at_least_zero : (xs : List ℕ) → All (λ y. 0 ≤ y) xs
at_least_zero [] = tt
at_least_zero (x ∷ xs) = (omega arith, at_least_zero xs)

-- An entry's old place is not before its new one.
pub get_elem?-ascending : (xs : List ℕ) (k o : ℕ) → IsAscending xs → get_elem? xs k ≡ some o → k ≤ o
get_elem?-ascending xs k o h e = omega (arith, ascending-above xs 0 k o (at_least_zero xs) h e)

module _ (t b : Table) (move : t.Entry → Option b.Entry) (back : b.Entry → t.Entry)
    {GoodT : t.State → Type 0} {FitsT : t.Entry → Type 0} (lt : IsTable t GoodT FitsT)
    {GoodB : b.State → Type 0} {FitsB : b.Entry → Type 0} (lb : IsTable b GoodB FitsB)
    (new_to_old : List ℕ) (original : t.State) where
  -- What place k is to hold, in the buffer's form.
  pub record IsMoved (k : ℕ) (w : b.Entry) : Type 0 where
    pub old_id : ℕ
    pub entry : t.Entry
    pub mapped : get_elem? new_to_old k ≡ some old_id
    pub from : t.get original old_id ≡ some entry
    pub moved : move entry ≡ some w
    pub fits : FitsB w
    pub fits_back : FitsT (back w)

  -- Every place to fill has an entry that can be moved there.
  abbrev pub IsMovable : Type 0
  IsMovable = (k : ℕ) → k < length new_to_old → (w : b.Entry) × IsMoved k w

  -- The places before `start` are done, and those from it on are as they were.
  pub record IsBetween (start : ℕ) (s : t.State) : Type 0 where
    pub good : GoodT s
    pub same_size : t.size s ≡ t.size original
    pub before : (k : ℕ) → k < start → (w : b.Entry) × IsMoved k w × (t.get s k ≡ some (back w))
    pub after : (k : ℕ) → start ≤ k → t.get s k ≡ t.get original k

  module _ (ascending : IsAscending new_to_old) (movable : IsMovable) where
    record IsFilled (start from upto : ℕ) (buffer buffer' : b.State) : Type 0 where
      good : GoodB buffer'
      same_size : b.size buffer' ≡ b.size buffer
      kept : (j : ℕ) → j < from → b.get buffer' j ≡ b.get buffer j
      filled :
          (j : ℕ)
          → from ≤ j
          → j < upto
          → (w : b.Entry) × IsMoved (start + j) w × (b.get buffer' j ≡ some w)

    fill_buffer-IsFilled :
        (start batch_id count : ℕ) (s : t.State) (buffer : b.State)
        → IsBetween start s
        → GoodB buffer
        → batch_id + count ≤ b.size buffer
        → start + (batch_id + count) ≤ length new_to_old
        → (buffer' : b.State) × (fill_buffer t b move back s new_to_old start batch_id count buffer
            ≡ compacted buffer')
          × IsFilled start batch_id (batch_id + count) buffer buffer'
    unfolding fill_buffer
    fill_buffer-IsFilled start batch_id zero s buffer i g room inside = (
      buffer,
      refl,
      record {
        good = g;
        same_size = refl;
        kept = λ j h. refl;
        filled = λ j h k. absurd (omega arith);
      },
    )
    fill_buffer-IsFilled start batch_id (suc count) s buffer i g room inside =
        let (w, m) = movable (start + batch_id) (omega arith) in
        let old : t.get s m.old_id ≡ some m.entry =
          i.after m.old_id (
            omega (
              arith,
              get_elem?-ascending new_to_old (start + batch_id) m.old_id ascending m.mapped,
            ))
          ∙ m.from in
        let (buffer1, runs, g1, size1, here, others) =
          lb.put-inside buffer batch_id w g (omega arith) m.fits in
        let (buffer', rest, f) =
          fill_buffer-IsFilled start (batch_id + 1) count s buffer1 i g1 (omega (arith, size1))
            (omega arith) in
        (
          buffer',
          rw (m.mapped, fill_buffer, old, m.moved, runs) rest,
          record {
            good = f.good;
            same_size = f.same_size ∙ size1;
            kept = λ j h. f.kept j (omega arith) ∙ others j (λ e. omega (arith, e));
            filled = λ j h k. elim (ℕ_discrete batch_id j) [
              | yes same ↦
                  subst (λ z. (w : b.Entry) × IsMoved (start + z) w × (b.get buffer' z ≡ some w))
                    same (w, m, f.kept batch_id (omega arith) ∙ here)
              | no other ↦ f.filled j (omega (arith, other)) (omega arith)
            ];
          },
        )

    record IsWritten (from upto : ℕ) (s s' : t.State) : Type 0 where
      good : GoodT s'
      same_size : t.size s' ≡ t.size s
      below : (k : ℕ) → k < from → t.get s' k ≡ t.get s k
      above : (k : ℕ) → upto ≤ k → t.get s' k ≡ t.get s k
      written :
          (k : ℕ) → from ≤ k → k < upto → (w : b.Entry) × IsMoved k w × (t.get s' k ≡ some (back w))

    write_back-IsWritten :
        (start batch_id count : ℕ) (buffer : b.State) (s : t.State)
        → GoodT s
        → start + (batch_id + count) ≤ t.size s
        → ((j : ℕ)
            → batch_id ≤ j
            → j < batch_id + count
            → (w : b.Entry) × IsMoved (start + j) w × (b.get buffer j ≡ some w))
        → (s' : t.State) × (write_back t b move back buffer start batch_id count s ≡ some s')
          × IsWritten (start + batch_id) (start + (batch_id + count)) s s'
    unfolding write_back
    write_back-IsWritten start batch_id zero buffer s g room held = (
      s,
      refl,
      record {
        good = g;
        same_size = refl;
        below = λ k h. refl;
        above = λ k h. refl;
        written = λ k h j. absurd (omega arith);
      },
    )
    write_back-IsWritten start batch_id (suc count) buffer s g room held =
        let (w, m, at) = held batch_id (omega arith) (omega arith) in
        let (s1, runs, g1, size1, here, others) =
          lt.put-inside s (start + batch_id) (back w) g (omega arith) m.fits_back in
        let (s', rest, r) =
          write_back-IsWritten start (batch_id + 1) count buffer s1 g1 (omega (arith, size1))
            (λ j h k. held j (omega arith) (omega arith)) in
        (
          s',
          rw (at, write_back, runs) rest,
          record {
            good = r.good;
            same_size = r.same_size ∙ size1;
            below = λ k h. r.below k (omega arith) ∙ others k (λ e. omega (arith, e));
            above = λ k h. r.above k (omega arith) ∙ others k (λ e. omega (arith, e));
            written = λ k h j. elim (ℕ_discrete (start + batch_id) k) [
              | yes same ↦
                  subst (λ z. (w : b.Entry) × IsMoved z w × (t.get s' z ≡ some (back w))) same
                    (w, m, r.below (start + batch_id) (omega arith) ∙ here)
              | no other ↦ r.written k (omega (arith, other)) (omega arith)
            ];
          },
        )

    compact_batch_runs :
        (range : UnitRange) (count : ℕ) (s s' : t.State) (buffer buffer' : b.State)
        → range_size range ≡ count
        → fill_buffer t b move back s new_to_old range.start 0 count buffer ≡ compacted buffer'
        → write_back t b move back buffer' range.start 0 count s ≡ some s'
        → compact_batch t b move back new_to_old range s buffer ≡ compacted (s', buffer')
    unfolding compact_batch
    compact_batch_runs range count s s' buffer buffer' size fills writes =
        rw (size, compact_batch, fills, size, writes)

    range_size-to :
        (start stop : ℕ) → start ≤ stop → range_size (unit_range start stop) ≡ stop - start
    unfolding range_size unit_range
    range_size-to start stop h = omega arith

    compact_batch-IsBetween :
        (start stop : ℕ) (s : t.State) (buffer : b.State)
        → IsBetween start s
        → GoodB buffer
        → start ≤ stop
        → stop ≤ start + b.size buffer
        → stop ≤ length new_to_old
        → length new_to_old ≤ t.size s
        → (s' : t.State) × (buffer' : b.State) × (compact_batch t b move back new_to_old
              (unit_range start stop)
              s
              buffer
            ≡ compacted (s', buffer'))
          × IsBetween stop s'
          × GoodB buffer'
          × (b.size buffer' ≡ b.size buffer)
    unfolding unit_range
    compact_batch-IsBetween start stop s buffer i g h room inside fits =
        let (buffer', fills, f) =
          fill_buffer-IsFilled start 0 (stop - start) s buffer i g (omega arith) (omega arith) in
        let (s', writes, r) =
          write_back-IsWritten start 0 (stop - start) buffer' s i.good (omega arith) f.filled in
        (
          s',
          buffer',
          compact_batch_runs (unit_range start stop) (stop - start) s s' buffer buffer'
              (range_size-to start stop h) fills writes,
          record {
            good = r.good;
            same_size = r.same_size ∙ i.same_size;
            before = λ k j. elim (dec_lt k start) [
              | yes old ↦ let (w, m, at) = i.before k old in (w, m, r.below k (omega arith) ∙ at)
              | no new ↦ r.written k (omega arith) (omega arith)
            ];
            after = λ k j. r.above k (omega arith) ∙ i.after k (omega arith);
          },
          f.good,
          f.same_size,
        )

    -- The sum is exact for an index of the map and the given size.
    abbrev pub IsExact : (plus : ℕ → ℕ → ℕ) → ℕ → Type 0
    IsExact plus size = (k : ℕ) → k < length new_to_old → plus k size ≡ k + size

    compact_batches-IsBetween :
        (plus : ℕ → ℕ → ℕ) (fuel start : ℕ) (s : t.State) (buffer : b.State)
        → IsExact plus (b.size buffer)
        → IsBetween start s
        → GoodB buffer
        → 0 < b.size buffer
        → start ≤ length new_to_old
        → length new_to_old ≤ t.size s
        → length new_to_old ≤ start + fuel
        → (s' : t.State) × (compact_batches t b move back plus fuel
              (b.size buffer)
              new_to_old
              start
              s
              buffer
            ≡ compacted s')
          × IsBetween (length new_to_old) s'
    unfolding compact_batches
    compact_batches-IsBetween plus zero start s buffer exact i g p h fits enough =
        let last : ltb start (length new_to_old) ≡ false = ground arith in
        let at_end : start ≡ length new_to_old = omega arith in
        (s, rw last, subst (λ k. IsBetween k s) at_end i)
    compact_batches-IsBetween plus (suc fuel) start s buffer exact i g p h fits enough =
        elim (Bool-cases (ltb start (length new_to_old))) [
          | inr last ↦
              let at_end : start ≡ length new_to_old = ground arith in
              (s, rw (last, compact_batches), subst (λ k. IsBetween k s) at_end i)
          | inl more ↦
              let sum = exact start (ground (arith, more)) in
              let stop = min (plus start (b.size buffer)) (length new_to_old) in
              let (s1, buffer1, runs, i1, g1, size1) =
                compact_batch-IsBetween start stop s buffer i g (omega (arith, sum, p))
                  (omega (arith, sum)) (omega arith) fits in
              let (s', rest, done) =
                compact_batches-IsBetween plus fuel stop s1 buffer1
                  (subst (IsExact plus) (sym size1) exact) i1 g1 (omega (arith, size1))
                  (omega arith) (omega (arith, i1.same_size, i.same_size))
                  (ground (arith, more, sum, p)) in
              (
                s',
                rw (more, compact_batches, runs)
                    (subst
                      (λ size.
                        compact_batches t b move back plus fuel size new_to_old stop s1 buffer1
                        ≡ compacted s')
                      size1 rest),
                done,
              )
        ]

    -- Over any two tables: with sums that are exact, a buffer that is not empty, fuel for every place, and a strictly
    -- ascending map whose entries can all be moved, the compaction ends with every entry of the
    -- original table at its new place and all further places as they were.
    pub compact_batches-IsCompacted :
        (plus : ℕ → ℕ → ℕ) (fuel : ℕ) (buffer : b.State)
        → IsExact plus (b.size buffer)
        → GoodT original
        → GoodB buffer
        → 0 < b.size buffer
        → length new_to_old ≤ t.size original
        → length new_to_old ≤ fuel
        → (s' : t.State) × (compact_batches t b move back plus fuel
              (b.size buffer)
              new_to_old
              0
              original
              buffer
            ≡ compacted s')
          × IsBetween (length new_to_old) s'
    compact_batches-IsCompacted plus fuel buffer exact good g p fits enough =
        compact_batches-IsBetween plus fuel 0 original buffer exact
          (record {
            good = good;
            same_size = refl;
            before = λ k h. absurd (omega arith);
            after = λ k h. refl;
          })
          g p (omega arith) fits (omega arith)
