-- ===== src/SearchBuffer/Start.antt =====
-- How a search sets a buffer up: `clear`, a `push_back` for each entry point, and `sort`.
use mathlib.Core.List.{Permᴰ}
use scalable_vector_search.Neighbor.{SearchNeighbor}
use scalable_vector_search.Candidates.Sorted.{IsSorted}
use scalable_vector_search.SearchBuffer.{SearchBuffer, view, full, clear, push_back, sort}
use scalable_vector_search.SearchBuffer.Insert.{IsShaped, length-view}
use scalable_vector_search.SearchBuffer.Invariant.{visited_at, IsScanned, IsReady}
use scalable_vector_search.Base.{
  All-Permᴰ, ℕ, zero, suc, ◌+◌, ◌<◌, ◌≡◌, refl, sym, ap, ◌∙◌, Bool, false, List, [], ◌∷◌, ◌++◌,
  drop, take, length, ◌==◌, if◌then◌else◌, arith, inl, inr, Bool-cases, All, All-append, length-set,
  set, length-append, length-drop,
}

-- What `std::sort` promises: the same elements, in ascending order.
pub record IsSorter {D : Type 0} (lt : D → D → Bool)
    (by : List (SearchNeighbor D) → List (SearchNeighbor D)) : Type 0 where
  pub sorted : (xs : List (SearchNeighbor D)) → IsSorted lt (by xs)
  pub perm : (xs : List (SearchNeighbor D)) → Permᴰ xs (by xs)

pub length-Permᴰ : {A : Type 0} {xs ys : List A} → Permᴰ xs ys → length xs ≡ length ys
length-Permᴰ Permᴰ.nil = refl
length-Permᴰ (Permᴰ.cons e p) = ap suc (length-Permᴰ p)
length-Permᴰ (Permᴰ.swap e f) = refl
length-Permᴰ (Permᴰ.trans p q) = length-Permᴰ p ∙ length-Permᴰ q

take-append : {A : Type 0} → (n : ℕ) (xs ys : List A) → length xs ≡ n → take n (xs ++ ys) ≡ xs
take-append zero [] ys h = refl
take-append zero (x ∷ xs) ys h = absurd (omega arith)
take-append (suc n) [] ys h = absurd (omega arith)
take-append (suc n) (x ∷ xs) ys h = ap (◌∷◌ x) (take-append n xs ys (omega arith))

take-set_end :
    {A : Type 0}
    → (k : ℕ) (xs : List A) (n : A) → k < length xs
    → take (suc k) (set xs k n) ≡ take k xs ++ n ∷ []
take-set_end k [] n h = elim h [ ]
take-set_end zero (x ∷ xs) n h = refl
take-set_end (suc k) (x ∷ xs) n h = ap (◌∷◌ x) (take-set_end k xs n (omega arith))

module _ {D : Type 0} where
  abbrev pub IsFresh : SearchNeighbor D → Type 0
  IsFresh x = x.meta.visited ≡ false

  fresh-head :
      (xs : List (SearchNeighbor D)) → All IsFresh xs → 0 < length xs → visited_at xs 0 ≡ false
  fresh-head [] h k = elim k [ ]
  fresh-head (x ∷ xs) h k = h.0

  -- A buffer that entry points are being put into.
  pub record IsSeeding (b : SearchBuffer D) : Type 0 where
    pub shaped : IsShaped b
    pub at_start : b.best_unvisited ≡ 0
    pub fresh : All IsFresh (view b)

  pub clear-IsSeeding :
      (b : SearchBuffer D) → IsShaped b → IsSeeding (clear b) × (view (clear b) ≡ [])
  unfolding clear view
  clear-IsSeeding b w = (
    record {
      shaped = record { slots = w.slots; fits = omega arith; window = w.window };
      at_start = refl;
      fresh = tt;
    },
    refl,
  )

  -- `push_back` appends, unless the buffer is full.
  pub view-push_back :
      (n : SearchNeighbor D) (b : SearchBuffer D)
      → IsShaped b
      → view (push_back n b) ≡ (if full b then view b else view b ++ n ∷ [])
  unfolding push_back full view
  view-push_back n b w = elim (Bool-cases (b.size == b.capacity)) [
    | inl e ↦ rw e
    | inr ne ↦
        let next : b.size + 1 ≡ suc b.size = omega arith in
        rw (ne, next) (take-set_end b.size b.candidates n (omega (arith, w.slots, w.fits)))
  ]

  pub push_back-IsSeeding :
      (n : SearchNeighbor D) (b : SearchBuffer D)
      → IsFresh n
      → IsSeeding b
      → IsSeeding (push_back n b)
  unfolding push_back full
  push_back-IsSeeding n b f s = record {
    shaped =
        ground
          (arith, s.shaped.slots, s.shaped.fits, s.shaped.window, length-set b.candidates b.size n);
    at_start = ground (arith, s.at_start);
    fresh = rw (view-push_back n b s.shaped) (elim (Bool-cases (full b)) [
      | inl e ↦ rw e s.fresh
      | inr e ↦ rw e (All-append IsFresh (view b) (n ∷ []) s.fresh (f, tt))
    ]);
  }

  module _ (lt : D → D → Bool) (by : List (SearchNeighbor D) → List (SearchNeighbor D))
      (sorter : IsSorter lt by) where
    pub view-sort : (b : SearchBuffer D) → IsShaped b → view (sort by b) ≡ by (view b)
    unfolding sort view
    view-sort b w =
        take-append b.size (by (take b.size b.candidates)) (drop b.size b.candidates)
          (sym (length-Permᴰ (sorter.perm (take b.size b.candidates))) ∙ length-view b w)

    IsShaped-sort : (b : SearchBuffer D) → IsShaped b → IsShaped (sort by b)
    unfolding sort view
    IsShaped-sort b w = record {
      slots = omega (
        arith,
        length-append (by (view b)) (drop b.size b.candidates),
        length-Permᴰ (sorter.perm (view b)),
        length-drop b.size b.candidates,
        length-view b w,
        w.slots,
        w.fits,
      );
      fits = w.fits;
      window = w.window;
    }

    IsScanned-sort : (b : SearchBuffer D) → IsSeeding b → IsScanned (sort by b)
    unfolding sort
    IsScanned-sort b s =
        let inside =
          rw (view-sort b s.shaped) at (length-view (sort by b) (IsShaped-sort b s.shaped)) in
        let fresh = All-Permᴰ IsFresh (sorter.perm (view b)) s.fresh in
        record {
          within = omega (arith, s.at_start);
          behind = λ j h. absurd (omega (arith, s.at_start));
          ahead = λ h.
              rw (view-sort b s.shaped, s.at_start)
                (fresh-head (by (view b)) fresh (omega (arith, inside)));
        }

    -- With a sorting function, sorting a buffer that entry points were put into makes it ready for the
    -- search.
    pub sort-IsReady : (b : SearchBuffer D) → IsSeeding b → IsReady lt (sort by b)
    sort-IsReady b s = record {
      shaped = IsShaped-sort b s.shaped;
      sorted = rw (view-sort b s.shaped) (sorter.sorted (view b));
      scanned = IsScanned-sort b s;
    }
