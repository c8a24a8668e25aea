-- ===== src/GreedySearch/Seed.antt =====
-- The buffer before the main loop: the entry points are in it, in order of distance.
use mathlib.Core.List.{reverse, reverse-cons, append_assoc}
use scalable_vector_search.Filter
use scalable_vector_search.Filter.Soundness.{Tracks-reset}
use mathlib.Core.List.Memᴰ
use scalable_vector_search.Neighbor.{SearchNeighbor}
use scalable_vector_search.SearchBuffer.{
  SearchBuffer, view, full, clear, push_back, sort, filter_bits,
}
use scalable_vector_search.SearchBuffer.Insert.{IsShaped}
use scalable_vector_search.SearchBuffer.Start.{
  IsSorter, IsSeeding, IsFresh, clear-IsSeeding, push_back-IsSeeding, view-push_back, view-sort,
  sort-IsReady,
}
use scalable_vector_search.GreedySearch.{Visit, build, populate}
use scalable_vector_search.GreedySearch.Held.{IsPriced}
use scalable_vector_search.Neighbor.Distinct.{IsDistinct, IsDistinct-concat, IsDistinct-Permᴰ}
use scalable_vector_search.GreedySearch.Invariant.{elem, IsSearching, IsFiltered, FilterHeld}
use scalable_vector_search.GreedySearch.Ends.{IsNodup, ids}
use scalable_vector_search.Base.{
  All-Permᴰ, ℕ, ◌<◌, ◌≡◌, ◌≢◌, refl, sym, ◌∙◌, subst, Bool, false, List, [], ◌∷◌, ◌++◌, Option,
  none, some, arith, inl, inr, Bool-cases, All, All-map, All-append, length,
}

-- A filter that is there has its full size.
abbrev pub IsFilterSized : Option (List ℕ) → Type 0
IsFilterSized none = Unit
IsFilterSized (some slots) = length slots ≡ Filter.filter_capacity filter_bits

module _ {D : Type 0} (lt : D → D → Bool) (neighbors : ℕ → List ℕ) (dist : ℕ → D)
    (by : List (SearchNeighbor D) → List (SearchNeighbor D)) (n : ℕ) where
  -- While entry points are put in; `rest` are those to come.
  pub record IsPopulating (rest : List ℕ) (b : SearchBuffer D) : Type 0 where
    pub seeding : IsSeeding b
    pub priced : All (IsPriced lt dist) (view b)
    pub distinct : IsDistinct (view b)
    pub bounded : All (λ x. x.id < n) (view b)
    pub to_come : All (λ x. elem x.id rest ≡ false) (view b)

  push_back-IsPopulating :
      (id : ℕ) (rest : List ℕ) (b : SearchBuffer D)
      → id < n
      → elem id rest ≡ false
      → IsPopulating (id ∷ rest) b
      → IsPopulating rest (push_back (build lt neighbors dist by id) b)
  unfolding build
  push_back-IsPopulating id rest b h e s =
      let x : SearchNeighbor D = build lt neighbors dist by id in
      let later =
        All-map (λ y. elem y.id (id ∷ rest) ≡ false) (λ y. elem y.id rest ≡ false)
          (λ y k. ground arith) (view b) s.to_come in
      let others =
        All-map (λ y. elem y.id (id ∷ rest) ≡ false) (λ y. y.id ≢ id) (λ y k m. ground (arith, m))
          (view b) s.to_come in
      elim (Bool-cases (full b)) [
        | inl is_full ↦
            let same : view (push_back x b) ≡ view b =
              view-push_back x b s.seeding.shaped ∙ (rw is_full) in
            record {
              seeding = push_back-IsSeeding x b refl s.seeding;
              priced = rw same s.priced;
              distinct = rw same s.distinct;
              bounded = rw same s.bounded;
              to_come = rw same later;
            }
        | inr room ↦
            let more : view (push_back x b) ≡ view b ++ x ∷ [] =
              view-push_back x b s.seeding.shaped ∙ (rw room) in
            record {
              seeding = push_back-IsSeeding x b refl s.seeding;
              priced =
                  rw more (All-append (IsPriced lt dist) (view b) (x ∷ []) s.priced (refl, tt));
              distinct = rw more (IsDistinct-concat (view b) x s.distinct others);
              bounded = rw more (All-append (λ y. y.id < n) (view b) (x ∷ []) s.bounded (h, tt));
              to_come =
                  rw more
                    (All-append (λ y. elem y.id rest ≡ false) (view b) (x ∷ []) later (e, tt));
            }
      ]

  push_back_same_visited :
      (x : SearchNeighbor D) (b : SearchBuffer D) → (push_back x b).visited ≡ b.visited
  unfolding push_back
  push_back_same_visited x b = ground arith

  populate-IsPopulating :
      (b : SearchBuffer D) (log : List (Visit D)) (entry_points : List ℕ)
      → IsNodup entry_points
      → All (λ id. id < n) entry_points
      → IsPopulating entry_points b
      → let r = populate lt neighbors dist by b log entry_points in
        IsPopulating [] r.0
        × (r.0.visited ≡ b.visited)
        × (ids r.1 ≡ reverse entry_points ++ ids log)
  unfolding populate
  populate-IsPopulating b log [] d h s = (s, refl, refl)
  populate-IsPopulating b log (id ∷ rest) d h s =
      let x = build lt neighbors dist by id in
      let (s', same, trace) =
        populate-IsPopulating (push_back x b) _ rest d.1 h.1
          (push_back-IsPopulating id rest b h.0 d.0 s) in
      (s', same ∙ push_back_same_visited x b, trace ∙ (rw (reverse-cons id rest, append_assoc)))

  sort-IsSearching :
      IsSorter lt by
      → (b : SearchBuffer D) → IsPopulating [] b
      → IsSearching lt dist n [] (sort by b)
  sort-IsSearching sorter b s =
      let items = view-sort lt by sorter b s.seeding.shaped in
      let perm = sorter.perm (view b) in
      record {
        ready = sort-IsReady lt by sorter b s.seeding;
        priced = rw items (All-Permᴰ (IsPriced lt dist) perm s.priced);
        distinct = rw items (IsDistinct-Permᴰ perm s.distinct);
        bounded = rw items (All-Permᴰ (λ x. x.id < n) perm s.bounded);
        held = λ u e. cc;
        expanded_visited =
            rw items
              (All-Permᴰ _ perm (All-map IsFresh _ (λ x fresh e. cc) (view b) s.seeding.fresh));
        visited_expanded =
            rw items
              (All-Permᴰ _ perm (All-map IsFresh _ (λ x fresh e. cc) (view b) s.seeding.fresh));
      }

  sort_same_visited : (b : SearchBuffer D) → (sort by b).visited ≡ b.visited
  unfolding sort
  sort_same_visited b = refl

  clear_visited :
      (b : SearchBuffer D)
      → (clear b).visited
        ≡ (elim b.visited [ none ↦ none | some slots ↦ some (Filter.reset filter_bits slots) ])
  unfolding clear
  clear_visited b = refl

  filter_start :
      (c : SearchBuffer D) (v : Option (List ℕ))
      → c.visited ≡ (elim v [ none ↦ none | some slots ↦ some (Filter.reset filter_bits slots) ])
      → IsFilterSized v
      → IsFiltered lt dist n c
  filter_start c none e f = subst (FilterHeld lt dist n c) (sym e) tt
  filter_start c (some slots) e f =
      subst (FilterHeld lt dist n c) (sym e)
        ([], Tracks-reset filter_bits slots f, λ k m. absurd (Memᴰ.not-nil m))

  -- The search can start.
  pub start-IsSearching :
      IsSorter lt by
      → (b : SearchBuffer D) (entry_points : List ℕ) → IsShaped b
      → IsFilterSized b.visited
      → IsNodup entry_points
      → All (λ id. id < n) entry_points
      → let r = populate lt neighbors dist by (clear b) [] entry_points in
        IsSearching lt dist n [] (sort by r.0)
        × IsFiltered lt dist n (sort by r.0)
        × (ids r.1 ≡ reverse entry_points ++ [])
  start-IsSearching sorter b entry_points w f d h =
      let (seeding, nothing) = clear-IsSeeding b w in
      let (s, same, trace) = populate-IsPopulating (clear b) [] entry_points d h (record {
        seeding = seeding;
        priced = rw nothing tt;
        distinct = rw nothing tt;
        bounded = rw nothing tt;
        to_come = rw nothing tt;
      }) in
      (
        sort-IsSearching sorter (populate lt neighbors dist by (clear b) [] entry_points).0 s,
        filter_start (sort by (populate lt neighbors dist by (clear b) [] entry_points).0) b.visited
            (sort_same_visited (populate lt neighbors dist by (clear b) [] entry_points).0
              ∙ same
              ∙ clear_visited b)
            f,
        trace,
      )
