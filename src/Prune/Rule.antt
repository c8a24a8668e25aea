-- ===== src/Prune/Rule.antt =====
-- The pruning keeps the rule of the relative neighborhood graph, relaxed by alpha.
use scalable_vector_search.Neighbor.{Neighbor}
use scalable_vector_search.Prune.{rules_out, heuristic_prune_neighbors}
use scalable_vector_search.Prune.Select.{ruled_out, select, ruled_out-concat, prune-eq-select}
use scalable_vector_search.Base.{
  ℕ, zero, suc, ◌≤◌, ◌≡◌, ◌≢◌, ◌⊎◌, refl, sym, ◌∙◌, subst, Bool, true, false, ◌||◌, List, [], ◌∷◌,
  ◌++◌, length, ltb, ◌==◌, some, get_elem?, arith, Bool-cases, inl, inr, All, All-append,
  length-append,
}

module _ {D M : Type 0} (lt : D → D → Bool) (scale : D → D → D) (distance : ℕ → ℕ → D)
    (alpha : D) where
  -- No element is ruled out by an earlier one.
  abbrev pub IsDiverse : List (Neighbor D M) → Type 0
  IsDiverse [] = Unit
  IsDiverse (r ∷ kept) =
      All (λ c. rules_out lt scale distance alpha r c ≡ false) kept × IsDiverse kept

  -- Why a candidate need not be added to a result.
  abbrev pub IsSettled : ℕ → ℕ → List (Neighbor D M) → Neighbor D M → Type 0
  IsSettled limit current result c =
      (c.id ≡ current)
      ⊎ (length result ≡ limit)
      ⊎ (ruled_out lt scale distance alpha result c ≡ true)
      ⊎ ((j : ℕ) × (get_elem? result j ≡ some c))

  -- What the pruning promises.
  pub record IsPruned (limit current : ℕ) (pool result : List (Neighbor D M)) : Type 1 where
    pub bounded : length result ≤ limit
    pub from_pool : (P : Neighbor D M → Type 0) → All P pool → All P result
    pub no_loop : All (λ c. c.id ≢ current) result
    pub diverse : IsDiverse result
    pub settled : All (IsSettled limit current result) pool

  IsDiverse-concat :
      (kept : List (Neighbor D M)) (x : Neighbor D M)
      → ruled_out lt scale distance alpha kept x ≡ false
      → IsDiverse kept
      → IsDiverse (kept ++ x ∷ [])
  unfolding ruled_out
  IsDiverse-concat [] x h d = (tt, tt)
  IsDiverse-concat (r ∷ kept) x h d = (
    All-append (λ c. rules_out lt scale distance alpha r c ≡ false) kept (x ∷ []) d.0
        (ground arith, tt),
    IsDiverse-concat kept x (ground arith) d.1,
  )

  get_elem?-concat :
      (kept : List (Neighbor D M)) (x c : Neighbor D M) (j : ℕ)
      → get_elem? kept j ≡ some c
      → get_elem? (kept ++ x ∷ []) j ≡ some c
  get_elem?-concat [] x c j h = cc
  get_elem?-concat (r ∷ kept) x c zero h = h
  get_elem?-concat (r ∷ kept) x c (suc j) h = get_elem?-concat kept x c j h

  get_elem?-last :
      (kept : List (Neighbor D M)) (x : Neighbor D M)
      → get_elem? (kept ++ x ∷ []) (length kept) ≡ some x
  get_elem?-last [] x = refl
  get_elem?-last (r ∷ kept) x = get_elem?-last kept x

  -- What is kept stays kept, and goes on ruling out what it rules out.
  pub record IsMore (kept result : List (Neighbor D M)) : Type 0 where
    pub still : (j : ℕ) (c : Neighbor D M) → get_elem? kept j ≡ some c → get_elem? result j ≡ some c
    pub ruled :
        (c : Neighbor D M)
        → ruled_out lt scale distance alpha kept c ≡ true
        → ruled_out lt scale distance alpha result c ≡ true

  select-IsMore :
      (limit current : ℕ) (pool kept : List (Neighbor D M))
      → IsMore kept (select lt scale distance alpha limit current pool kept)
  unfolding select
  select-IsMore limit current [] kept = record { still = λ j c h. h; ruled = λ c h. h }
  select-IsMore limit current (x ∷ pool) kept = elim (Bool-cases (ltb (length kept) limit)) [
    | inr e ↦ rw (e, select) (record { still = λ j c h. h; ruled = λ c h. h })
    | inl e ↦ elim (Bool-cases (ruled_out lt scale distance alpha kept x || x.id == current)) [
      | inl out ↦ rw (e, select, out) (select-IsMore limit current pool kept)
      | inr fresh ↦
          let r = select-IsMore limit current pool (kept ++ x ∷ []) in
          rw (e, select, fresh)
            (record {
              still = λ j c h. r.still j c (get_elem?-concat kept x c j h);
              ruled = λ c h. r.ruled c (ruled_out-concat lt scale distance alpha kept x c ∙ (rw h));
            })
    ]
  ]

  full-select :
      (limit current : ℕ) (pool kept : List (Neighbor D M))
      → length kept ≡ limit
      → length (select lt scale distance alpha limit current pool kept) ≡ limit
  unfolding select
  full-select limit current [] kept h = h
  full-select limit current (x ∷ pool) kept h =
      let stop : ltb (length kept) limit ≡ false = ground arith in rw (stop, select) h

  always :
      (P : Neighbor D M → Type 0) (xs : List (Neighbor D M)) → ((x : Neighbor D M) → P x) → All P xs
  always P [] h = tt
  always P (x ∷ xs) h = (h x, always P xs h)

  -- The same for a walk that has kept some candidates already.
  record IsSelected (limit current : ℕ) (pool kept result : List (Neighbor D M)) : Type 1 where
    bounded : length result ≤ limit
    from_pool : (P : Neighbor D M → Type 0) → All P kept → All P pool → All P result
    no_loop : All (λ c. c.id ≢ current) result
    diverse : IsDiverse result
    settled : All (IsSettled limit current result) pool

  select_stop :
      (limit current : ℕ) (x : Neighbor D M) (pool kept : List (Neighbor D M))
      → ltb (length kept) limit ≡ false
      → select lt scale distance alpha limit current (x ∷ pool) kept ≡ kept
  unfolding select
  select_stop limit current x pool kept e = rw (e, select)

  select_skip :
      (limit current : ℕ) (x : Neighbor D M) (pool kept : List (Neighbor D M))
      → ltb (length kept) limit ≡ true
      → (ruled_out lt scale distance alpha kept x || x.id == current) ≡ true
      → select lt scale distance alpha limit current (x ∷ pool) kept
        ≡ select lt scale distance alpha limit current pool kept
  unfolding select
  select_skip limit current x pool kept e f = rw (e, select, f)

  select_keep :
      (limit current : ℕ) (x : Neighbor D M) (pool kept : List (Neighbor D M))
      → ltb (length kept) limit ≡ true
      → (ruled_out lt scale distance alpha kept x || x.id == current) ≡ false
      → select lt scale distance alpha limit current (x ∷ pool) kept
        ≡ select lt scale distance alpha limit current pool (kept ++ x ∷ [])
  unfolding select
  select_keep limit current x pool kept e f = rw (e, select, f)

  select-IsSelected :
      (limit current : ℕ) (pool kept : List (Neighbor D M))
      → length kept ≤ limit
      → All (λ c. c.id ≢ current) kept
      → IsDiverse kept
      → IsSelected limit current pool kept (select lt scale distance alpha limit current pool kept)
  unfolding select
  select-IsSelected limit current [] kept b n d = record {
    bounded = b;
    from_pool = λ P k p. k;
    no_loop = n;
    diverse = d;
    settled = tt;
  }
  select-IsSelected limit current (x ∷ pool) kept b n d =
      elim (Bool-cases (ltb (length kept) limit)) [
        | inr e ↦
            let full : length kept ≡ limit = ground arith in
            subst (IsSelected limit current (x ∷ pool) kept)
              (sym (select_stop limit current x pool kept e))
              (record {
                bounded = b;
                from_pool = λ P k p. k;
                no_loop = n;
                diverse = d;
                settled = always (IsSettled limit current kept) (x ∷ pool) (λ c. inr (inl full));
              })
        | inl e ↦ elim (Bool-cases (ruled_out lt scale distance alpha kept x || x.id == current)) [
          | inl out ↦
              let r = select-IsSelected limit current pool kept b n d in
              let more = select-IsMore limit current pool kept in
              let settled_x : IsSettled limit current
                  (select lt scale distance alpha limit current pool kept) x =
                elim (Bool-cases (x.id == current)) [
                  | inl same ↦ inl (ground arith)
                  | inr other ↦ inr (inr (inl (more.ruled x (ground arith))))
                ] in
              subst (IsSelected limit current (x ∷ pool) kept)
                (sym (select_skip limit current x pool kept e out))
                (record {
                  bounded = r.bounded;
                  from_pool = λ P k p. r.from_pool P k p.1;
                  no_loop = r.no_loop;
                  diverse = r.diverse;
                  settled = (settled_x, r.settled);
                })
          | inr fresh ↦
              let other : x.id ≢ current = λ same. ground (arith, same) in
              let r =
                select-IsSelected limit current pool (kept ++ x ∷ [])
                  (ground (arith, length-append kept (x ∷ [])))
                  (All-append (λ c. c.id ≢ current) kept (x ∷ []) n (other, tt))
                  (IsDiverse-concat kept x (ground arith) d) in
              let more = select-IsMore limit current pool (kept ++ x ∷ []) in
              subst (IsSelected limit current (x ∷ pool) kept)
                (sym (select_keep limit current x pool kept e fresh))
                (record {
                  bounded = r.bounded;
                  from_pool = λ P k p. r.from_pool P (All-append P kept (x ∷ []) k (p.0, tt)) p.1;
                  no_loop = r.no_loop;
                  diverse = r.diverse;
                  settled = (
                    inr (
                        inr
                          (inr (length kept, more.still (length kept) x (get_elem?-last kept x)))),
                    r.settled,
                  );
                })
        ]
      ]

  -- On a pool with candidates, whatever the result held before: the pruning gives at most the number
  -- of neighbors asked for, all from the pool and none the vertex itself, none ruled out by an
  -- earlier one, and a candidate that is not among them is ruled out by one of them, is the vertex
  -- itself, or the result is full.
  pub prune-IsPruned :
      (limit current : ℕ) (x : Neighbor D M) (pool old : List (Neighbor D M))
      → IsPruned limit current
          (x ∷ pool)
          (heuristic_prune_neighbors lt scale distance alpha limit current (x ∷ pool) old)
  prune-IsPruned limit current x pool old =
      let r = select-IsSelected limit current (x ∷ pool) [] (omega arith) tt tt in
      subst (IsPruned limit current (x ∷ pool))
        (sym (prune-eq-select lt scale distance alpha limit current (x ∷ pool) old))
        (record {
          bounded = r.bounded;
          from_pool = λ P p. r.from_pool P tt p;
          no_loop = r.no_loop;
          diverse = r.diverse;
          settled = r.settled;
        })
