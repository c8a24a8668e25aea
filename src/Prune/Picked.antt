-- ===== src/Prune/Picked.antt =====
-- What the strategies in rounds give, and that they end.
use scalable_vector_search.Neighbor.{Neighbor}
use scalable_vector_search.Neighbor.Distinct.{IsDistinct, IsDistinct-concat}
use scalable_vector_search.Prune.Rounds.{Strategy, mark_behind, prune_round}
use scalable_vector_search.Base.{
  ℕ, ◌≤◌, ◌≡◌, ◌≢◌, ◌⊎◌, inl, inr, refl, sym, ap, ◌∙◌, subst, Bool, true, false, ◌||◌, List, [],
  ◌∷◌, ◌++◌, map, length, ltb, ◌==◌, arith, Bool-cases, All, All-append, length-append,
}

-- What a pruning in rounds promises.
pub record IsPicked {D M : Type 0} (limit current : ℕ) (pool result : List (Neighbor D M))
    : Type 1 where
  pub bounded : length result ≤ limit
  pub from_pool : (P : Neighbor D M → Type 0) → All P pool → All P result
  pub no_loop : All (λ c. c.id ≢ current) result
  pub distinct : IsDistinct result

-- What the strategies share: in the rounds, whose power of alpha is not beyond alpha, the note of a
-- candidate that was picked keeps it out.
pub record IsStrategy {D M : Type 0} (s : Strategy D M) (lt : D → D → Bool) (alpha : D)
    : Type 0 where
  pub out : (power : D) → lt alpha power ≡ false → s.is_out power s.picked ≡ true
  pub marked :
      (power : D) (kept c : Neighbor D M)
      → lt alpha power ≡ false
      → s.mark power kept c s.picked ≡ s.picked
  pub kept_out : s.next_round s.picked ≡ s.picked

module _ {D M : Type 0} (s : Strategy D M) (lt : D → D → Bool) (alpha : D)
    (law : IsStrategy s lt alpha) where
  -- A candidate of the result has the note of one that was picked.
  abbrev pub IsNoted : List (Neighbor D M) → List s.Note → List (Neighbor D M) → Type 0
  IsNoted [] notes result = Unit
  IsNoted (x ∷ pool) [] result = Unit
  IsNoted (x ∷ pool) (n ∷ notes) result =
      ((n ≡ s.picked) ⊎ All (λ c. c.id ≢ x.id) result) × IsNoted pool notes result

  -- The state of a round.
  pub record IsUnderway (limit current : ℕ) (pool : List (Neighbor D M)) (notes : List s.Note)
      (before result : List (Neighbor D M)) : Type 1 where
    pub bounded : length result ≤ limit
    pub from_pool : (P : Neighbor D M → Type 0) → All P before → All P pool → All P result
    pub no_loop : All (λ c. c.id ≢ current) result
    pub distinct : IsDistinct result
    pub noted : IsNoted pool notes result

  IsNoted-mark_behind :
      (power : D) (kept : Neighbor D M) (pool : List (Neighbor D M)) (notes : List s.Note)
      (result : List (Neighbor D M))
      → lt alpha power ≡ false
      → IsNoted pool notes result
      → IsNoted pool (mark_behind s power kept pool notes) result
  unfolding mark_behind
  IsNoted-mark_behind power kept [] notes result within h = tt
  IsNoted-mark_behind power kept (c ∷ pool) [] result within h = tt
  IsNoted-mark_behind power kept (c ∷ pool) (n ∷ notes) result within h = (
    elim h.0 [
      | inl e ↦ inl (ap (s.mark power kept c) e ∙ law.marked power kept c within)
      | inr other ↦ inr other
    ],
    IsNoted-mark_behind power kept pool notes result within h.1,
  )

  pub IsNoted-next_round :
      (pool : List (Neighbor D M)) (notes : List s.Note) (result : List (Neighbor D M))
      → IsNoted pool notes result
      → IsNoted pool (map s.next_round notes) result
  IsNoted-next_round [] notes result h = tt
  IsNoted-next_round (x ∷ pool) [] result h = tt
  IsNoted-next_round (x ∷ pool) (n ∷ notes) result h = (
    elim h.0 [ inl e ↦ inl (ap s.next_round e ∙ law.kept_out) | inr other ↦ inr other ],
    IsNoted-next_round pool notes result h.1,
  )

  IsNoted-concat :
      (pool : List (Neighbor D M)) (notes : List s.Note) (result : List (Neighbor D M))
      (x : Neighbor D M)
      → All (λ y. y.id ≢ x.id) pool
      → IsNoted pool notes result
      → IsNoted pool notes (result ++ x ∷ [])
  IsNoted-concat [] notes result x a h = tt
  IsNoted-concat (y ∷ pool) [] result x a h = tt
  IsNoted-concat (y ∷ pool) (n ∷ notes) result x a h = (
    elim h.0 [
      | inl e ↦ inl e
      | inr other ↦
          inr (All-append (λ c. c.id ≢ y.id) result (x ∷ []) other ((λ e. a.0 (sym e)), tt))
    ],
    IsNoted-concat pool notes result x a.1 h.1,
  )

  pub IsNoted-fresh : (pool : List (Neighbor D M)) (notes : List s.Note) → IsNoted pool notes []
  IsNoted-fresh [] notes = tt
  IsNoted-fresh (x ∷ pool) [] = tt
  IsNoted-fresh (x ∷ pool) (n ∷ notes) = (inr tt, IsNoted-fresh pool notes)

  prune_round_full :
      (power : D) (limit current : ℕ) (x : Neighbor D M) (pool : List (Neighbor D M)) (n : s.Note)
      (notes : List s.Note) (result : List (Neighbor D M))
      → ltb (length result) limit ≡ false
      → prune_round s power limit current (x ∷ pool) (n ∷ notes) result ≡ (n ∷ notes, result)
  unfolding prune_round
  prune_round_full power limit current x pool n notes result e = rw (e, prune_round)

  prune_round_skip :
      (power : D) (limit current : ℕ) (x : Neighbor D M) (pool : List (Neighbor D M)) (n : s.Note)
      (notes : List s.Note) (result : List (Neighbor D M))
      → ltb (length result) limit ≡ true
      → (s.is_out power n || x.id == current) ≡ true
      → prune_round s power limit current (x ∷ pool) (n ∷ notes) result
        ≡ (let r = prune_round s power limit current pool notes result in (n ∷ r.0, r.1))
  unfolding prune_round
  prune_round_skip power limit current x pool n notes result e f = rw (e, prune_round, f)

  prune_round_pick :
      (power : D) (limit current : ℕ) (x : Neighbor D M) (pool : List (Neighbor D M)) (n : s.Note)
      (notes : List s.Note) (result : List (Neighbor D M))
      → ltb (length result) limit ≡ true
      → (s.is_out power n || x.id == current) ≡ false
      → prune_round s power limit current (x ∷ pool) (n ∷ notes) result ≡ (
          let r =
            prune_round s power limit current pool
              (mark_behind s power x pool notes)
              (result ++ x ∷ []) in
          (s.picked ∷ r.0, r.1))
  unfolding prune_round
  prune_round_pick power limit current x pool n notes result e f = rw (e, prune_round, f)

  unfoldable pub Underway :
      ℕ → ℕ → List (Neighbor D M) → List (Neighbor D M) → List s.Note × List (Neighbor D M) → Type 1
  Underway limit current pool before r = IsUnderway limit current pool r.0 before r.1

  pub prune_round-IsUnderway :
      (power : D) (limit current : ℕ) (pool : List (Neighbor D M)) (notes : List s.Note)
      (result : List (Neighbor D M))
      → lt alpha power ≡ false
      → IsDistinct pool
      → IsUnderway limit current pool notes result result
      → Underway limit current pool result (prune_round s power limit current pool notes result)
  unfolding prune_round Underway
  prune_round-IsUnderway power limit current [] notes result within d u = u
  prune_round-IsUnderway power limit current (x ∷ pool) [] result within d u = record {
    bounded = u.bounded;
    from_pool = u.from_pool;
    no_loop = u.no_loop;
    distinct = u.distinct;
    noted = tt;
  }
  prune_round-IsUnderway power limit current (x ∷ pool) (n ∷ notes) result within d u =
      elim (Bool-cases (ltb (length result) limit)) [
        | inr full ↦
            subst (Underway limit current (x ∷ pool) result)
              (sym (prune_round_full power limit current x pool n notes result full)) u
        | inl room ↦ elim (Bool-cases (s.is_out power n || x.id == current)) [
          | inl out ↦
              let r =
                prune_round-IsUnderway power limit current pool notes result within d.1 (record {
                  bounded = u.bounded;
                  from_pool = λ P b p. b;
                  no_loop = u.no_loop;
                  distinct = u.distinct;
                  noted = u.noted.1;
                }) in
              subst (Underway limit current (x ∷ pool) result)
                (sym (prune_round_skip power limit current x pool n notes result room out))
                (record {
                  bounded = r.bounded;
                  from_pool = λ P b p. r.from_pool P b p.1;
                  no_loop = r.no_loop;
                  distinct = r.distinct;
                  noted = (
                    elim u.noted.0 [
                      | inl e ↦ inl e
                      | inr other ↦ inr (r.from_pool (λ c. c.id ≢ x.id) other d.0)
                    ],
                    r.noted,
                  );
                })
          | inr fresh ↦
              let unused : All (λ c. c.id ≢ x.id) result = elim u.noted.0 [
                | inl e ↦ ground (arith, ap (s.is_out power) e, law.out power within)
                | inr other ↦ other
              ] in
              let other : x.id ≢ current = λ same. ground (arith, same) in
              let r =
                prune_round-IsUnderway power limit current pool (mark_behind s power x pool notes)
                  (result ++ x ∷ []) within d.1
                  (record {
                    bounded = ground (arith, length-append result (x ∷ []));
                    from_pool = λ P b p. b;
                    no_loop =
                        All-append (λ c. c.id ≢ current) result (x ∷ []) u.no_loop (other, tt);
                    distinct = IsDistinct-concat result x u.distinct unused;
                    noted =
                        IsNoted-mark_behind power x pool notes (result ++ x ∷ []) within
                          (IsNoted-concat pool notes result x d.0 u.noted.1);
                  }) in
              subst (Underway limit current (x ∷ pool) result)
                (sym (prune_round_pick power limit current x pool n notes result room fresh))
                (record {
                  bounded = r.bounded;
                  from_pool = λ P b p. r.from_pool P (All-append P result (x ∷ []) b (p.0, tt)) p.1;
                  no_loop = r.no_loop;
                  distinct = r.distinct;
                  noted = (inl refl, r.noted);
                })
        ]
      ]
