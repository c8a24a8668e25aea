-- ===== src/Filter/Soundness.antt =====
-- What an answer of the visited filter means.
use mathlib.Core.List.{Memᴰ, reverse, reverse-cons, append-nil, append_assoc}
use scalable_vector_search.Base.Bits.{pow-pos, bit_and_mask}
use scalable_vector_search.Filter.{
  sentinel, filter_capacity, hash, value, check, new_filter, reset, emplace, contains, emplace_all,
}
use native.Mathlib.Nat.{mod-lt, div-add-mod, pow-suc}
use native.Mathlib.Decide.{ℕ_discrete}
use scalable_vector_search.Base.{
  ℕ, zero, suc, ◌+◌, ◌-◌, ◌*◌, ◌/◌, ◌%◌, ◌^◌, ◌<◌, ◌≡◌, ◌≢◌, ◌↔◌, ◌⊎◌, inl, inr, refl, sym, ◌∙◌, ap,
  true, List, [], ◌∷◌, get_or, set, map, replicate, leb, ◌==◌, if◌then◌else◌, arith, length,
  length-set, length-replicate, length-map, Bool-cases, Memᴰ-reverse, subst, ==_iff, ◌++◌,
}

get_or-set_self : (xs : List ℕ) (i v : ℕ) → i < length xs → get_or (set xs i v) i 0 ≡ v
get_or-set_self [] i v h = elim h [ ]
get_or-set_self (x ∷ xs) zero v h = refl
get_or-set_self (x ∷ xs) (suc i) v h = get_or-set_self xs i v (omega arith)

get_or-set_ne : (xs : List ℕ) (i j v : ℕ) → i ≢ j → get_or (set xs i v) j 0 ≡ get_or xs j 0
get_or-set_ne [] i j v h = refl
get_or-set_ne (x ∷ xs) zero zero v h = absurd (h refl)
get_or-set_ne (x ∷ xs) zero (suc j) v h = refl
get_or-set_ne (x ∷ xs) (suc i) zero v h = refl
get_or-set_ne (x ∷ xs) (suc i) (suc j) v h = get_or-set_ne xs i j v (λ e. h (ap suc e))

get_or-replicate : (k i v : ℕ) → i < k → get_or (replicate k v) i 0 ≡ v
get_or-replicate zero i v h = elim h [ ]
get_or-replicate (suc k) zero v h = refl
get_or-replicate (suc k) (suc i) v h = get_or-replicate k i v (omega arith)

get_or-fill : (xs : List ℕ) (i v : ℕ) → i < length xs → get_or (map (λ _. v) xs) i 0 ≡ v
get_or-fill [] i v h = elim h [ ]
get_or-fill (x ∷ xs) zero v h = refl
get_or-fill (x ∷ xs) (suc i) v h = get_or-fill xs i v (omega arith)

pow_wide : (k n : ℕ) → n ≡ k + 16 → 2 ^ n ≡ 2 ^ 16 * 2 ^ k
pow_wide zero n e = let e' : n ≡ 16 = omega arith in rw e' refl
pow_wide (suc k) n e =
    let e' : n ≡ suc (k + 16) = omega arith in
    rw e' (omega (arith, pow-suc 2 (k + 16), pow-suc 2 k, pow_wide k (k + 16) refl))

module _ (n : ℕ) where
  hash_lem : (key : ℕ) → hash n key ≡ key % 2 ^ n
  unfolding hash
  hash_lem key = bit_and_mask n key

  hash-lt : (key : ℕ) → hash n key < filter_capacity n
  unfolding filter_capacity
  hash-lt key = omega (arith, hash_lem key, mod-lt key (pow-pos n))

  check_iff : (key v : ℕ) → (check n key v ≡ true) ↔ (value n key ≡ v)
  unfolding check value
  check_iff key v = ground arith

  -- The slot and the stored value determine the id.
  hash-value-injective : (a b : ℕ) → hash n a ≡ hash n b → value n a ≡ value n b → a ≡ b
  unfolding value
  hash-value-injective a b h v = elim (Bool-cases (leb 16 n)) [
    | inl wide ↦
        let p = pow_wide (n - 16) n (ground arith) in
        omega (
          arith,
          rw wide at v,
          hash_lem a,
          hash_lem b,
          div-add-mod a (2 ^ n),
          div-add-mod b (2 ^ n),
          ap (λ (t : ℕ). t * (a / 2 ^ n)) p,
          ap (λ (t : ℕ). t * (b / 2 ^ n)) p,
        )
    | inr narrow ↦ rw narrow at v
  ]

  -- Each slot is empty or holds the value of an id that was inserted there.
  pub record Tracks (values keys : List ℕ) : Type 0 where
    pub size : length values ≡ filter_capacity n
    pub origin :
        (i : ℕ)
        → i < filter_capacity n
        → (get_or values i 0 ≡ sentinel n)
          ⊎ ((k : ℕ) × Memᴰ k keys × (hash n k ≡ i) × (value n k ≡ get_or values i 0))

  Tracks-new_filter : Tracks (new_filter n) []
  unfolding new_filter
  Tracks-new_filter = record {
    size = length-replicate (filter_capacity n) (sentinel n);
    origin = λ i h. inl (get_or-replicate (filter_capacity n) i (sentinel n) h);
  }

  pub Tracks-reset :
      (values : List ℕ) → length values ≡ filter_capacity n → Tracks (reset n values) []
  unfolding reset
  Tracks-reset values size = record {
    size = length-map values (λ _. sentinel n) ∙ size;
    origin = λ i h. inl (get_or-fill values i (sentinel n) (omega (arith, size)));
  }

  pub Tracks-emplace :
      (values keys : List ℕ) (key : ℕ)
      → Tracks values keys
      → Tracks (emplace n values key).values (key ∷ keys)
  unfolding emplace
  Tracks-emplace values keys key t = record {
    size = length-set values (hash n key) (value n key) ∙ t.size;
    origin = λ i h. elim (ℕ_discrete (hash n key) i) [
      | yes e ↦ inr (
        key,
        Memᴰ.head refl,
        e,
        sym (
            rw (← e) (
              get_or-set_self values (hash n key) (value n key)
                (omega (arith, t.size, hash-lt key)))),
      )
      | no ne ↦ rw (get_or-set_ne values (hash n key) i (value n key) ne) (elim (t.origin i h) [
        | inl empty ↦ inl empty
        | inr (k, m, e, v) ↦ inr (k, Memᴰ.tail m, e, v)
      ])
    ];
  }

  Tracks-emplace_all :
      (values seen keys : List ℕ)
      → Tracks values seen
      → Tracks (emplace_all n values keys) (reverse keys ++ seen)
  unfolding emplace_all
  Tracks-emplace_all values seen [] t = t
  Tracks-emplace_all values seen (key ∷ keys) t =
      rw (reverse-cons key keys, append_assoc)
        (Tracks-emplace_all (emplace n values key).values (key ∷ seen) keys
          (Tracks-emplace values seen key t))

  pub contains-Tracks :
      (values keys : List ℕ) (key : ℕ)
      → Tracks values keys
      → contains n values key ≡ true
      → Memᴰ key keys ⊎ (value n key ≡ sentinel n)
  unfolding contains
  contains-Tracks values keys key t h =
      let stored = (check_iff key (get_or values (hash n key) 0)).0 h in
      elim (t.origin (hash n key) (hash-lt key)) [
        | inl empty ↦ inr (stored ∙ empty)
        | inr (k, m, e, v) ↦
            inl (subst (λ x. Memᴰ x keys) (hash-value-injective k key e (v ∙ sym stored)) m)
      ]

  -- Whatever ids a filter was given, an id that it then reports was one of them, or is one whose
  -- stored value is the mark of an empty slot.
  pub contains-emplace_all :
      (keys : List ℕ) (key : ℕ)
      → contains n (emplace_all n (new_filter n) keys) key ≡ true
      → Memᴰ key keys ⊎ (value n key ≡ sentinel n)
  contains-emplace_all keys key h =
      elim (contains-Tracks (emplace_all n (new_filter n) keys) (reverse keys) key tracked h) [
        | inl m ↦ inl (Memᴰ-reverse key keys m)
        | inr e ↦ inr e
      ]
    where
      tracked : Tracks (emplace_all n (new_filter n) keys) (reverse keys)
      tracked =
          subst (Tracks (emplace_all n (new_filter n) keys)) (append-nil (reverse keys))
            (Tracks-emplace_all (new_filter n) [] keys Tracks-new_filter)

  -- After an insertion the id itself is reported, an id of the same slot is reported exactly if its
  -- value is the one just stored, and the answers for all other slots stay.
  pub contains-emplace :
      (values : List ℕ) (key other : ℕ)
      → length values ≡ filter_capacity n
      → (contains n (emplace n values key).values key ≡ true)
        × (contains n (emplace n values key).values other ≡ (
            if hash n key == hash n other
            then check n other (value n key)
            else contains n values other))
  unfolding contains emplace
  contains-emplace values key other size =
      let kept =
        get_or-set_self values (hash n key) (value n key) (omega (arith, size, hash-lt key)) in
      (
        (check_iff key (get_or (set values (hash n key) (value n key)) (hash n key) 0)).1
            (sym kept),
        elim (ℕ_discrete (hash n key) (hash n other)) [
          | yes e ↦ rw ((==_iff (hash n key) (hash n other)).1 e, ← e, kept)
          | no ne ↦
              rw (get_or-set_ne values (hash n key) (hash n other) (value n key) ne)
                (ground (arith, ne))
        ],
      )

  -- A filter that was just reset already reports an id, exactly if the id's stored value is the
  -- mark of an empty slot.
  pub contains-reset :
      (values : List ℕ) (key : ℕ)
      → length values ≡ filter_capacity n
      → (contains n (reset n values) key ≡ true) ↔ (value n key ≡ sentinel n)
  unfolding contains reset
  contains-reset values key size =
      rw (get_or-fill values (hash n key) (sentinel n) (omega (arith, size, hash-lt key)))
        (check_iff key (sentinel n))

-- At sixteen index bits, the ids below the last 2 ^ 16 are not mistaken for empty slots.
pub value-ne-sentinel : (key : ℕ) → key < 2 ^ 32 - 2 ^ 16 → value 16 key ≢ sentinel 16
unfolding value sentinel
value-ne-sentinel key h e = absurd (omega arith)

-- `emplace` reports what `contains` would.
pub emplace-present :
    (n : ℕ) (values : List ℕ) (key : ℕ) → (emplace n values key).present ≡ contains n values key
unfolding emplace contains
emplace-present n values key = refl
