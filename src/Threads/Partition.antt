-- ===== src/Threads/Partition.antt =====
-- The ranges of a team's threads are a partition of the whole range, as even as can be.
use native.Mathlib.Nat.{div-add-mod, mod-lt}
use scalable_vector_search.Threads.{unit_range, div_round_up, balance, range_size}
use scalable_vector_search.Base.{
  ℕ, zero, suc, ◌+◌, ◌-◌, ◌*◌, ◌/◌, ◌%◌, ◌≤◌, ◌<◌, ◌≡◌, ◌≢◌, refl, sym, ap, ◌∙◌, subst, true, false,
  not, ◌||◌, ltb, leb, ◌==◌, if◌then◌else◌, min, arith, inl, inr, Bool-cases, ◌⊎◌, dec_lt,
  ℕ_discrete,
}

-- Where the range of a thread starts: the first n % nthreads threads have one element more.
abbrev pub bound : ℕ → ℕ → ℕ → ℕ
bound n nthreads tid = n / nthreads * tid + min tid (n % nthreads)

pred-mul : (a k : ℕ) → 0 < a → (a - 1) * k + k ≡ a * k
pred-mul zero k h = absurd (omega arith)
pred-mul (suc a) k h = let less : suc a - 1 ≡ a = omega arith in rw less (omega arith)

mul_sub_add : (a b c : ℕ) → c ≤ b → a * (b - c) + a * c ≡ a * b
mul_sub_add a b c h =
    let whole : c + (b - c) ≡ b = omega arith in omega (arith, ap (λ t. a * t) whole)

module _ (n nthreads : ℕ) (team : 0 < nthreads) where
  abbrev q : ℕ
  q = n / nthreads

  abbrev r : ℕ
  r = n % nthreads

  split : nthreads * q + r ≡ n
  split = div-add-mod n nthreads

  r-lt : r < nthreads
  r-lt = mod-lt n team

  bound-suc :
      (tid : ℕ)
      → bound n nthreads (tid + 1) ≡ bound n nthreads tid + q + (if ltb tid r then 1 else 0)
  bound-suc tid = ground arith

  bound_end : bound n nthreads nthreads ≡ n
  bound_end = omega (arith, split, r-lt)

  bound_mono : (a d : ℕ) → bound n nthreads a ≤ bound n nthreads (a + d)
  bound_mono a zero = omega arith
  bound_mono a (suc d) = ground (arith, bound_mono a d, bound-suc (a + d))

  bound_le : (tid : ℕ) → tid ≤ nthreads → bound n nthreads tid ≤ n
  bound_le tid h =
      subst (λ t. bound n nthreads tid ≤ t) bound_end
        (subst (λ t. bound n nthreads tid ≤ bound n nthreads t) (omega arith)
          (bound_mono tid (nthreads - tid)))

  -- `balance` from its batch size and the number of threads that use it.
  balance-shared :
      (tid b1 team1 : ℕ)
      → (leb nthreads 1 || n == 0) ≡ false
      → div_round_up n nthreads ≡ b1
      → n - (b1 - 1) * nthreads ≡ team1
      → let start = if ltb tid team1 then b1 * tid else b1 * team1 + (b1 - 1) * (tid - team1) in
        balance n nthreads tid
        ≡ unit_range start (min (start + (if ltb tid team1 then b1 else b1 - 1)) n)
  unfolding balance
  balance-shared tid b1 team1 h e f = rw (h, balance, e, f)

  div_round_up-lem : div_round_up n nthreads ≡ q + (if not (r == 0) then 1 else 0)
  unfolding div_round_up
  div_round_up-lem = refl

  range-eq : (a b c d : ℕ) → a ≡ c → b ≡ d → c ≤ d → unit_range a b ≡ record { start = c; stop = d }
  unfolding unit_range
  range-eq a b c d e f h = ground arith

  positive_q : 1 < nthreads → n ≢ 0 → r ≡ 0 → 0 < q
  positive_q h k e = elim (dec_lt 0 q) [
    | yes p ↦ p
    | no p ↦
        let zero_q : q ≡ 0 = omega arith in absurd (k (sym split ∙ (rw (zero_q, e) (omega arith))))
  ]

  balance_even :
      (tid : ℕ)
      → tid < nthreads
      → (leb nthreads 1 || n == 0) ≡ false
      → r ≡ 0
      → balance n nthreads tid
        ≡ record { start = bound n nthreads tid; stop = bound n nthreads (tid + 1) }
  balance_even tid h shared even =
      let positive : 0 < q = positive_q (ground arith) (ground arith) even in
      let all : n - (q - 1) * nthreads ≡ nthreads =
        omega (arith, split, pred-mul q nthreads positive) in
      let within : ltb tid nthreads ≡ true = ground arith in
      balance-shared tid q nthreads shared (ground (arith, div_round_up-lem)) all
      ∙ rw within (
          range-eq (q * tid) (min (q * tid + q) n) (bound n nthreads tid)
            (bound n nthreads (tid + 1)) (omega arith)
            (omega (arith, bound_le (tid + 1) (omega arith))) (bound_mono tid 1))

  balance_odd :
      (tid : ℕ)
      → tid < nthreads
      → (leb nthreads 1 || n == 0) ≡ false
      → 0 < r
      → balance n nthreads tid
        ≡ record { start = bound n nthreads tid; stop = bound n nthreads (tid + 1) }
  balance_odd tid h shared odd =
      let less : q + 1 - 1 ≡ q = omega arith in
      let some_left : n - (q + 1 - 1) * nthreads ≡ r = rw less (omega (arith, split)) in
      balance-shared tid (q + 1) r shared (ground (arith, div_round_up-lem)) some_left
      ∙ elim (dec_lt tid r) [
        | yes more ↦
            let e : ltb tid r ≡ true = ground arith in
            rw e (
              range-eq ((q + 1) * tid) (min ((q + 1) * tid + (q + 1)) n) (bound n nthreads tid)
                (bound n nthreads (tid + 1)) (omega arith)
                (omega (arith, bound_le (tid + 1) (omega arith))) (bound_mono tid 1))
        | no rest ↦
            let e : ltb tid r ≡ false = ground arith in
            let here : (q + 1) * r + (q + 1 - 1) * (tid - r) ≡ q * tid + r =
              rw less (omega (arith, mul_sub_add q tid r (omega arith))) in
            rw e (
              range-eq ((q + 1) * r + (q + 1 - 1) * (tid - r))
                (min ((q + 1) * r + (q + 1 - 1) * (tid - r) + (q + 1 - 1)) n) (bound n nthreads tid)
                (bound n nthreads (tid + 1)) (omega (arith, here))
                (omega (arith, here, bound_le (tid + 1) (omega arith))) (bound_mono tid 1))
      ]

  -- The range of every thread of a team, in closed form.
  pub balance-bound :
      (tid : ℕ)
      → tid < nthreads
      → balance n nthreads tid
        ≡ record { start = bound n nthreads tid; stop = bound n nthreads (tid + 1) }
  unfolding balance
  balance-bound tid h = elim (Bool-cases (leb nthreads 1 || n == 0)) [
    | inl whole ↦
        let last : n ≡ bound n nthreads (tid + 1) = elim (ℕ_discrete (tid + 1) nthreads) [
          | yes e ↦ sym (subst (λ t. bound n nthreads t ≡ n) (sym e) bound_end)
          | no ne ↦ ground (arith, ne, bound_le (tid + 1) (omega arith))
        ] in
        rw (whole, balance)
          (range-eq 0 n (bound n nthreads tid) (bound n nthreads (tid + 1))
            (ground (arith, split, r-lt)) last (bound_mono tid 1))
    | inr shared ↦ elim (dec_lt 0 r) [
      | yes odd ↦ balance_odd tid h shared odd
      | no even ↦ balance_even tid h shared (omega arith)
    ]
  ]

  -- Some thread's range has a place that is before the bound of a thread.
  find-range :
      (i k : ℕ)
      → i < bound n nthreads k
      → (tid : ℕ) × (tid < k) × (bound n nthreads tid ≤ i) × (i < bound n nthreads (tid + 1))
  find-range i zero h = absurd (omega arith)
  find-range i (suc k) h = elim (dec_lt i (bound n nthreads k)) [
    | yes before ↦
        let (tid, below, from, to) = find-range i k before in (tid, omega arith, from, to)
    | no after ↦
        let next : suc k ≡ k + 1 = omega arith in
        (k, omega arith, omega arith, subst (λ t. i < bound n nthreads t) next h)
  ]

  bound-lt : (i a b : ℕ) → bound n nthreads a ≤ i → i < bound n nthreads b → a < b
  bound-lt i a b h k = elim (dec_lt a b) [
    | yes p ↦ p
    | no p ↦
        let e : b + (a - b) ≡ a = omega arith in
        absurd (
          omega
            (arith, subst (λ t. bound n nthreads b ≤ bound n nthreads t) e (bound_mono b (a - b))))
  ]

  -- For a team of at least one thread, every index below n lies in the range of exactly one thread.
  pub balance-one :
      (i : ℕ)
      → i < n
      → (tid : ℕ) × (tid < nthreads)
        × ((balance n nthreads tid).start ≤ i)
        × (i < (balance n nthreads tid).stop)
        × ((other : ℕ)
            → other < nthreads
            → (balance n nthreads other).start ≤ i
            → i < (balance n nthreads other).stop
            → other ≡ tid)
  balance-one i h =
      let (tid, below, from, to) = find-range i nthreads (omega (arith, bound_end)) in
      let mine = balance-bound tid below in
      (
        tid,
        below,
        rw mine from,
        rw mine to,
        λ other below' from' to'.
            let theirs = balance-bound other below' in
            let from2 : bound n nthreads other ≤ i = rw theirs at from' in
            let to2 : i < bound n nthreads (other + 1) = rw theirs at to' in
            omega (arith, bound-lt i other (tid + 1) from2 to, bound-lt i tid (other + 1) from to2),
      )

  -- The ranges of a team follow each other from 0 to n, and their sizes differ by one at most.
  pub record IsPartition : Type 0 where
    pub from_zero : (balance n nthreads 0).start ≡ 0
    pub to_end : (balance n nthreads (nthreads - 1)).stop ≡ n
    pub adjacent :
        (tid : ℕ)
        → tid + 1 < nthreads
        → (balance n nthreads tid).stop ≡ (balance n nthreads (tid + 1)).start
    pub even :
        (tid : ℕ)
        → tid < nthreads
        → (range_size (balance n nthreads tid) ≡ n / nthreads)
          ⊎ (range_size (balance n nthreads tid) ≡ n / nthreads + 1)

  -- For a team of at least one thread, the ranges of its threads follow each other from 0 to n, and
  -- each has n / nthreads elements or one more.
  pub balance-IsPartition : IsPartition
  unfolding range_size
  balance-IsPartition = record {
    from_zero = rw (balance-bound 0 (omega arith)) (omega arith);
    to_end =
        let last : nthreads - 1 + 1 ≡ nthreads = omega arith in
        rw (balance-bound (nthreads - 1) (omega arith), last) bound_end;
    adjacent = λ tid h. rw (balance-bound tid (omega arith), balance-bound (tid + 1) h);
    even = λ tid h. rw (balance-bound tid h) (ground (arith, bound-suc tid));
  }
