-- ===== src/SearchBuffer/Setup.antt =====
-- The configurations of a search buffer, and the operations that set its sizes.
use scalable_vector_search.Neighbor.{SearchNeighbor}
use scalable_vector_search.Candidates.Slots.{take-min}
use scalable_vector_search.SearchBuffer.{
  SearchBuffer, SearchBufferConfig, make_buffer, resize, config, visited_set_enabled, shallow_copy,
  change_maxsize, change_config, view,
}
use scalable_vector_search.SearchBuffer.Insert.{IsShaped}
use scalable_vector_search.Base.{
  ℕ, zero, suc, ◌+◌, ◌-◌, ◌≤◌, ◌≡◌, inl, inr, refl, ap, ◌∙◌, Bool, List, [], ◌∷◌, ◌++◌, take,
  length, replicate, length-replicate, length-append, length-take, min, arith, Bool-cases, ◌↔◌,
}

-- The sizes of a configuration that passes the check.
abbrev pub IsProper : SearchBufferConfig → Type 0
IsProper c = c.search_window_size ≤ c.total_capacity

length-resize : {A : Type 0} → (blank : A) (n : ℕ) (xs : List A) → length (resize blank n xs) ≡ n
unfolding resize
length-resize blank n xs = omega (
  arith,
  length-append (take n xs) (replicate (n - length xs) blank),
  length-take n xs,
  length-replicate (n - length xs) blank,
)

take_front :
    {A : Type 0}
    → (j n : ℕ) (xs ys : List A) → j ≤ n
    → j ≤ length xs
    → take j (take n xs ++ ys) ≡ take j xs
take_front zero n xs ys h k = refl
take_front (suc j) zero xs ys h k = absurd (omega arith)
take_front (suc j) (suc n) [] ys h k = absurd (omega arith)
take_front (suc j) (suc n) (x ∷ xs) ys h k =
    ap (◌∷◌ x) (take_front j n xs ys (omega arith) (omega arith))

module _ {D : Type 0} where
  -- What is promised of a new buffer.
  pub record IsNew (c : SearchBufferConfig) (enabled : Bool) (b : SearchBuffer D) : Type 0 where
    pub shaped : IsShaped b
    pub configured : config b ≡ c
    pub empty : view b ≡ []
    pub filter : visited_set_enabled b ≡ enabled

  -- A buffer of a proper configuration has its sizes, no candidates and the visited filter that was
  -- asked for.
  pub make_buffer-IsNew :
      (blank : SearchNeighbor D) (c : SearchBufferConfig) (enabled : Bool)
      → IsProper c
      → IsNew c enabled (make_buffer blank c enabled)
  unfolding make_buffer config view visited_set_enabled
  make_buffer-IsNew blank c enabled h = record {
    shaped = record {
      slots = length-replicate (c.total_capacity + 1) blank;
      fits = omega arith;
      window = h;
    };
    configured = refl;
    empty = refl;
    filter = elim (Bool-cases enabled) [ inl e ↦ rw e | inr e ↦ rw e ];
  }

  -- A shallow copy of a buffer of the right sizes has its configuration, no candidates, and a filter if it has one.
  pub shallow_copy-IsNew :
      (blank : SearchNeighbor D) (b : SearchBuffer D)
      → IsShaped b
      → IsNew (config b) (visited_set_enabled b) (shallow_copy blank b)
  unfolding shallow_copy config
  shallow_copy-IsNew blank b w = make_buffer-IsNew blank (config b) (visited_set_enabled b) w.window

  -- On a buffer of the right sizes, a change of the size leaves the sizes right and keeps the
  -- candidates that fit.
  pub change_maxsize-IsShaped :
      (blank : SearchNeighbor D) (size : ℕ) (b : SearchBuffer D)
      → IsShaped b
      → IsShaped (change_maxsize blank size b)
        × (view (change_maxsize blank size b) ≡ take size (view b))
  unfolding change_maxsize view resize
  change_maxsize-IsShaped blank size b w = (
    record {
      slots = length-resize blank (size + 1) b.candidates;
      fits = omega arith;
      window = omega arith;
    },
    take_front (min b.size size) (size + 1) b.candidates
          (replicate (size + 1 - length b.candidates) blank) (omega arith)
          (omega (arith, w.slots, w.fits))
        ∙ take-min b.size size b.candidates,
  )

  -- A change to a proper configuration leaves the sizes right exactly if the capacity holds the
  -- candidates in use.
  pub change_config-IsShaped :
      (blank : SearchNeighbor D) (c : SearchBufferConfig) (b : SearchBuffer D)
      → IsProper c
      → IsShaped (change_config blank c b) ↔ (b.size ≤ c.total_capacity)
  unfolding change_config
  change_config-IsShaped blank c b h = (
    λ w. w.fits,
    λ k. record {
      slots = length-resize blank (c.total_capacity + 1) b.candidates;
      fits = k;
      window = h;
    },
  )
