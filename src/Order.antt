-- ===== src/Order.antt =====
-- The comparison functors of the distances (`std::less`, `std::greater`): a Boolean test on the
-- type of distances, which for floats other than NaN is a strict weak order.
use scalable_vector_search.Base.{◌≡◌, Bool, true, false, Bool-cases, arith, inl, inr, ltb}

pub record IsStrictWeak {D : Type 0} (lt : D → D → Bool) : Type 0 where
  pub asym : (a b : D) → lt a b ≡ true → lt b a ≡ false
  pub neg_trans : (a b c : D) → lt a b ≡ false → lt b c ≡ false → lt a c ≡ false

module _ {D : Type 0} (lt : D → D → Bool) (order : IsStrictWeak lt) where
  pub lt_irrefl : (a : D) → lt a a ≡ false
  lt_irrefl a = elim (Bool-cases (lt a a)) [ inl e ↦ order.asym a a e | inr e ↦ e ]

  pub lt_trans : (a b c : D) → lt a b ≡ true → lt b c ≡ true → lt a c ≡ true
  lt_trans a b c p q = elim (Bool-cases (lt a c)) [
    | inl e ↦ e
    | inr e ↦ ground (arith, order.neg_trans a c b e (order.asym b c q))
  ]

  -- a < b ≤ c gives a < c, and a ≤ b < c gives a < c.
  pub lt-of_lt_of_le : (a b c : D) → lt a b ≡ true → lt c b ≡ false → lt a c ≡ true
  lt-of_lt_of_le a b c p q = elim (Bool-cases (lt a c)) [
    | inl e ↦ e
    | inr e ↦ ground (arith, order.neg_trans a c b e q)
  ]

  pub lt-of_le_of_lt : (a b c : D) → lt b a ≡ false → lt b c ≡ true → lt a c ≡ true
  lt-of_le_of_lt a b c p q = elim (Bool-cases (lt a c)) [
    | inl e ↦ e
    | inr e ↦ ground (arith, order.neg_trans b a c p e)
  ]

-- The order of whole numbers, for the tests.
pub ltb-IsStrictWeak : IsStrictWeak ltb
ltb-IsStrictWeak = record { asym = λ a b h. ground arith; neg_trans = λ a b c p q. ground arith }
