-- ===== src/Neighbor/Totality.antt =====
-- `TotalOrder` of include/svs/lib/neighbor.h orders neighbors of distinct ids totally.
use scalable_vector_search.Base.{◌<◌, ◌≡◌, ◌⊎◌, Bool, true, false, ltb, arith}
use scalable_vector_search.Order.{IsStrictWeak, lt_irrefl, lt_trans, lt-of_lt_of_le, lt-of_le_of_lt}
use scalable_vector_search.Neighbor.{Neighbor, total_order}

-- A relation that orders neighbors by their distances, those of equivalent distances by their ids, and
-- leaves only neighbors without an order that agree in both.
pub record IsTotalOrder {D M : Type 0} (lt : D → D → Bool) (r : Neighbor D M → Neighbor D M → Bool)
    : Type 0 where
  pub by_distance : (x y : Neighbor D M) → lt x.distance y.distance ≡ true → r x y ≡ true
  pub by_id :
      (x y : Neighbor D M)
      → lt x.distance y.distance ≡ false
      → lt y.distance x.distance ≡ false
      → x.id < y.id
      → r x y ≡ true
  pub irreflexive : (x : Neighbor D M) → r x x ≡ false
  pub transitive : (x y z : Neighbor D M) → r x y ≡ true → r y z ≡ true → r x z ≡ true
  pub total :
      (x y : Neighbor D M)
      → (r x y ≡ true) × (r y x ≡ false)
        ⊎ (r x y ≡ false) × (r y x ≡ true)
        ⊎ (x.id ≡ y.id) × (lt x.distance y.distance ≡ false) × (lt y.distance x.distance ≡ false)

module _ {D M : Type 0} (lt : D → D → Bool) (order : IsStrictWeak lt) where
  total_order-total :
      (x y : Neighbor D M)
      → (total_order lt x y ≡ true) × (total_order lt y x ≡ false)
        ⊎ (total_order lt x y ≡ false) × (total_order lt y x ≡ true)
        ⊎ (x.id ≡ y.id) × (lt x.distance y.distance ≡ false) × (lt y.distance x.distance ≡ false)
  unfolding total_order
  total_order-total x y =
      ground (arith, order.asym x.distance y.distance, order.asym y.distance x.distance)

  total_order_trans :
      (x y z : Neighbor D M)
      → total_order lt x y ≡ true
      → total_order lt y z ≡ true
      → total_order lt x z ≡ true
  unfolding total_order
  total_order_trans x y z h k = ground (
    arith,
    lt_trans lt order x.distance y.distance z.distance,
    lt-of_lt_of_le lt order x.distance y.distance z.distance,
    lt-of_le_of_lt lt order x.distance y.distance z.distance,
    order.neg_trans x.distance y.distance z.distance,
    order.neg_trans z.distance y.distance x.distance,
  )

  -- For distances in a strict weak order, the total order of neighbors goes by distance, at equivalent
  -- distances to the smaller id first, is irreflexive and transitive, and of two neighbors exactly one
  -- comes first unless their ids are equal and neither distance is smaller.
  pub total_order-IsTotalOrder : IsTotalOrder {M = M} lt (total_order lt)
  unfolding total_order
  total_order-IsTotalOrder = record {
    by_distance = λ x y h. rw h;
    by_id =
        λ x y h k small. let smaller : ltb x.id y.id ≡ true = ground arith in rw (h, k, smaller);
    irreflexive = λ x.
        let same : ltb x.id x.id ≡ false = ground arith in rw (lt_irrefl lt order x.distance, same);
    transitive = total_order_trans;
    total = total_order-total;
  }
