-- ===== src/TxPolicy/Fees.antt =====
-- tools/zkmsg/core/src/txpolicy.rs: the price bounds, and the fee policy of the pool.
use native.Mathlib.Nat.{div-mul-le_self}
use stwo_starknet_verifier.Common.{
  ◌-◌, ℕ, ◌+◌, ◌*◌, ◌^◌, ◌<◌, ◌≤◌, ◌≡◌, inl, inr, refl, leb, ltb, Bool-cases, leb→le, le→leb,
  ltb→lt, subst, ensure-eq-ok, ok, arith, min,
}
use stwo_starknet_verifier.TxPolicy.{
  tip, tip_cap, pool_min_gas, gas_price, fee_cap, scale_of, publish, l2_gas_of, Bounds, Prices,
  mul_u128, saturate, div_ceil, round_down_2sf, price_bound, bounds, max_fee, resource_fee,
  price_cap, lowered, div_or_zero, publish_bounds,
}
use stwo_starknet_verifier.TxPolicy.Rounding.{
  HasTwoFigures, round_up_2sf_lem, round_down_2sf_lem, mul_u128_small,
}

-- `div_ceil` by 2 and by 10.
div_ceil-halves : (x : ℕ) → (x ≤ 2 * div_ceil x 2) × (2 * div_ceil x 2 ≤ x + 1)
unfolding div_ceil
div_ceil-halves x = ground arith

div_ceil-tenths : (x : ℕ) → (x ≤ 10 * div_ceil x 10) × (10 * div_ceil x 10 ≤ x + 9)
unfolding div_ceil
div_ceil-tenths x = ground arith

-- The bound for a price p below 2 ^ 120 is at least 3/2 of p and at most (33 p + 11) / 20, and it is
-- a number of at most 100 times a power of ten.
pub price_bound_lem :
    (price : ℕ)
    → price < 2 ^ 120
    → (3 * price ≤ 2 * price_bound price)
      × (20 * price_bound price ≤ 33 * price + 11)
      × HasTwoFigures (price_bound price)
unfolding price_bound
price_bound_lem price h = rw (mul_u128_small price 3 (omega arith)) (
    let half = div_ceil-halves (price * 3) in
    let r = round_up_2sf_lem (div_ceil (price * 3) 2) (omega (arith, half.0, half.1)) in
    (omega (arith, half.0, r.0), omega (arith, half.1, r.0, r.1), r.2))

-- Lowering touches the L2 price only, and keeps it to the cap.
lowered_lem :
    (b : Bounds) (cap : ℕ)
    → ((lowered b cap).l2_gas.max_price_per_unit ≤ min cap b.l2_gas.max_price_per_unit)
      × ((lowered b cap).l2_gas.max_amount ≡ b.l2_gas.max_amount)
      × ((lowered b cap).l1_gas ≡ b.l1_gas)
      × ((lowered b cap).l1_data_gas ≡ b.l1_data_gas)
unfolding lowered round_down_2sf
lowered_lem b cap = elim (Bool-cases (ltb cap b.l2_gas.max_price_per_unit)) [
  | inl over ↦ rw over (
    omega (arith, div-mul-le_self cap (scale_of cap), ltb→lt cap b.l2_gas.max_price_per_unit over),
    refl,
    refl,
    refl,
  )
  | inr under ↦ rw under (ground arith, refl, refl, refl)
]

-- The most that a transaction can be charged: all of each resource at its price, and the tip for
-- each unit of L2 gas.
abbrev pub most_charged : Bounds → ℕ
most_charged b =
    b.l1_gas.max_amount * b.l1_gas.max_price_per_unit
    + b.l2_gas.max_amount * (b.l2_gas.max_price_per_unit + tip)
    + b.l1_data_gas.max_amount * b.l1_data_gas.max_price_per_unit

-- The saturating arithmetic of `max_fee` is exact below the largest u128.
max_fee-most_charged :
    (b : Bounds) (fee : ℕ) → max_fee b tip ≤ fee → fee < 2 ^ 128 - 1 → most_charged b ≤ fee
unfolding max_fee resource_fee saturate
max_fee-most_charged b fee h small = ground arith

-- Bounds that `publish_bounds` returns, for an L2 price below 2 ^ 120 and a maximum fee of the pool
-- below 2 ^ 128 - 1: all of each resource at its price, with the tip for each unit of L2 gas, is at
-- most the pool's maximum. The L2 price is at least 11/10 of the current one and at most the
-- shared bound, the L2 gas is the pool's minimum at least, and the other two resources have the
-- shared bounds.
pub publish_bounds-ok :
    (prices : Prices) (pool_max_fee pool_max_tip pool_min_l2_gas : ℕ) (b : Bounds)
    → prices.l2 < 2 ^ 120
    → pool_max_fee < 2 ^ 128 - 1
    → publish_bounds prices pool_max_fee pool_max_tip pool_min_l2_gas ≡ ok b
    → (most_charged b ≤ pool_max_fee)
      × (11 * prices.l2 ≤ 10 * b.l2_gas.max_price_per_unit)
      × (b.l2_gas.max_price_per_unit ≤ price_bound prices.l2)
      × (pool_min_l2_gas ≤ b.l2_gas.max_amount)
      × (b.l1_gas ≡ (bounds publish prices).l1_gas)
      × (b.l1_data_gas ≡ (bounds publish prices).l1_data_gas)
unfolding publish_bounds bounds l2_gas_of
publish_bounds-ok prices fee max_tip min_gas b h small e =
    let shared = bounds publish prices in
    let low = lowered shared (price_cap shared fee) in
    let l = lowered_lem shared (price_cap shared fee) in
    let e1 = ensure-eq-ok (leb tip max_tip) tip_cap e in
    let e2 = ensure-eq-ok (leb min_gas (l2_gas_of publish)) pool_min_gas e1.1 in
    let e3 =
      ensure-eq-ok (leb (div_ceil (mul_u128 prices.l2 11) 10) low.l2_gas.max_price_per_unit)
        gas_price e2.1 in
    let e4 = ensure-eq-ok (leb (max_fee low tip) fee) fee_cap e3.1 in
    let at_least =
      leb→le (div_ceil (mul_u128 prices.l2 11) 10) low.l2_gas.max_price_per_unit e3.0 in
    let tenths = div_ceil-tenths (mul_u128 prices.l2 11) in
    let same = mul_u128_small prices.l2 11 (omega arith) in
    let returned : low ≡ b = cc in
    subst
      (λ c.
        (most_charged c ≤ fee)
        × (11 * prices.l2 ≤ 10 * c.l2_gas.max_price_per_unit)
        × (c.l2_gas.max_price_per_unit ≤ price_bound prices.l2)
        × (min_gas ≤ c.l2_gas.max_amount)
        × (c.l1_gas ≡ shared.l1_gas)
        × (c.l1_data_gas ≡ shared.l1_data_gas))
      returned
      (
        max_fee-most_charged low fee (leb→le (max_fee low tip) fee e4.0) small,
        omega (arith, tenths.0, same, at_least),
        omega (arith, l.0),
        omega (arith, l.1, leb→le min_gas (l2_gas_of publish) e2.0),
        l.2,
        l.3,
      )

-- The L2 price that is left after lowering covers 11/10 of the current one.
lowered-covers :
    (prices : Prices) (cap : ℕ)
    → prices.l2 < 2 ^ 120
    → 11 * prices.l2 + 9 ≤ 9 * cap
    → cap < 2 ^ 128
    → div_ceil (mul_u128 prices.l2 11) 10
      ≤ (lowered (bounds publish prices) cap).l2_gas.max_price_per_unit
unfolding lowered bounds
lowered-covers prices cap h covers small =
    let tenths = div_ceil-tenths (mul_u128 prices.l2 11) in
    let same = mul_u128_small prices.l2 11 (omega arith) in
    let rule = price_bound_lem prices.l2 h in
    let down = round_down_2sf_lem cap small in
    elim (Bool-cases (ltb cap (price_bound prices.l2))) [
      | inl over ↦ rw over (omega (arith, tenths.1, same, down.0, down.1))
      | inr under ↦ rw under (omega (arith, tenths.1, same, rule.0))
    ]

-- The cap is what the pool's maximum leaves, whatever the tip.
price_cap_lem :
    (prices : Prices) (fee : ℕ)
    → prices.l1_data < 2 ^ 112
    → 4096 * price_bound prices.l1_data + 100000000 * tip ≤ fee
    → (100000000 * (price_cap (bounds publish prices) fee + tip) + 4096 * price_bound prices.l1_data
        ≤ fee)
      × (fee
          < 100000000 * (price_cap (bounds publish prices) fee + tip)
            + 4096 * price_bound prices.l1_data
            + 100000000)
unfolding price_cap bounds l2_gas_of div_or_zero
price_cap_lem prices fee h enough =
    let data_price = (price_bound_lem prices.l1_data (omega arith)).1 in
    let same = mul_u128_small 4096 (price_bound prices.l1_data) (omega arith) in
    rw same (omega arith, omega arith)

-- What a publish with some L2 price can cost.
fee_at :
    (l1 l2 l1_data : ℕ) (cap : ℕ)
    → l2 ≤ cap
    → max_fee
        (record {
          l1_gas = record { max_amount = 0; max_price_per_unit = l1 };
          l2_gas = record { max_amount = 100000000; max_price_per_unit = l2 };
          l1_data_gas = record { max_amount = 4096; max_price_per_unit = l1_data };
        })
        tip
      ≤ 100000000 * (cap + tip) + 4096 * l1_data
unfolding max_fee resource_fee saturate
fee_at l1 l2 l1_data cap h = omega arith

lowered-fee :
    (prices : Prices) (cap : ℕ)
    → max_fee (lowered (bounds publish prices) cap) tip
      ≤ 100000000 * (cap + tip) + 4096 * price_bound prices.l1_data
unfolding lowered bounds l2_gas_of round_down_2sf
lowered-fee prices cap =
    let l1 = price_bound prices.l1 in
    let l1_data = price_bound prices.l1_data in
    elim (Bool-cases (ltb cap (price_bound prices.l2))) [
      | inl over ↦
          rw over (fee_at l1 (round_down_2sf cap) l1_data cap (div-mul-le_self cap (scale_of cap)))
      | inr under ↦ rw under (fee_at l1 (price_bound prices.l2) l1_data cap (ground arith))
    ]

-- For an L2 price below 2 ^ 120, an L1 data price below 2 ^ 112 and a pool that admits the shared tip
-- and L2 gas: where the pool's maximum fee has room for the tip, the L1 data gas and any L2 price of
-- at least 11/9 of the current one (9 times it is 9 above 11 times the current one),
-- `publish_bounds` returns bounds.
pub publish_bounds_affordable :
    (prices : Prices) (pool_max_fee pool_max_tip pool_min_l2_gas price : ℕ)
    → prices.l2 < 2 ^ 120
    → prices.l1_data < 2 ^ 112
    → pool_max_fee < 2 ^ 128
    → tip ≤ pool_max_tip
    → pool_min_l2_gas ≤ l2_gas_of publish
    → 11 * prices.l2 + 9 ≤ 9 * price
    → 100000000 * (price + tip) + 4096 * price_bound prices.l1_data ≤ pool_max_fee
    → (b : Bounds) × (publish_bounds prices pool_max_fee pool_max_tip pool_min_l2_gas ≡ ok b)
unfolding publish_bounds
publish_bounds_affordable prices fee max_tip min_gas price h2 hd hf ht hg covers enough =
    let shared = bounds publish prices in
    let cap = price_cap shared fee in
    let low = lowered shared cap in
    let room = price_cap_lem prices fee hd (omega arith) in
    let offered = lowered-covers prices cap h2 (omega arith) (omega arith) in
    let fits : max_fee low tip ≤ fee = omega (arith, lowered-fee prices cap, room.0) in
    (
      low,
      rw
          (
            le→leb tip max_tip ht,
            le→leb min_gas (l2_gas_of publish) hg,
            le→leb (div_ceil (mul_u128 prices.l2 11) 10) low.l2_gas.max_price_per_unit offered,
            le→leb (max_fee low tip) fee fits,
          )
          refl,
    )
