-- ===== src/TxPolicy/Tests.antt =====
-- Runs of tools/zkmsg/core/src/txpolicy.rs at prices of a Sepolia block.
use stwo_starknet_verifier.Common.{◌+◌, ◌*◌, ◌%◌, ◌^◌, ◌≤◌, ◌≡◌, refl, ok, arith}
use stwo_starknet_verifier.TxPolicy.{
  publish, Bounds, Prices, price_bound, bounds, max_fee, publish_bounds, base_block, publish_after,
  round_up_2sf, round_down_2sf, div_ceil, scale_from, mul_u128, lowered, price_cap, div_or_zero,
  l2_gas_of, resource_fee, saturate,
}
use stwo_starknet_verifier.TxPolicy.Rounding.{HasTwoFigures}
use stwo_starknet_verifier.TxPolicy.Fees.{
  most_charged, price_bound_lem, publish_bounds-ok, publish_bounds_affordable,
}
use stwo_starknet_verifier.TxPolicy.Schedule.{publish_after-base_block}

-- 1,234,567 · 3/2 rounds up to 1,900,000.
price_bound_runs : price_bound 1234567 ≡ 1900000
unfolding price_bound round_up_2sf div_ceil scale_from mul_u128
price_bound_runs = refl

price_bound_lem_example :
    (3 * 1234567 ≤ 2 * price_bound 1234567)
    × (20 * price_bound 1234567 ≤ 33 * 1234567 + 11)
    × HasTwoFigures (price_bound 1234567)
price_bound_lem_example = price_bound_lem 1234567 (omega arith)

abbrev block_prices : Prices
block_prices = record { l1 = 5000; l2 = 8000000000; l1_data = 1000 }

-- The shared rule offers 12,000,000,000; a ticket of 10 ^ 18 pays 9,800,000,000 at most.
abbrev offered_bounds : Bounds
offered_bounds = record {
  l1_gas = record { max_amount = 0; max_price_per_unit = 7500 };
  l2_gas = record { max_amount = 100000000; max_price_per_unit = 9800000000 };
  l1_data_gas = record { max_amount = 4096; max_price_per_unit = 1500 };
}

publish_bounds_runs : publish_bounds block_prices (10 ^ 18) (10 ^ 9) (10 ^ 8) ≡ ok offered_bounds
unfolding publish_bounds lowered price_cap div_or_zero bounds price_bound round_up_2sf
    round_down_2sf div_ceil scale_from mul_u128 l2_gas_of max_fee resource_fee saturate
publish_bounds_runs = refl

publish_bounds-ok_example :
    (most_charged offered_bounds ≤ 10 ^ 18)
    × (11 * 8000000000 ≤ 10 * 9800000000)
    × (9800000000 ≤ price_bound 8000000000)
    × (10 ^ 8 ≤ 100000000)
    × (offered_bounds.l1_gas ≡ (bounds publish block_prices).l1_gas)
    × (offered_bounds.l1_data_gas ≡ (bounds publish block_prices).l1_data_gas)
publish_bounds-ok_example =
    publish_bounds-ok block_prices (10 ^ 18) (10 ^ 9) (10 ^ 8) offered_bounds (omega arith)
      (omega arith) publish_bounds_runs

publish_bounds_affordable_example :
    (b : Bounds) × (publish_bounds block_prices (10 ^ 18) (10 ^ 9) (10 ^ 8) ≡ ok b)
unfolding price_bound round_up_2sf div_ceil scale_from mul_u128 l2_gas_of
publish_bounds_affordable_example =
    publish_bounds_affordable block_prices (10 ^ 18) (10 ^ 9) (10 ^ 8) 9800000000 (omega arith)
      (omega arith) (omega arith) (omega arith) (omega arith) (omega arith) (omega arith)

publish_after-base_block_example :
    (base_block 16257334 % 32 ≡ 0)
    × (base_block 16257334 + 10 ≤ 16257334)
    × (16257334 ≤ base_block 16257334 + 41)
    × (base_block 16257334 + 90 ≤ publish_after (base_block 16257334) 7)
    × (publish_after (base_block 16257334) 7 ≤ base_block 16257334 + 110)
    × (16257334 + 49 ≤ publish_after (base_block 16257334) 7)
    × (publish_after (base_block 16257334) 7 ≤ 16257334 + 100)
publish_after-base_block_example = publish_after-base_block 16257334 7 (omega arith) (omega arith)
