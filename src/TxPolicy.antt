-- ===== src/TxPolicy.antt =====
-- tools/zkmsg/core/src/txpolicy.rs: the shape of every transaction. `Bounds` is that of
-- invoke_v3.rs. A product of two u128 keeps its wrap-around; saturating ones stop at 2 ^ 128 - 1.

pub mod Rounding
pub mod Fees
pub mod Schedule
mod Tests
use stwo_starknet_verifier.Common.{
  ℕ, zero, suc, ◌+◌, ◌-◌, ◌*◌, ◌/◌, ◌%◌, ◌^◌, min, Bool, ◌==◌, if◌then◌else◌, leb, ltb, Result, ok,
  err, ◌>>=◌, ◌>>◌, ensure,
}

-- `TIP`
abbrev pub tip : ℕ
tip = 100000000

-- `L1_DATA_GAS`
abbrev pub l1_data_gas_amount : ℕ
l1_data_gas_amount = 4096

pub data TxKind : Type 0 where
  publish register buy_tickets transfer : TxKind

-- `TxKind::l2_gas`
unfoldable pub l2_gas_of : TxKind → ℕ
l2_gas_of publish = 100000000
l2_gas_of register = 30000000
l2_gas_of buy_tickets = 80000000
l2_gas_of transfer = 10000000

-- `ResourceBounds` and `Bounds` of invoke_v3.rs
pub record ResourceBounds : Type 0 where
  pub max_amount : ℕ
  pub max_price_per_unit : ℕ

pub record Bounds : Type 0 where
  pub l1_gas : ResourceBounds
  pub l2_gas : ResourceBounds
  pub l1_data_gas : ResourceBounds

-- The product of two u128, which wraps, and `saturating_mul` and `saturating_add`.
unfoldable pub mul_u128 : ℕ → ℕ → ℕ
mul_u128 a b = a * b % 2 ^ 128

unfoldable pub saturate : ℕ → ℕ
saturate a = min a (2 ^ 128 - 1)

-- `u128::div_ceil`
unfoldable pub div_ceil : ℕ → ℕ → ℕ
div_ceil a b = if a % b == 0 then a / b else a / b + 1

-- The loop of both roundings, for so many rounds at most.
unfoldable pub scale_from : ℕ → ℕ → ℕ → ℕ
scale_from zero x scale = scale
scale_from (suc rounds) x scale =
    let larger = scale_from rounds x (scale * 10) in if leb 100 (x / scale) then larger else scale

-- A u128 is below 100 · 10 ^ 37.
abbrev pub scale_rounds : ℕ
scale_rounds = 37

abbrev pub scale_of : ℕ → ℕ
scale_of x = scale_from scale_rounds x 1

-- `round_up_2sf`
unfoldable pub round_up_2sf : ℕ → ℕ
round_up_2sf x = mul_u128 (div_ceil x (scale_of x)) (scale_of x)

-- `round_down_2sf`
unfoldable pub round_down_2sf : ℕ → ℕ
round_down_2sf x = x / scale_of x * scale_of x

-- `price_bound`
unfoldable pub price_bound : ℕ → ℕ
price_bound price = round_up_2sf (div_ceil (mul_u128 price 3) 2)

-- The prices `(l1, l2, l1_data)` of a block.
pub record Prices : Type 0 where
  pub l1 : ℕ
  pub l2 : ℕ
  pub l1_data : ℕ

-- `bounds`
unfoldable pub bounds : TxKind → Prices → Bounds
bounds kind prices = record {
  l1_gas = record { max_amount = 0; max_price_per_unit = price_bound prices.l1 };
  l2_gas = record { max_amount = l2_gas_of kind; max_price_per_unit = price_bound prices.l2 };
  l1_data_gas = record {
    max_amount = l1_data_gas_amount;
    max_price_per_unit = price_bound prices.l1_data;
  };
}

-- What one resource can cost.
unfoldable pub resource_fee : ResourceBounds → ℕ
resource_fee b = saturate (b.max_amount * b.max_price_per_unit)

-- `max_fee`
unfoldable pub max_fee : Bounds → ℕ → ℕ
max_fee b a_tip =
    let l1 = saturate (0 + resource_fee b.l1_gas) in
    let l1_l2 = saturate (l1 + resource_fee b.l2_gas) in
    let all = saturate (l1_l2 + resource_fee b.l1_data_gas) in
    saturate (all + saturate (b.l2_gas.max_amount * a_tip))

pub data Error : Type 0 where
  -- "the shared tip exceeds the pool's tip cap"
  tip_cap : Error
  -- "the pool wants at least … L2 gas"
  pool_min_gas : Error
  -- "L2 gas costs … fri now; a ticket covers at most …"
  gas_price : Error
  -- "publish bounds exceed the pool's fee cap"
  fee_cap : Error

-- `checked_div(…).unwrap_or(0)`
unfoldable pub div_or_zero : ℕ → ℕ → ℕ
div_or_zero a b = if b == 0 then 0 else a / b

-- The most that `publish_bounds` may offer for a unit of L2 gas.
unfoldable pub price_cap : Bounds → ℕ → ℕ
price_cap b pool_max_fee =
    let l1_data = mul_u128 l1_data_gas_amount b.l1_data_gas.max_price_per_unit in
    div_or_zero (pool_max_fee - l1_data) b.l2_gas.max_amount - tip

-- The bounds with the L2 price lowered to what the cap allows.
unfoldable pub lowered : Bounds → ℕ → Bounds
lowered b cap =
    if ltb cap b.l2_gas.max_price_per_unit
    then record b { l2_gas = record b.l2_gas { max_price_per_unit = round_down_2sf cap } }
    else b

-- `publish_bounds`
unfoldable pub publish_bounds : Prices → ℕ → ℕ → ℕ → Result Error Bounds
publish_bounds prices pool_max_fee pool_max_tip pool_min_l2_gas = do
  ensure (leb tip pool_max_tip) tip_cap
  ensure (leb pool_min_l2_gas (l2_gas_of publish)) pool_min_gas
  let shared = bounds publish prices
  let b = lowered shared (price_cap shared pool_max_fee)
  ensure (leb (div_ceil (mul_u128 prices.l2 11) 10) b.l2_gas.max_price_per_unit) gas_price
  ensure (leb (max_fee b tip) pool_max_fee) fee_cap
  ok b

-- `BASE_ROUND`, `BASE_MIN_AGE`, `PUBLISH_DELAY` and `PUBLISH_JITTER`
abbrev pub base_round : ℕ
base_round = 32

abbrev pub base_min_age : ℕ
base_min_age = 10

abbrev pub publish_delay : ℕ
publish_delay = 90

abbrev pub publish_jitter : ℕ
publish_jitter = 20

-- `base_block`
unfoldable pub base_block : ℕ → ℕ
base_block head = (head - base_min_age) / base_round * base_round

-- `publish_after`, with the wrap-around of u64
unfoldable pub publish_after : ℕ → ℕ → ℕ
publish_after base j = (base + publish_delay + min j publish_jitter) % 2 ^ 64
