-- ===== src/TxPolicy/Schedule.antt =====
-- tools/zkmsg/core/src/txpolicy.rs: the base block of a proof, and when its publish may go out.
use stwo_starknet_verifier.Common.{ℕ, ◌+◌, ◌%◌, ◌^◌, ◌<◌, ◌≤◌, ◌≡◌, arith}
use stwo_starknet_verifier.TxPolicy.{base_block, publish_after}

-- For a head from 10 on and below 2 ^ 63: the base block is a multiple of 32 and 10 to 41 blocks behind the head,
-- and for any jitter the publish waits until 90 to 110 blocks after the base, which is at least 49
-- and at most 100 blocks after the head.
pub publish_after-base_block :
    (head j : ℕ)
    → 10 ≤ head
    → head < 2 ^ 63
    → (base_block head % 32 ≡ 0)
      × (base_block head + 10 ≤ head)
      × (head ≤ base_block head + 41)
      × (base_block head + 90 ≤ publish_after (base_block head) j)
      × (publish_after (base_block head) j ≤ base_block head + 110)
      × (head + 49 ≤ publish_after (base_block head) j)
      × (publish_after (base_block head) j ≤ head + 100)
unfolding base_block publish_after
publish_after-base_block head j low high =
    (omega arith, omega arith, omega arith, omega arith, omega arith, omega arith, omega arith)
