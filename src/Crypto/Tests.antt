-- ===== src/Crypto/Tests.antt =====
-- Padding a short message as tools/zkmsg/core/src/crypto.rs does.
use stwo_starknet_verifier.Common.{ℕ, ◌≡◌, List, [], ◌∷◌, length, ok, arith}
use stwo_starknet_verifier.Crypto.{pad_v4, unpad_v4}
use stwo_starknet_verifier.Crypto.Padding.{Fits, pad_v4_short}

pad_v4_short_example :
    (padded : List ℕ) × (pad_v4 (104 ∷ 105 ∷ []) ≡ ok padded)
    × Fits 2 (length padded)
    × (unpad_v4 padded ≡ ok (104 ∷ 105 ∷ []))
pad_v4_short_example = pad_v4_short (104 ∷ 105 ∷ []) (omega arith)
