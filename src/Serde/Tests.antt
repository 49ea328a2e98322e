-- ===== src/Serde/Tests.antt =====
-- Byte arrays through tools/zkmsg/core/src/chain.rs, with felts as base-256 digits.
use stwo_starknet_verifier.Common.{
  ℕ, ◌+◌, ◌/◌, ◌≡◌, List, [], ◌∷◌, ◌++◌, map, replicate, ok, err, arith,
}
use stwo_starknet_verifier.Serde.{panics, bytearray_felts, bytearray_calldata, bytearray_decode}
use stwo_starknet_verifier.Serde.RoundTrip.{
  bytearray_decode-felts, bytearray_calldata-felts, bytearray_decode-panics,
}
use stwo_starknet_verifier.Serde.Digits.{crates, crates-IsBytesApi}

-- 33 bytes: one full word and two pending bytes.
abbrev content : List ℕ
content = replicate 31 7 ++ 200 ∷ 255 ∷ []

bytearray_decode-felts_example :
    bytearray_decode crates (bytearray_felts crates content ++ 5 ∷ []) ≡ ok (content, 33 / 31 + 3)
bytearray_decode-felts_example =
    bytearray_decode-felts crates crates-IsBytesApi content (5 ∷ []) (omega arith) (omega arith)

bytearray_calldata-felts_example :
    bytearray_calldata crates content ≡ map crates.to_hex (bytearray_felts crates content)
bytearray_calldata-felts_example = bytearray_calldata-felts crates crates-IsBytesApi content

bytearray_decode-panics_example :
    bytearray_decode crates (1 ∷ (9 ∷ []) ++ (4 ∷ 40 ∷ [])) ≡ err panics
bytearray_decode-panics_example =
    bytearray_decode-panics crates crates-IsBytesApi (9 ∷ []) [] 4 40 (omega arith) (omega arith)
      (omega arith)
