-- ===== src/Registry/Events.antt =====
-- tools/zkmsg/core/src/registry.rs, `from_event`: an event of the store reads back.
use mathlib.Core.List.{append-nil}
use stwo_starknet_verifier.Common.{
  ℕ, ◌+◌, ◌*◌, ◌/◌, ◌^◌, ◌<◌, ◌≡◌, refl, true, List, [], ◌∷◌, map, ok, ltb, ◌==◌, length, arith,
  length-append, length-map, drop, lt→ltb,
}
use stwo_starknet_verifier.Felts.{Felt, Crates}
use stwo_starknet_verifier.Serde.{
  All256, IsBytesApi, bytearray_felts, bytearray_calldata, bytearray_decode, full_words,
}
use stwo_starknet_verifier.Serde.RoundTrip.{
  bytearray_decode-felts, bytearray_calldata-felts, felt_to_u64_small, length-full_words,
}
use stwo_starknet_verifier.Registry.{
  all_felts, from_event, from_felts, owner_of, index_of_felt, decode_kem, digest_of,
}

module _ (k : Crates) (api : IsBytesApi k) where
  all_felts-map_to_hex : (fs : List Felt) → all_felts k.from_hex (map k.to_hex fs) ≡ ok fs
  unfolding all_felts
  all_felts-map_to_hex [] = refl
  all_felts-map_to_hex (f ∷ fs) = rw (api.from-to_hex f, all_felts, all_felts-map_to_hex fs) refl

  length-bytearray_felts : (bs : List ℕ) → length (bytearray_felts k bs) ≡ length bs / 31 + 3
  unfolding bytearray_felts
  length-bytearray_felts bs =
      let words = full_words k.from_bytes_be_slice (length bs / 31) bs in
      omega (
        arith,
        length-append words (
            k.from_bytes_be_slice (drop (length bs / 31 * 31) bs)
            ∷ length (drop (length bs / 31 * 31) bs)
            ∷ []),
        length-full_words k.from_bytes_be_slice (length bs / 31) bs,
      )

  decode_kem-felts :
      (ek : List ℕ)
      → length ek < 2 ^ 64
      → All256 ek
      → decode_kem k (bytearray_felts k ek) ≡ ok (ek, length ek / 31 + 3)
  unfolding decode_kem
  decode_kem-felts ek short byte =
      let decoded : bytearray_decode k (bytearray_felts k ek) ≡ ok (ek, length ek / 31 + 3) =
        rw append-nil at (bytearray_decode-felts k api ek [] short byte) in
      rw (decoded, decode_kem) refl

  index_of_felt_small : (index : ℕ) → index < 2 ^ 32 → index_of_felt k index ≡ ok index
  unfolding index_of_felt
  index_of_felt_small index small =
      let fits : ltb index (2 ^ 32) ≡ true = lt→ltb index (2 ^ 32) small in
      rw (felt_to_u64_small k api index (omega arith), index_of_felt, fits) refl

  from_felts-ok :
      (owner handle scan_pub index m_commit : Felt) (ek : List ℕ)
      → length ek < 2 ^ 64
      → All256 ek
      → index < 2 ^ 32
      → from_felts k (ok owner) (handle ∷ scan_pub ∷ index ∷ m_commit ∷ bytearray_felts k ek)
        ≡ ok (record {
          owner = owner;
          handle = handle;
          scan_pub = scan_pub;
          leaf_index = index;
          m_commit = m_commit;
          kem_pubkey = ek;
          kem_digest = digest_of k ek;
        })
  unfolding from_felts
  from_felts-ok owner handle scan_pub index m_commit ek short byte small =
      let all_used : (4 + (length ek / 31 + 3) == 4 + length (bytearray_felts k ek)) ≡ true =
        ground (arith, length-bytearray_felts ek) in
      rw (decode_kem-felts ek short byte, from_felts, all_used, index_of_felt_small index small)
        refl

  -- With conversions of felts as documented (`IsBytesApi`), the event of a registration with a kem
  -- key of fewer than 2 ^ 64 bytes and a u32 leaf index reads back as that registration, the digest
  -- of the key included.
  pub from_event-registered :
      (selector owner handle scan_pub index m_commit : Felt) (ek : List ℕ)
      → length ek < 2 ^ 64
      → All256 ek
      → index < 2 ^ 32
      → from_event k (
        k.to_hex selector ∷ k.to_hex owner ∷ [],
        k.to_hex handle
            ∷ k.to_hex scan_pub
            ∷ k.to_hex index
            ∷ k.to_hex m_commit
            ∷ bytearray_calldata k ek,
      )
        ≡ ok (record {
          owner = owner;
          handle = handle;
          scan_pub = scan_pub;
          leaf_index = index;
          m_commit = m_commit;
          kem_pubkey = ek;
          kem_digest = digest_of k ek;
        })
  unfolding from_event owner_of
  from_event-registered selector owner handle scan_pub index m_commit ek short byte small =
      let felts = handle ∷ scan_pub ∷ index ∷ m_commit ∷ bytearray_felts k ek in
      let calldata = bytearray_calldata-felts k api ek in
      let enough : ltb 4 (length (map k.to_hex felts)) ≡ true =
        lt→ltb 4 (length (map k.to_hex felts))
          (omega (arith, length-map (bytearray_felts k ek) k.to_hex, length-bytearray_felts ek)) in
      rw (calldata, enough, all_felts-map_to_hex felts, api.from-to_hex owner)
        (from_felts-ok owner handle scan_pub index m_commit ek short byte small)
