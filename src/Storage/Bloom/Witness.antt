-- ===== src/Storage/Bloom/Witness.antt =====
-- A filter of two keys, through its encoding.
use rivet_db.Prelude.{ℕ, ◌≡◌, refl, List, [], ◌∷◌, true, Result, ok, err}
use rivet_db.Storage.Bloom.{
  Error, BloomHash, hash_bloom_key, bit_count, encode_bloom, decode_bloom, may_contain,
}
use rivet_db.Storage.Bloom.Complete.{no_false_negative}

abbrev key : List ℕ
key = 97 ∷ 98 ∷ []

abbrev other : BloomHash
other = record { first = 12345; delta = 7 }

abbrev bytes_of : Result Error (List ℕ) → List ℕ
bytes_of (ok bytes) = bytes
bytes_of (err e) = []

two_keys_encoded :
    encode_bloom (other ∷ hash_bloom_key key ∷ [])
    ≡ ok (bytes_of (encode_bloom (other ∷ hash_bloom_key key ∷ [])))
unfolding encode_bloom bit_count
two_keys_encoded = refl

no_false_negative_example :
    (bits : List ℕ) × (decode_bloom (bytes_of (encode_bloom (other ∷ hash_bloom_key key ∷ [])))
      ≡ ok bits)
    × (may_contain bits key ≡ true)
no_false_negative_example =
    no_false_negative (other ∷ []) key []
      (bytes_of (encode_bloom (other ∷ hash_bloom_key key ∷ []))) two_keys_encoded
