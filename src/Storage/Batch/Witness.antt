-- ===== src/Storage/Batch/Witness.antt =====
-- A batch of a value and a marker, through the encoding and back.
use rivet_db.Prelude.{length, ◌≤◌, ◌+◌, ℕ, ◌≡◌, refl, List, [], ◌∷◌, arith, Result, ok, err}
use rivet_db.Prelude.Bytes.{le_bytes}
use rivet_db.Storage.Batch.{
  max_record_size, batch_header_len, Error, WriteBatch, encode, decode, append_uvarint, uvarint_len,
}
use rivet_db.Storage.Batch.Whole.{encoded_batch_fits, kept_batch, decode-encode_batch}

-- The second mutation is a deletion, whose value does not come back.
abbrev two_mutations : WriteBatch
two_mutations = record {
  first_sequence = 300;
  mutations =
      record { key = 107 ∷ []; value = 1 ∷ 2 ∷ []; kind = 1 }
      ∷ record { key = 108 ∷ []; value = 9 ∷ []; kind = 0 }
      ∷ [];
}

abbrev bytes_of : Result Error (List ℕ) → List ℕ
bytes_of (ok bytes) = bytes
bytes_of (err e) = []

two_mutations_encoded : encode two_mutations ≡ ok (bytes_of (encode two_mutations))
unfolding encode append_uvarint uvarint_len le_bytes
two_mutations_encoded = refl

decode-encode_batch_example :
    decode (bytes_of (encode two_mutations)) ≡ ok (kept_batch two_mutations)
decode-encode_batch_example =
    decode-encode_batch two_mutations (bytes_of (encode two_mutations)) (omega arith)
      two_mutations_encoded

encoded_batch_fits_example :
    (length (bytes_of (encode two_mutations)) ≤ max_record_size)
    × (batch_header_len + 4 ≤ length (bytes_of (encode two_mutations)))
encoded_batch_fits_example =
    encoded_batch_fits two_mutations (bytes_of (encode two_mutations)) two_mutations_encoded
