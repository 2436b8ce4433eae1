-- ===== src/Storage/Batch/Whole.antt =====
-- What EncodeWriteBatch accepts, DecodeWriteBatch reads back.
use rivet_db.Prelude.{
  ap, cut_at, ℕ, ◌+◌, ◌*◌, ◌-◌, ◌/◌, ◌^◌, ◌≤◌, ◌≡◌, refl, subst, Bool, true, false, some, List, [],
  ◌++◌, ltb, ◌==◌, if◌then◌else◌, length, drop, Result, ok, err, arith, length-append, ◌>>◌,
}
use mathlib.Core.List.{append_assoc, append-nil}
use rivet_db.Prelude.Bytes.{IsU64, le_bytes, length-le_bytes, le_value-le_bytes}
use rivet_db.Storage.Batch.{
  Error, WriteBatch, encoded_batch, encode, decode, decode_body, decode_mutations, encode_mutations,
  check_mutations, max_record_size, batch_header_len, empty_batch, batch_too_large,
  sequence_overflow,
}
use rivet_db.Storage.Batch.RoundTrip.{AllFit, kept_all, decode-encode_mutations}
use rivet_db.Storage.Batch.Accepted.{check_mutations-Fits}

-- The batch as it comes back.
abbrev pub kept_batch : WriteBatch → WriteBatch
kept_batch b = record { first_sequence = b.first_sequence; mutations = kept_all b.mutations }

decode-body :
    (first count : ℕ) (ms : List _)
    → length ms ≡ count
    → (count == 0) ≡ false
    → ltb (2 ^ 64 - 1 - (count - 1)) first ≡ false
    → AllFit ms
    → count * 2 ≤ length (encode_mutations ms)
    → decode_body first count (encode_mutations ms)
      ≡ ok (record { first_sequence = first; mutations = kept_all ms })
decode-body first count ms e some_of room fits many =
    let enough : ltb (length (encode_mutations ms) / 2) count ≡ false = ground arith in
    let read : decode_mutations count (encode_mutations ms) ≡ some (kept_all ms, []) =
      subst (λ n. decode_mutations n (encode_mutations ms) ≡ some (kept_all ms, [])) e
        (subst (λ bytes. decode_mutations (length ms) bytes ≡ some (kept_all ms, []))
          (append-nil (encode_mutations ms)) (decode-encode_mutations ms [] fits)) in
    rw (some_of, room, enough, read) refl

accepted_batch :
    (a c d : Bool) (r : Result Error (Unit {0})) (out bytes : List ℕ)
    → (if a
        then err empty_batch
        else if c
        then err batch_too_large
        else if d
        then err sequence_overflow
        else (r >> ok out))
      ≡ ok bytes
    → (a ≡ false) × (c ≡ false) × (d ≡ false) × (r ≡ ok tt) × (out ≡ bytes)
accepted_batch true c d r out bytes h = ground arith
accepted_batch false true d r out bytes h = ground arith
accepted_batch false false true r out bytes h = ground arith
accepted_batch false false false (ok tt) out bytes h = (refl, refl, refl, refl, ground arith)
accepted_batch false false false (err e) out bytes h = ground arith

decode-encoded :
    (b : WriteBatch)
    → IsU64 b.first_sequence
    → (length b.mutations == 0) ≡ false
    → ltb (2 ^ 32 - 1) (length b.mutations) ≡ false
    → ltb (2 ^ 64 - 1 - (length b.mutations - 1)) b.first_sequence ≡ false
    → check_mutations batch_header_len b.mutations ≡ ok tt
    → decode (encoded_batch b) ≡ ok (kept_batch b)
unfolding decode
decode-encoded b u some_of few room accepted =
    let body = encode_mutations b.mutations in
    let front = le_bytes 8 b.first_sequence in
    let count = le_bytes 4 (length b.mutations) in
    let (fits, small, many) =
      check_mutations-Fits batch_header_len b.mutations (omega arith) accepted in
    let l8 = length-le_bytes 8 b.first_sequence in
    let l4 = length-le_bytes 4 (length b.mutations) in
    let (t8, d8) = cut_at 8 front (count ++ body) l8 in
    let (t4, d4) = cut_at 4 count body l4 in
    let l12 : length (front ++ count) ≡ 12 = omega (arith, length-append front count) in
    let d12 : drop 12 (front ++ (count ++ body)) ≡ body =
      subst (λ bytes. drop 12 bytes ≡ body) (append_assoc front count body)
        (cut_at 12 (front ++ count) body l12).1 in
    let total : length (front ++ (count ++ body)) ≡ 12 + length body =
      omega (arith, length-append front (count ++ body), length-append count body) in
    let fit : ltb max_record_size (12 + length body) ≡ false = ground arith in
    let full : ltb (12 + length body) batch_header_len ≡ false = ground arith in
    rw
      (
        total,
        fit,
        full,
        t8,
        d8,
        t4,
        d12,
        le_value-le_bytes 8 b.first_sequence u,
        le_value-le_bytes 4 (length b.mutations) (ground arith),
      )
      (decode-body b.first_sequence (length b.mutations) b.mutations refl some_of room fits many)

-- A batch that EncodeWriteBatch accepts is what DecodeWriteBatch reads back from the bytes, but for
-- the values of mutations whose kind carries none, which come back empty. The first sequence is a
-- uint64.
pub decode-encode_batch :
    (b : WriteBatch) (bytes : List ℕ)
    → IsU64 b.first_sequence
    → encode b ≡ ok bytes
    → decode bytes ≡ ok (kept_batch b)
unfolding encode
decode-encode_batch b bytes u e =
    let (a, c, d, r, out) = accepted_batch _ _ _ _ _ bytes e in
    subst (λ x. decode x ≡ ok (kept_batch b)) out (decode-encoded b u a c d r)

-- What EncodeWriteBatch returns is at most MaxRecordSize bytes long, and holds at least two bytes for
-- each mutation after the header, as DecodeWriteBatch's check on the count wants.
pub encoded_batch_fits :
    (b : WriteBatch) (bytes : List ℕ)
    → encode b ≡ ok bytes
    → (length bytes ≤ max_record_size) × (batch_header_len + length b.mutations * 2 ≤ length bytes)
unfolding encode
encoded_batch_fits b bytes e =
    let (some_of, few, room, r, out) = accepted_batch _ _ _ _ _ bytes e in
    let (fits, small, many) = check_mutations-Fits batch_header_len b.mutations (omega arith) r in
    let body = encode_mutations b.mutations in
    let front = le_bytes 8 b.first_sequence in
    let count = le_bytes 4 (length b.mutations) in
    let l8 = length-le_bytes 8 b.first_sequence in
    let l4 = length-le_bytes 4 (length b.mutations) in
    let total : length (encoded_batch b) ≡ 12 + length body =
      omega (arith, length-append front (count ++ body), length-append count body) in
    let same : length (encoded_batch b) ≡ length bytes = ap length out in (omega arith, omega arith)
