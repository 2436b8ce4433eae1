-- ===== src/Storage/Batch/RoundTrip.antt =====
-- What EncodeWriteBatch accepts, DecodeWriteBatch reads back.
use rivet_db.Prelude.{
  ℕ, zero, suc, ◌+◌, ◌*◌, ◌/◌, ◌%◌, ◌<◌, ◌≡◌, refl, subst, true, false, some, List, [], ◌∷◌, ◌++◌,
  ltb, ◌==◌, if◌then◌else◌, length, arith, Bool-cases, inl, inr, ==_refl, ap₂, length-append,
  take-append, drop-append,
}
use mathlib.Core.List.{append_assoc}
use rivet_db.Prelude.Bytes.{IsU64}
use rivet_db.Storage.Key.{valid, carries_value}
use rivet_db.Storage.Batch.{
  Mutation, uvarint_bytes, append_uvarint, uvarint_len, read_uvarint, decode_length_prefixed,
  with_key, decode_mutation, decode_mutations, encode_value, encode_mutation, encode_mutations,
}

-- The numbers that fit in `fuel + 1` bytes, of which the last has one bit.
abbrev limit : ℕ → ℕ
limit zero = 2
limit (suc fuel) = 128 * limit fuel

read_written :
    (fuel v : ℕ) (rest : List ℕ)
    → v < limit fuel
    → read_uvarint (suc fuel) (uvarint_bytes (suc fuel) v ++ rest)
      ≡ some (v, length (uvarint_bytes (suc fuel) v))
unfolding read_uvarint
read_written zero v rest h = let small : ltb v 128 ≡ true = ground arith in rw small (ground arith)
read_written (suc fuel) v rest h = elim (Bool-cases (ltb v 128)) [
  | inl small ↦ rw small (ground arith)
  | inr large ↦
      (let marked : ltb (v % 128 + 128) 128 ≡ false = ground arith in
        let value : (v % 128 + 128) % 128 + 128 * (v / 128) ≡ v = omega arith in
        rw (large, marked, read_written fuel (v / 128) rest (omega arith))
          (ap₂ (λ x n. some (x, n)) value (omega arith)))
]

read_length :
    (v : ℕ) (rest : List ℕ)
    → IsU64 v
    → read_uvarint 10 (append_uvarint v ++ rest) ≡ some (v, uvarint_len v)
unfolding append_uvarint uvarint_len
read_length v rest h = read_written 9 v rest (omega arith)

-- A field of known length, with its length in front.
decode-field :
    (bytes rest : List ℕ)
    → IsU64 (length bytes)
    → decode_length_prefixed (append_uvarint (length bytes) ++ (bytes ++ rest)) ≡ some (bytes, rest)
unfolding decode_length_prefixed uvarint_len
decode-field bytes rest h =
    let same : (uvarint_len (length bytes) == uvarint_len (length bytes)) ≡ true = ==_refl _ in
    let fits : ltb (length (bytes ++ rest)) (length bytes) ≡ false =
      ground (arith, length-append bytes rest) in
    rw
      (
        read_length (length bytes) (bytes ++ rest) h,
        same,
        drop-append (append_uvarint (length bytes)) (bytes ++ rest),
        fits,
        take-append bytes rest,
        drop-append bytes rest,
      )
      refl

-- A mutation of a kind without a value keeps none.
abbrev pub kept : Mutation → Mutation
kept m = record { key = m.key; value = if carries_value m.kind then m.value else []; kind = m.kind }

abbrev pub Fits : Mutation → Type 0
Fits m = (valid m.kind ≡ true) × IsU64 (length m.key) × IsU64 (length (kept m).value)

decode-value :
    (m : Mutation) (rest : List ℕ)
    → IsU64 (length (kept m).value)
    → with_key m.kind (some (m.key, encode_value m ++ rest)) ≡ some (kept m, rest)
decode-value m rest hv = elim (Bool-cases (carries_value m.kind)) [
  | inl carried ↦
      (let same : length (kept m).value ≡ length m.value = rw carried refl in
        let full : IsU64 (length m.value) = subst (λ n. IsU64 n) same hv in
        let parts : (append_uvarint (length m.value) ++ m.value) ++ rest
            ≡ append_uvarint (length m.value) ++ (m.value ++ rest) =
          append_assoc (append_uvarint (length m.value)) m.value rest in
        rw (carried, parts, decode-field m.value rest full) refl)
  | inr bare ↦ rw bare refl
]

decode-encode_mutation :
    (m : Mutation) (rest : List ℕ)
    → Fits m
    → decode_mutation (encode_mutation m ++ rest) ≡ some (kept m, rest)
unfolding decode_mutation
decode-encode_mutation m rest (v, hk, hv) =
    let parts : (append_uvarint (length m.key) ++ (m.key ++ encode_value m)) ++ rest
        ≡ append_uvarint (length m.key) ++ (m.key ++ (encode_value m ++ rest)) =
      simp (append_assoc) in
    rw (v, parts, decode-field m.key (encode_value m ++ rest) hk) (decode-value m rest hv)

abbrev pub kept_all : List Mutation → List Mutation
kept_all [] = []
kept_all (m ∷ ms) = kept m ∷ kept_all ms

abbrev pub AllFit : List Mutation → Type 0
AllFit [] = Unit {0}
AllFit (m ∷ ms) = Fits m × AllFit ms

pub decode-encode_mutations :
    (ms : List Mutation) (rest : List ℕ)
    → AllFit ms
    → decode_mutations (length ms) (encode_mutations ms ++ rest) ≡ some (kept_all ms, rest)
unfolding decode_mutations
decode-encode_mutations [] rest h = refl
decode-encode_mutations (m ∷ ms) rest (f, fs) =
    let parts : (encode_mutation m ++ encode_mutations ms) ++ rest
        ≡ encode_mutation m ++ (encode_mutations ms ++ rest) =
      append_assoc (encode_mutation m) (encode_mutations ms) rest in
    rw
      (
        parts,
        decode_mutations,
        decode-encode_mutation m (encode_mutations ms ++ rest) f,
        decode-encode_mutations ms rest fs,
      )
      refl
