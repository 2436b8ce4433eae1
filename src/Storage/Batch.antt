-- ===== src/Storage/Batch.antt =====
-- internal/storage/batch.go: the encoding of a write batch, with the LEB128 lengths of
-- encoding/binary. The decoder's errors are ErrInvalidBatch, joined with another where the code
-- calls errors.Join; what it wraps to describe the place is left out.
pub mod Accepted
pub mod Whole
pub mod RoundTrip
mod Witness
use rivet_db.Prelude.{
  ℕ, zero, suc, ◌+◌, ◌*◌, ◌-◌, ◌/◌, ◌%◌, ◌^◌, Bool, true, false, Option, none, some, List, [], ◌∷◌,
  ◌++◌, ◌&&◌, ◌||◌, not, ltb, leb, ◌==◌, if◌then◌else◌, length, take, drop, Result, ok, err, guard,
  ◌>>=◌, ◌>>◌,
}
use rivet_db.Prelude.Bytes.{le_bytes, le_value}
use rivet_db.Storage.Key.{valid, carries_value}

pub data Error : Type 0 where
  empty_batch batch_too_large sequence_overflow invalid_value_kind invalid_batch : Error
  invalid_and_empty invalid_and_overflow : Error

abbrev pub max_record_size : ℕ
max_record_size = 64 * 2 ^ 20

abbrev pub batch_header_len : ℕ
batch_header_len = 12

pub record Mutation : Type 0 where
  pub key : List ℕ
  pub value : List ℕ
  pub kind : ℕ

pub record WriteBatch : Type 0 where
  pub first_sequence : ℕ
  pub mutations : List Mutation

-- `binary.AppendUvarint`: ten bytes hold a uint64.
abbrev pub uvarint_bytes : ℕ → ℕ → List ℕ
uvarint_bytes zero v = []
uvarint_bytes (suc fuel) v =
    let rest = uvarint_bytes fuel (v / 128) in if ltb v 128 then v ∷ [] else (v % 128 + 128) ∷ rest

unfoldable pub append_uvarint : ℕ → List ℕ
append_uvarint v = uvarint_bytes 10 v

unfoldable pub uvarint_len : ℕ → ℕ
unfolding append_uvarint
uvarint_len v = length (append_uvarint v)

-- `binary.Uvarint` from byte `10 - fuel` on: the value and the number of bytes read, or nothing where
-- Go's width is zero (the bytes end) or negative (overflow).
abbrev pub shift_in : ℕ → Option (ℕ × ℕ) → Option (ℕ × ℕ)
shift_in low none = none
shift_in low (some (v, width)) = some (low + 128 * v, width + 1)

unfoldable pub read_uvarint : ℕ → List ℕ → Option (ℕ × ℕ)
read_uvarint fuel [] = none
read_uvarint zero (b ∷ bs) = none
read_uvarint (suc fuel) (b ∷ bs) =
    let rest = read_uvarint fuel bs in
    if ltb b 128
    then (if fuel == 0 && ltb 1 b then none else some (b, 1))
    else shift_in (b % 128) rest

-- The checks and the running size of `EncodeWriteBatch`'s first loop.
abbrev pub key_size : Mutation → ℕ
key_size m = 1 + uvarint_len (length m.key) + length m.key

abbrev pub value_size : Mutation → ℕ
value_size m = if carries_value m.kind then uvarint_len (length m.value) + length m.value else 0

abbrev pub check_mutations : ℕ → List Mutation → Result Error (Unit {0})
check_mutations size [] = ok tt
check_mutations size (m ∷ ms) =
    let rest = check_mutations (size + key_size m + value_size m) ms in
    if not (valid m.kind)
    then err invalid_value_kind
    else if ltb (max_record_size - size) (key_size m)
    then err batch_too_large
    else if carries_value m.kind && ltb (max_record_size - (size + key_size m)) (value_size m)
    then err batch_too_large
    else rest

abbrev pub encode_value : Mutation → List ℕ
encode_value m = if carries_value m.kind then append_uvarint (length m.value) ++ m.value else []

abbrev pub encode_mutation : Mutation → List ℕ
encode_mutation m = m.kind ∷ append_uvarint (length m.key) ++ (m.key ++ encode_value m)

abbrev pub encode_mutations : List Mutation → List ℕ
encode_mutations [] = []
encode_mutations (m ∷ ms) = encode_mutation m ++ encode_mutations ms

abbrev pub encoded_batch : WriteBatch → List ℕ
encoded_batch b =
    le_bytes 8 b.first_sequence ++ (le_bytes 4 (length b.mutations) ++ encode_mutations b.mutations)

unfoldable pub encode : WriteBatch → Result Error (List ℕ)
encode b =
    if length b.mutations == 0
    then err empty_batch
    else if ltb (2 ^ 32 - 1) (length b.mutations)
    then err batch_too_large
    else if ltb (2 ^ 64 - 1 - (length b.mutations - 1)) b.first_sequence
    then err sequence_overflow
    else (check_mutations batch_header_len b.mutations >> ok (encoded_batch b))

-- `decodeLengthPrefixed`: the bytes, and what follows them.
abbrev pub cut_field : ℕ → List ℕ → Option (List ℕ × List ℕ)
cut_field n rest = if ltb (length rest) n then none else some (take n rest, drop n rest)

abbrev pub field_of : List ℕ → Option (ℕ × ℕ) → Option (List ℕ × List ℕ)
field_of bytes none = none
field_of bytes (some (n, width)) =
    if not (width == uvarint_len n) then none else cut_field n (drop width bytes)

unfoldable pub decode_length_prefixed : List ℕ → Option (List ℕ × List ℕ)
decode_length_prefixed bytes = field_of bytes (read_uvarint 10 bytes)

abbrev pub with_value : ℕ → List ℕ → Option (List ℕ × List ℕ) → Option (Mutation × List ℕ)
with_value kind key none = none
with_value kind key (some (value, rest)) =
    some (record { key = key; value = value; kind = kind }, rest)

abbrev pub with_key : ℕ → Option (List ℕ × List ℕ) → Option (Mutation × List ℕ)
with_key kind none = none
with_key kind (some (key, rest)) =
    if carries_value kind
    then with_value kind key (decode_length_prefixed rest)
    else some (record { key = key; value = []; kind = kind }, rest)

unfoldable pub decode_mutation : List ℕ → Option (Mutation × List ℕ)
decode_mutation [] = none
decode_mutation (kind ∷ bytes) =
    if not (valid kind) then none else with_key kind (decode_length_prefixed bytes)

abbrev pub cons_decoded :
    Mutation → Option (List Mutation × List ℕ) → Option (List Mutation × List ℕ)
cons_decoded m none = none
cons_decoded m (some (ms, rest)) = some (m ∷ ms, rest)

unfoldable pub decode_mutations : ℕ → List ℕ → Option (List Mutation × List ℕ)
decode_mutations zero bytes = some ([], bytes)
decode_mutations (suc count) bytes = elim (decode_mutation bytes) [
  | none ↦ none
  | some r ↦ cons_decoded r.0 (decode_mutations count r.1)
]

abbrev pub whole : ℕ → Option (List Mutation × List ℕ) → Result Error WriteBatch
whole first none = err invalid_batch
whole first (some (ms, rest)) =
    if not (length rest == 0)
    then err invalid_batch
    else ok (record { first_sequence = first; mutations = ms })

abbrev pub decode_body : ℕ → ℕ → List ℕ → Result Error WriteBatch
decode_body first count bytes =
    if count == 0
    then err invalid_and_empty
    else if ltb (2 ^ 64 - 1 - (count - 1)) first
    then err invalid_and_overflow
    else if ltb (length bytes / 2) count
    then err invalid_batch
    else whole first (decode_mutations count bytes)

unfoldable pub decode : List ℕ → Result Error WriteBatch
decode encoded =
    if ltb max_record_size (length encoded)
    then err batch_too_large
    else if ltb (length encoded) batch_header_len
    then err invalid_batch
    else decode_body (le_value (take 8 encoded)) (le_value (take 4 (drop 8 encoded)))
        (drop batch_header_len encoded)
