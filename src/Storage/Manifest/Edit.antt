-- ===== src/Storage/Manifest/Edit.antt =====
-- internal/storage/manifest/edit.go: tables, edits, their checks and the encoding of a table. An
-- error is named by its sentinel; slices are values, so cloneTable and cloneTables copy nothing.
use rivet_db.Prelude.{
  ℕ, ◌+◌, ◌-◌, ◌*◌, ◌^◌, Bool, true, false, Option, none, some, List, [], ◌∷◌, ◌++◌, ◌&&◌, ◌||◌,
  not, ltb, leb, ◌==◌, if◌then◌else◌, Ordering, length, take, drop, any, Result, ok, err, guard,
  ◌>>=◌, ◌>>◌,
}
use rivet_db.Prelude.Bytes.{compare_bytes, equal_bytes, le_bytes, le_value}
use rivet_db.Storage.Key
use rivet_db.Storage.Key.{InternalKey, compare_internal}

pub data Error : Type 0 where
  invalid_edit invalid_edit_level comparator_mismatch mode_mismatch file_number_collision : Error
  sequence_regression frontier_regression frontier_gap unknown_file duplicate_file : Error
  overlapping_level manifest_corrupt : Error
  key_error : Key.Error → Error

abbrev pub max_changes_per_edit : ℕ
max_changes_per_edit = 4096

abbrev pub max_levels : ℕ
max_levels = 8

abbrev pub max_file_number : ℕ
max_file_number = 999999999999

abbrev pub footer_size : ℕ
footer_size = 80

abbrev pub max_user_key_size : ℕ
max_user_key_size = 2 ^ 20

abbrev pub max_internal_key_size : ℕ
max_internal_key_size = max_user_key_size + 9

-- The bytes of "rivetdb.internal-key.v1".
abbrev pub comparator_name : List ℕ
comparator_name =
    b'r' ∷ b'i' ∷ b'v' ∷ b'e' ∷ b't' ∷ b'd' ∷ b'b' ∷ b'.' ∷ b'i' ∷ b'n' ∷ b't' ∷ b'e' ∷ b'r' ∷ b'n'
    ∷ b'a' ∷ b'l' ∷ b'-' ∷ b'k' ∷ b'e' ∷ b'y' ∷ b'.' ∷ b'v' ∷ b'1' ∷ []

-- The storage modes, on the uint8 that an edit holds.
abbrev pub mode_standalone : ℕ
mode_standalone = 1

abbrev pub mode_replicated : ℕ
mode_replicated = 2

abbrev pub mode_replicated_mvcc : ℕ
mode_replicated_mvcc = 3

pub record DeletedFile : Type 0 where
  pub level : ℕ
  pub file_number : ℕ

pub record TableMetadata : Type 0 where
  pub level : ℕ
  pub file_number : ℕ
  pub flush_generation : ℕ
  pub file_size : ℕ
  pub entry_count : ℕ
  pub deletion_count : ℕ
  pub raw_key_value_bytes : ℕ
  pub data_block_count : ℕ
  pub smallest_sequence : ℕ
  pub largest_sequence : ℕ
  pub smallest_internal : InternalKey
  pub largest_internal : InternalKey
  pub smallest_user : List ℕ
  pub largest_user : List ℕ

pub record VersionEdit : Type 0 where
  pub comparator : Option (List ℕ)
  pub next_file_number : Option ℕ
  pub last_sequence : Option ℕ
  pub replay_frontier : Option ℕ
  pub storage_mode : Option ℕ
  pub replicated_applied_through : Option ℕ
  pub max_applied_mvcc : Option ℕ
  pub deleted_files : List DeletedFile
  pub added_files : List TableMetadata

abbrev pub is_some {ℓ} : {A : Type ℓ} → Option A → Bool
is_some none = false
is_some (some a) = true

-- A test of a scalar that may be absent, `p != nil && test(*p)`.
abbrev pub given {ℓ} : {A : Type ℓ} → Option A → (A → Bool) → Bool
given none test = false
given (some a) test = test a

abbrev pub less_bytes : List ℕ → List ℕ → Bool
less_bytes a b = elim (compare_bytes a b) [ Ordering.lt ↦ true | _ ↦ false ]

abbrev pub greater_key : InternalKey → InternalKey → Bool
greater_key a b = elim (compare_internal a b) [ Ordering.gt ↦ true | _ ↦ false ]

-- The counts and numbers of a table, and its keys.
abbrev pub bad_numbers : TableMetadata → Bool
bad_numbers t =
    t.file_number == 0
    || ltb max_file_number t.file_number
    || ltb t.file_size footer_size
    || t.entry_count == 0
    || t.data_block_count == 0
    || ltb t.entry_count t.deletion_count
    || ltb t.largest_sequence t.smallest_sequence

abbrev pub bad_keys : TableMetadata → Bool
bad_keys t =
    ltb max_user_key_size (length t.smallest_user)
    || ltb max_user_key_size (length t.largest_user)
    || not (equal_bytes t.smallest_internal.user_key t.smallest_user)
    || not (equal_bytes t.largest_internal.user_key t.largest_user)
    || greater_key t.smallest_internal t.largest_internal
    || less_bytes t.largest_user t.smallest_user

unfoldable pub validate_table : TableMetadata → Result Error (Unit {0})
validate_table t = do
  guard (ltb t.level max_levels) invalid_edit_level
  guard (not (bad_numbers t)) invalid_edit
  guard (not (bad_keys t)) invalid_edit

abbrev pub seen_file : ℕ → List ℕ → Bool
seen_file n seen = any (λ m. m == n) seen

abbrev pub bad_deletion : List ℕ → DeletedFile → Bool
bad_deletion seen d =
    leb max_levels d.level
    || d.file_number == 0
    || ltb max_file_number d.file_number
    || seen_file d.file_number seen

-- The two loops of validateEditShape, over the file numbers seen so far.
unfoldable pub check_deletions : List ℕ → List DeletedFile → Result Error (List ℕ)
check_deletions seen [] = ok seen
check_deletions seen (d ∷ ds) =
    guard (not (bad_deletion seen d)) invalid_edit >> check_deletions (d.file_number ∷ seen) ds

unfoldable pub check_additions : List ℕ → List TableMetadata → Result Error (Unit {0})
check_additions seen [] = ok tt
check_additions seen (t ∷ ts) =
    validate_table t
    >> (guard (not (seen_file t.file_number seen)) invalid_edit
        >> check_additions (t.file_number ∷ seen) ts)

abbrev pub has_change : VersionEdit → Bool
has_change e =
    is_some e.comparator
    || is_some e.next_file_number
    || is_some e.last_sequence
    || is_some e.replay_frontier
    || is_some e.storage_mode
    || is_some e.replicated_applied_through
    || is_some e.max_applied_mvcc
    || not (length e.added_files == 0)
    || not (length e.deleted_files == 0)

abbrev pub unknown_mode : ℕ → Bool
unknown_mode m =
    not (m == mode_standalone) && not (m == mode_replicated) && not (m == mode_replicated_mvcc)

abbrev pub bad_scalars : VersionEdit → Bool
bad_scalars e =
    given e.storage_mode unknown_mode
    || is_some e.replay_frontier && is_some e.replicated_applied_through
    || is_some e.max_applied_mvcc && not (is_some e.replicated_applied_through)

abbrev pub bad_comparator : List ℕ → Bool
bad_comparator name = length name == 0 || ltb 128 (length name)

unfoldable pub validate_edit_shape : VersionEdit → Result Error (Unit {0})
unfolding check_deletions check_additions
validate_edit_shape e = do
  guard (has_change e) invalid_edit
  guard
      (leb (length e.added_files) max_changes_per_edit
        && leb (length e.deleted_files) max_changes_per_edit)
      invalid_edit
  guard (not (bad_scalars e)) invalid_edit
  guard (not (given e.comparator bad_comparator)) invalid_edit
  seen ← check_deletions [] e.deleted_files
  check_additions seen e.added_files

-- A length in four bytes, then the bytes.
abbrev pub part : List ℕ → List ℕ
part value = le_bytes 4 (length value) ++ value

abbrev pub table_parts : TableMetadata → List ℕ
table_parts t =
    part (Key.encode t.smallest_internal)
    ++ (part (Key.encode t.largest_internal) ++ (part t.smallest_user ++ part t.largest_user))

abbrev pub table_bytes : TableMetadata → List ℕ
table_bytes t =
    le_bytes 4 t.level
    ++ (le_bytes 8 t.file_number
        ++ (le_bytes 8 t.flush_generation
            ++ (le_bytes 8 t.file_size
                ++ (le_bytes 8 t.entry_count
                    ++ (le_bytes 8 t.deletion_count
                        ++ (le_bytes 8 t.raw_key_value_bytes
                            ++ (le_bytes 4 t.data_block_count
                                ++ (le_bytes 8 t.smallest_sequence
                                    ++ (le_bytes 8 t.largest_sequence ++ table_parts t)))))))))

abbrev pub oversized : List ℕ → Bool
oversized value = ltb (2 ^ 32 - 1) (length value)

unfoldable pub encode_table : TableMetadata → Result Error (List ℕ)
encode_table t = do
  validate_table t
  guard
      (not (
        oversized (Key.encode t.smallest_internal)
        || oversized (Key.encode t.largest_internal)
        || oversized t.smallest_user
        || oversized t.largest_user))
      invalid_edit
  ok (table_bytes t)

-- One round of the loop over the parts: the bytes, and what is left.
unfoldable pub read_part : List ℕ → Result Error (List ℕ × List ℕ)
read_part bytes =
    let size = le_value (take 4 bytes) in
    let rest = drop 4 bytes in
    if ltb (length bytes) 4
    then err invalid_edit
    else if ltb (length rest) size
    then err invalid_edit
    else ok (take size rest, drop size rest)

unfoldable pub decode_key : List ℕ → Result Error InternalKey
decode_key bytes = elim (Key.decode bytes) [ ok k ↦ ok k | err e ↦ err (key_error e) ]

-- The fixed fields, each read at the offset where the last one ended.
abbrev pub with_keys : List ℕ → InternalKey → InternalKey → List ℕ → List ℕ → TableMetadata
with_keys b0 smallest largest smallest_user largest_user =
    let b1 = drop 4 b0 in
    let b2 = drop 8 b1 in
    let b3 = drop 8 b2 in
    let b4 = drop 8 b3 in
    let b5 = drop 8 b4 in
    let b6 = drop 8 b5 in
    let b7 = drop 8 b6 in
    let b8 = drop 4 b7 in
    let b9 = drop 8 b8 in
    record {
      level = le_value (take 4 b0);
      file_number = le_value (take 8 b1);
      flush_generation = le_value (take 8 b2);
      file_size = le_value (take 8 b3);
      entry_count = le_value (take 8 b4);
      deletion_count = le_value (take 8 b5);
      raw_key_value_bytes = le_value (take 8 b6);
      data_block_count = le_value (take 4 b7);
      smallest_sequence = le_value (take 8 b8);
      largest_sequence = le_value (take 8 b9);
      smallest_internal = smallest;
      largest_internal = largest;
      smallest_user = smallest_user;
      largest_user = largest_user;
    }

abbrev pub validated : TableMetadata → Result Error TableMetadata
validated t = validate_table t >> ok t

abbrev pub fixed_size : ℕ
fixed_size = 4 + 6 * 8 + 4 + 2 * 8

-- The four parts after the fixed fields: two internal keys and two user keys.
unfoldable pub decode_parts : List ℕ → List ℕ → Result Error TableMetadata
decode_parts payload bytes = do
  a ← read_part bytes
  b ← read_part a.1
  c ← read_part b.1
  d ← read_part c.1
  guard (length d.1 == 0) invalid_edit
  guard
      (not (
        ltb max_internal_key_size (length a.0)
        || ltb max_internal_key_size (length b.0)
        || ltb max_user_key_size (length c.0)
        || ltb max_user_key_size (length d.0)))
      invalid_edit
  smallest ← decode_key a.0
  largest ← decode_key b.0
  validated (with_keys payload smallest largest c.0 d.0)

unfoldable pub decode_table : List ℕ → Result Error TableMetadata
decode_table payload =
    if ltb (length payload) (fixed_size + 4 * 4)
    then err invalid_edit
    else decode_parts payload (drop fixed_size payload)
