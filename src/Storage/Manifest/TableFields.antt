-- ===== src/Storage/Manifest/TableFields.antt =====
-- The fixed fields of a table's bytes.
use rivet_db.Prelude.{
  ℕ, ◌+◌, ◌^◌, ◌≤◌, ◌<◌, ◌≡◌, refl, ap, ◌∙◌, List, ◌++◌, take, drop, cut_at, drop-drop,
}
use rivet_db.Prelude.Bytes.{IsU64, le_bytes, le_value, length-le_bytes, le_value-le_bytes}
use rivet_db.Storage.Key.{InternalKey, kind_intent}
use rivet_db.Storage.Manifest.Edit.{TableMetadata, table_parts, table_bytes, with_keys, fixed_size}

abbrev pub IsU32 : ℕ → Type 0
IsU32 v = v < 2 ^ 32

abbrev pub IsKey : InternalKey → Type 0
IsKey k = (k.kind ≤ kind_intent) × IsU64 k.sequence

-- The ranges of the fields' types.
pub record IsTyped (t : TableMetadata) : Type 0 where
  pub level : IsU32 t.level
  pub file_number : IsU64 t.file_number
  pub flush_generation : IsU64 t.flush_generation
  pub file_size : IsU64 t.file_size
  pub entry_count : IsU64 t.entry_count
  pub deletion_count : IsU64 t.deletion_count
  pub raw_key_value_bytes : IsU64 t.raw_key_value_bytes
  pub data_block_count : IsU32 t.data_block_count
  pub smallest_sequence : IsU64 t.smallest_sequence
  pub largest_sequence : IsU64 t.largest_sequence
  pub smallest_internal : IsKey t.smallest_internal
  pub largest_internal : IsKey t.largest_internal

-- A fixed field, and what follows it.
field :
    (w v : ℕ) (rest : List ℕ)
    → v < 256 ^ w
    → (le_value (take w (le_bytes w v ++ rest)) ≡ v) × (drop w (le_bytes w v ++ rest) ≡ rest)
field w v rest h =
    let (front, back) = cut_at w (le_bytes w v) rest (length-le_bytes w v) in
    (ap le_value front ∙ le_value-le_bytes w v h, back)

-- What follows a fixed field of a table's bytes.
abbrev from_largest_sequence : TableMetadata → List ℕ
from_largest_sequence t = le_bytes 8 t.largest_sequence ++ table_parts t

abbrev from_smallest_sequence : TableMetadata → List ℕ
from_smallest_sequence t = le_bytes 8 t.smallest_sequence ++ from_largest_sequence t

abbrev from_data_block_count : TableMetadata → List ℕ
from_data_block_count t = le_bytes 4 t.data_block_count ++ from_smallest_sequence t

abbrev from_raw_key_value_bytes : TableMetadata → List ℕ
from_raw_key_value_bytes t = le_bytes 8 t.raw_key_value_bytes ++ from_data_block_count t

abbrev from_deletion_count : TableMetadata → List ℕ
from_deletion_count t = le_bytes 8 t.deletion_count ++ from_raw_key_value_bytes t

abbrev from_entry_count : TableMetadata → List ℕ
from_entry_count t = le_bytes 8 t.entry_count ++ from_deletion_count t

abbrev from_file_size : TableMetadata → List ℕ
from_file_size t = le_bytes 8 t.file_size ++ from_entry_count t

abbrev from_flush_generation : TableMetadata → List ℕ
from_flush_generation t = le_bytes 8 t.flush_generation ++ from_file_size t

abbrev from_file_number : TableMetadata → List ℕ
from_file_number t = le_bytes 8 t.file_number ++ from_flush_generation t

pub with_keys-table :
    (t : TableMetadata)
    → IsTyped t
    → with_keys
        (table_bytes t)
        t.smallest_internal
        t.largest_internal
        t.smallest_user
        t.largest_user
      ≡ t
with_keys-table t u =
    let f0 = field 4 t.level (from_file_number t) u.level in
    let f1 = field 8 t.file_number (from_flush_generation t) u.file_number in
    let f2 = field 8 t.flush_generation (from_file_size t) u.flush_generation in
    let f3 = field 8 t.file_size (from_entry_count t) u.file_size in
    let f4 = field 8 t.entry_count (from_deletion_count t) u.entry_count in
    let f5 = field 8 t.deletion_count (from_raw_key_value_bytes t) u.deletion_count in
    let f6 = field 8 t.raw_key_value_bytes (from_data_block_count t) u.raw_key_value_bytes in
    let f7 = field 4 t.data_block_count (from_smallest_sequence t) u.data_block_count in
    let f8 = field 8 t.smallest_sequence (from_largest_sequence t) u.smallest_sequence in
    let f9 = field 8 t.largest_sequence (table_parts t) u.largest_sequence in
    rw
      (
        f0.0, f0.1, f1.0, f1.1, f2.0, f2.1, f3.0, f3.1, f4.0, f4.1, f5.0, f5.1, f6.0, f6.1, f7.0,
        f7.1, f8.0, f8.1, f9.0,
      )
      refl

skip : (w v : ℕ) (rest : List ℕ) (n k : ℕ) → k ≡ w + n → drop k (le_bytes w v ++ rest) ≡ drop n rest
skip w v rest n k e =
    drop-drop w n k (le_bytes w v ++ rest) e
    ∙ ap (drop n) (cut_at w (le_bytes w v) rest (length-le_bytes w v)).1

pub table_tail : (t : TableMetadata) → drop fixed_size (table_bytes t) ≡ table_parts t
table_tail t =
    skip 4 t.level (from_file_number t) 68 72 refl
    ∙ skip 8 t.file_number (from_flush_generation t) 60 68 refl
    ∙ skip 8 t.flush_generation (from_file_size t) 52 60 refl
    ∙ skip 8 t.file_size (from_entry_count t) 44 52 refl
    ∙ skip 8 t.entry_count (from_deletion_count t) 36 44 refl
    ∙ skip 8 t.deletion_count (from_raw_key_value_bytes t) 28 36 refl
    ∙ skip 8 t.raw_key_value_bytes (from_data_block_count t) 20 28 refl
    ∙ skip 4 t.data_block_count (from_smallest_sequence t) 16 20 refl
    ∙ skip 8 t.smallest_sequence (from_largest_sequence t) 8 16 refl
    ∙ skip 8 t.largest_sequence (table_parts t) 0 8 refl
