-- ===== src/Storage/Manifest/Sample.antt =====
-- A manifest of two edits: the first names the comparator, the second installs four tables.
use rivet_db.Prelude.{length, ℕ, ◌≡◌, refl, List, [], ◌∷◌, none, some, Result, ok, err}
use rivet_db.Prelude.Bytes.{compare_bytes, equal_bytes}
use rivet_db.Storage.Key.{InternalKey, compare_internal}
use rivet_db.Storage.Sorting.{sort}
use rivet_db.Storage.Manifest.Edit.{
  Error, TableMetadata, VersionEdit, comparator_name, validate_table, validate_edit_shape,
}
use rivet_db.Storage.Manifest.Version.{
  Version, initial_version, level_at, delete_files, add_files, frontier_covered, covered_from,
  scan_covered,
}
use rivet_db.Storage.Manifest.Apply.{
  apply, next_comparator, next_mode, next_file, next_sequence, next_frontier, next_applied,
  next_mvcc,
}
use rivet_db.Storage.Manifest.Recovery.{recover_manifest}

abbrev pub key : ℕ → ℕ → InternalKey
key user sequence = record { user_key = user ∷ []; sequence = sequence; kind = 1 }

-- A table from one user key to another, with the sequences from one to another.
abbrev pub table : ℕ → ℕ → ℕ → ℕ → ℕ → ℕ → TableMetadata
table level number from to first last = record {
  level = level;
  file_number = number;
  flush_generation = number;
  file_size = 4096;
  entry_count = 10;
  deletion_count = 1;
  raw_key_value_bytes = 300;
  data_block_count = 1;
  smallest_sequence = first;
  largest_sequence = last;
  smallest_internal = key from last;
  largest_internal = key to first;
  smallest_user = from ∷ [];
  largest_user = to ∷ [];
}

abbrev pub no_change : VersionEdit
no_change = record {
  comparator = none;
  next_file_number = none;
  last_sequence = none;
  replay_frontier = none;
  storage_mode = none;
  replicated_applied_through = none;
  max_applied_mvcc = none;
  deleted_files = [];
  added_files = [];
}

abbrev pub creation : VersionEdit
creation = record no_change { comparator = some comparator_name; next_file_number = some 1 }

abbrev pub flush : VersionEdit
flush = record no_change {
  next_file_number = some 5;
  last_sequence = some 20;
  replay_frontier = some 20;
  added_files =
      table 1 2 30 50 0 9
      ∷ table 1 1 10 20 3 12
      ∷ table 0 3 5 60 13 20
      ∷ table 0 4 55 70 15 18
      ∷ [];
}

abbrev pub version_of : Result Error Version → Version
version_of (ok v) = v
version_of (err e) = initial_version

abbrev pub bytes_of : Result Error (List ℕ) → List ℕ
bytes_of (ok bytes) = bytes
bytes_of (err e) = []

abbrev pub created : Version
created = version_of (apply initial_version creation)

abbrev pub flushed : Version
flushed = version_of (apply created flush)

pub two_edits_recovered :
    (apply initial_version creation ≡ ok created)
    × (apply created flush ≡ ok flushed)
    × (recover_manifest (creation ∷ flush ∷ []) ≡ ok flushed)
unfolding recover_manifest apply next_comparator next_mode next_file next_sequence next_frontier
    next_applied next_mvcc delete_files add_files sort validate_edit_shape validate_table
    compare_bytes equal_bytes compare_internal frontier_covered covered_from scan_covered
two_edits_recovered = (refl, refl, refl)

pub flushed_level : length (level_at 0 flushed.levels) ≡ 2
unfolding apply next_comparator next_mode next_file next_sequence next_frontier next_applied
    next_mvcc delete_files add_files sort validate_edit_shape validate_table compare_bytes
    equal_bytes compare_internal frontier_covered covered_from scan_covered
flushed_level = refl
