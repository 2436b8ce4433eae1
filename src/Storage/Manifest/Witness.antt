-- ===== src/Storage/Manifest/Witness.antt =====
-- The theorems on versions at a manifest of two edits.
use rivet_db.Prelude.{ℕ, ◌≤◌, ◌≡◌, refl, List, [], ◌∷◌, some, arith, ok, ◌↔◌, true}
use rivet_db.Prelude.Bytes.{compare_bytes, equal_bytes, be_bytes}
use rivet_db.Storage.Key
use rivet_db.Storage.Key.{InternalKey, compare_internal}
use rivet_db.Storage.Sorting.{count}
use rivet_db.Storage.Manifest.Edit.{
  TableMetadata, comparator_name, validate_table, encode_table, decode_table,
}
use rivet_db.Storage.Manifest.Version.{
  initial_version, level_at, frontier_covered, maximum_contiguous_frontier,
}
use rivet_db.Storage.Manifest.Version.Frontier.{
  after, BreaksAt, frontier_covered_iff, maximum_contiguous_frontier-BreaksAt,
}
use rivet_db.Storage.Manifest.Version.Covered.{held}
use rivet_db.Storage.Manifest.Apply.Grows.{Advances, apply-Advances}
use rivet_db.Storage.Manifest.Apply.WellFormed.{IsWellFormed, apply-IsWellFormed}
use rivet_db.Storage.Manifest.Apply.OneTable.{in_range, one_table_per_level}
use rivet_db.Storage.Manifest.Recovery.{initial-IsWellFormed, recover_manifest-IsWellFormed}
use rivet_db.Storage.Manifest.TableFields.{IsTyped}
use rivet_db.Storage.Manifest.TableCodec.{decode-encode_table}
use rivet_db.Storage.Manifest.Sample.{
  table, creation, flush, bytes_of, created, flushed, two_edits_recovered,
}

apply-Advances_example : Advances created flushed
apply-Advances_example = apply-Advances created flush flushed two_edits_recovered.1

apply-IsWellFormed_example : IsWellFormed created
apply-IsWellFormed_example =
    apply-IsWellFormed initial_version creation created initial-IsWellFormed two_edits_recovered.0

recover_manifest-IsWellFormed_example :
    IsWellFormed flushed × (flushed.comparator ≡ comparator_name) × (flushed.generation ≡ 2)
recover_manifest-IsWellFormed_example =
    recover_manifest-IsWellFormed (creation ∷ flush ∷ []) flushed two_edits_recovered.2

one_table_per_level_example : count (in_range (15 ∷ [])) (level_at 1 flushed.levels) ≤ 1
one_table_per_level_example =
    one_table_per_level flushed 0 (15 ∷ [])
      (recover_manifest-IsWellFormed (creation ∷ flush ∷ []) flushed two_edits_recovered.2).0

abbrev tables : List TableMetadata
tables = table 1 2 30 50 0 9 ∷ table 1 1 10 20 3 12 ∷ table 0 3 5 60 14 20 ∷ []

frontier_covered_iff_example :
    (frontier_covered tables (some 4) 12 ≡ true) ↔ ((x : ℕ) → 5 ≤ x → x ≤ 12 → held tables x ≡ true)
frontier_covered_iff_example = frontier_covered_iff tables (some 4) 12 (omega arith) (omega arith)

maximum_contiguous_frontier-BreaksAt_example :
    BreaksAt tables 5 (after (maximum_contiguous_frontier tables (some 4)))
maximum_contiguous_frontier-BreaksAt_example =
    maximum_contiguous_frontier-BreaksAt tables (some 4) (omega arith)
      (omega arith, (omega arith, (omega arith, tt)))

abbrev sample : TableMetadata
sample = table 1 2 30 50 0 9

sample_encoded : encode_table sample ≡ ok (bytes_of (encode_table sample))
unfolding encode_table validate_table compare_bytes equal_bytes compare_internal Key.encode be_bytes
sample_encoded = refl

sample-IsTyped : IsTyped sample
sample-IsTyped = record {
  level = omega arith;
  file_number = omega arith;
  flush_generation = omega arith;
  file_size = omega arith;
  entry_count = omega arith;
  deletion_count = omega arith;
  raw_key_value_bytes = omega arith;
  data_block_count = omega arith;
  smallest_sequence = omega arith;
  largest_sequence = omega arith;
  smallest_internal = (omega arith, omega arith);
  largest_internal = (omega arith, omega arith);
}

decode-encode_table_example : decode_table (bytes_of (encode_table sample)) ≡ ok sample
decode-encode_table_example =
    decode-encode_table sample (bytes_of (encode_table sample)) sample-IsTyped sample_encoded
