-- ===== src/Storage/Manifest/Version.antt =====
-- internal/storage/manifest/version.go: the version that an edit makes of another. `levels` has
-- MaxLevels members; a nil Version is the initial one.
pub mod Covered
pub mod Frontier
use rivet_db.Prelude.{
  ℕ, zero, suc, ◌+◌, ◌-◌, ◌^◌, Bool, true, false, Option, none, some, List, [], ◌∷◌, ◌++◌, ◌&&◌,
  ◌||◌, not, ltb, leb, ◌==◌, if◌then◌else◌, Ordering, compare, max, length, any, Result, ok, err,
  guard, ◌>>=◌, ◌>>◌,
}
use rivet_db.Prelude.Bytes.{compare_bytes, equal_bytes}
use rivet_db.Storage.Key
use rivet_db.Storage.Sorting.{sort}
use rivet_db.Storage.Manifest.Edit.{
  Error, invalid_edit, comparator_mismatch, mode_mismatch, file_number_collision,
  sequence_regression, frontier_regression, frontier_gap, unknown_file, duplicate_file,
  overlapping_level, manifest_corrupt, TableMetadata, DeletedFile, VersionEdit, is_some, given,
  less_bytes, seen_file, unknown_mode, comparator_name, mode_standalone, mode_replicated,
  mode_replicated_mvcc, validate_edit_shape, max_levels,
}

-- A pair of a value and the flag that says whether there is one, in Go two fields.
pub record Version : Type 0 where
  pub generation : ℕ
  pub comparator : List ℕ
  pub levels : List (List TableMetadata)
  pub next_file_number : ℕ
  pub last_sequence : Option ℕ
  pub frontier : Option ℕ
  pub mode : ℕ
  pub mode_explicit : Bool
  pub replicated_applied : Option ℕ
  pub max_applied_mvcc : Option ℕ

abbrev pub initial_version : Version
initial_version = record {
  generation = 0;
  comparator = [];
  levels = [] ∷ [] ∷ [] ∷ [] ∷ [] ∷ [] ∷ [] ∷ [] ∷ [];
  next_file_number = 1;
  last_sequence = none;
  frontier = none;
  mode = mode_standalone;
  mode_explicit = false;
  replicated_applied = none;
  max_applied_mvcc = none;
}

-- `v.levels[level]`, and its update.
abbrev pub level_at : ℕ → List (List TableMetadata) → List TableMetadata
level_at n [] = []
level_at zero (l ∷ ls) = l
level_at (suc n) (l ∷ ls) = level_at n ls

abbrev pub set_level :
    ℕ → List TableMetadata → List (List TableMetadata) → List (List TableMetadata)
set_level n tables [] = []
set_level zero tables (l ∷ ls) = tables ∷ ls
set_level (suc n) tables (l ∷ ls) = l ∷ set_level n tables ls

abbrev pub all_tables : List (List TableMetadata) → List TableMetadata
all_tables [] = []
all_tables (l ∷ ls) = l ++ all_tables ls

abbrev pub has_number : ℕ → TableMetadata → Bool
has_number n t = t.file_number == n

-- `findFile(…) >= 0`, over one level and over all.
abbrev pub found : List TableMetadata → ℕ → Bool
found tables n = any (has_number n) tables

abbrev pub has_file : List (List TableMetadata) → ℕ → Bool
has_file [] n = false
has_file (l ∷ ls) n = found l n || has_file ls n

-- `slices.Delete` at the index that findFile returns.
abbrev pub delete_file : List TableMetadata → ℕ → List TableMetadata
delete_file [] n = []
delete_file (t ∷ ts) n = if has_number n t then ts else t ∷ delete_file ts n

abbrev pub highest_in : List TableMetadata → ℕ
highest_in [] = 0
highest_in (t ∷ ts) = max t.file_number (highest_in ts)

abbrev pub highest_file : List (List TableMetadata) → ℕ
highest_file [] = 0
highest_file (l ∷ ls) = max (highest_in l) (highest_file ls)

-- `if order := …; order != 0 { return order }`
abbrev pub or_else : Ordering → Ordering → Ordering
or_else Ordering.lt next = Ordering.lt
or_else Ordering.eq next = next
or_else Ordering.gt next = Ordering.gt

abbrev pub newest_first : TableMetadata → TableMetadata → Ordering
newest_first left right = or_else (compare right.largest_sequence left.largest_sequence) (
    or_else (compare right.flush_generation left.flush_generation)
      (compare right.file_number left.file_number))

abbrev pub by_key : TableMetadata → TableMetadata → Ordering
by_key left right =
    or_else (compare_bytes left.smallest_user right.smallest_user)
      (compare left.file_number right.file_number)

abbrev pub overlaps_from : TableMetadata → List TableMetadata → Bool
overlaps_from last [] = false
overlaps_from last (t ∷ ts) =
    not (less_bytes last.largest_user t.smallest_user) || overlaps_from t ts

abbrev pub overlaps : List TableMetadata → Bool
overlaps [] = false
overlaps (t ∷ ts) = overlaps_from t ts

-- The loop that sorts the levels: level 0 by age, the others by key and without overlaps.
abbrev pub sort_upper : List (List TableMetadata) → Result Error (List (List TableMetadata))
sort_upper [] = ok []
sort_upper (l ∷ ls) = do
  let sorted = sort by_key l
  guard (not (overlaps sorted)) overlapping_level
  rest ← sort_upper ls
  ok (sorted ∷ rest)

abbrev pub sort_levels : List (List TableMetadata) → Result Error (List (List TableMetadata))
sort_levels [] = ok []
sort_levels (l ∷ ls) = do rest ← sort_upper ls; ok (sort newest_first l ∷ rest)

-- The file numbers seen, and the levels.
abbrev pub Changes : Type 0
Changes = List ℕ × List (List TableMetadata)

unfoldable pub delete_files : Changes → List DeletedFile → Result Error Changes
delete_files (seen, levels) [] = ok (seen, levels)
delete_files (seen, levels) (d ∷ ds) =
    guard (not (seen_file d.file_number seen)) invalid_edit
    >> (guard (found (level_at d.level levels) d.file_number) unknown_file
        >> delete_files
            (
              d.file_number ∷ seen,
              set_level d.level (delete_file (level_at d.level levels) d.file_number) levels,
            )
            ds)

unfoldable pub add_files :
    ℕ → Changes → List TableMetadata → Result Error (List (List TableMetadata))
add_files next_file (seen, levels) [] = ok levels
add_files next_file (seen, levels) (t ∷ ts) =
    guard (not (seen_file t.file_number seen)) invalid_edit
    >> (guard (not (has_file levels t.file_number)) duplicate_file
        >> (guard (ltb t.file_number next_file) file_number_collision
            >> add_files next_file
                (t.file_number ∷ seen, set_level t.level (level_at t.level levels ++ t ∷ []) levels)
                ts))

-- Sequence spans, the smallest and the largest sequence of a table.
pub record SequenceSpan : Type 0 where
  pub first : ℕ
  pub last : ℕ

abbrev pub span : TableMetadata → SequenceSpan
span t = record { first = t.smallest_sequence; last = t.largest_sequence }

abbrev pub by_first : SequenceSpan → SequenceSpan → Ordering
by_first left right = or_else (compare left.first right.first) (compare right.last left.last)

-- The spans that end at `start` or later and begin at `target` or earlier.
abbrev pub spans_between : ℕ → ℕ → List TableMetadata → List SequenceSpan
spans_between start target [] = []
spans_between start target (t ∷ ts) =
    if leb start t.largest_sequence && leb t.smallest_sequence target
    then span t ∷ spans_between start target ts
    else spans_between start target ts

unfoldable pub scan_covered : ℕ → ℕ → List SequenceSpan → Bool
scan_covered target cursor [] = false
scan_covered target cursor (s ∷ ss) =
    let skip = scan_covered target cursor ss in
    let on = scan_covered target (s.last + 1) ss in
    if ltb cursor s.first
    then false
    else if ltb s.last cursor
    then skip
    else if leb target s.last
    then true
    else on

-- What frontierCovered asks of the tables from `start` on.
unfoldable pub covered_from : List TableMetadata → ℕ → ℕ → Bool
covered_from tables start target =
    scan_covered target start (sort by_first (spans_between start target tables))

unfoldable pub frontier_covered : List TableMetadata → Option ℕ → ℕ → Bool
frontier_covered tables none target = covered_from tables 0 target
frontier_covered tables (some f) target =
    if target == f
    then true
    else if f == 2 ^ 64 - 1
    then target == 2 ^ 64 - 1
    else covered_from tables (f + 1) target

-- maximumContiguousFrontier: the spans that end at `start` or later, whether the cursor has moved,
-- and the scan.
abbrev pub spans_from : ℕ → List TableMetadata → List SequenceSpan
spans_from start [] = []
spans_from start (t ∷ ts) =
    if leb start t.largest_sequence then span t ∷ spans_from start ts else spans_from start ts

unfoldable pub scan_contiguous : ℕ → Bool → List SequenceSpan → ℕ × Bool
scan_contiguous cursor advanced [] = (cursor, advanced)
scan_contiguous cursor advanced (s ∷ ss) =
    let skip = scan_contiguous cursor advanced ss in
    let on = scan_contiguous (s.last + 1) true ss in
    if ltb cursor s.first
    then (cursor, advanced)
    else if ltb s.last cursor
    then skip
    else if s.last == 2 ^ 64 - 1
    then (2 ^ 64, true)
    else on

abbrev pub contiguous_end : Option ℕ → ℕ × Bool → Option ℕ
contiguous_end frontier (cursor, false) = frontier
contiguous_end frontier (cursor, true) = some (cursor - 1)

unfoldable pub contiguous_from : List TableMetadata → ℕ → ℕ × Bool
contiguous_from tables start = scan_contiguous start false (sort by_first (spans_from start tables))

unfoldable pub maximum_contiguous_frontier : List TableMetadata → Option ℕ → Option ℕ
maximum_contiguous_frontier tables none = contiguous_end none (contiguous_from tables 0)
maximum_contiguous_frontier tables (some f) =
    if f == 2 ^ 64 - 1 then some f else contiguous_end (some f) (contiguous_from tables (f + 1))
