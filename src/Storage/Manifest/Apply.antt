-- ===== src/Storage/Manifest/Apply.antt =====
-- `Version.apply` of internal/storage/manifest/version.go, one function for each scalar of an edit.
pub mod Parts
pub mod Grows
pub mod OneTable
pub mod Levels
pub mod WellFormed
use rivet_db.Prelude.{
  ℕ, ◌+◌, ◌-◌, ◌^◌, Bool, true, false, Option, none, some, List, [], ◌&&◌, ◌||◌, not, ltb, leb,
  ◌==◌, length, if◌then◌else◌, Result, ok, err, guard, ◌>>=◌, ◌>>◌,
}
use rivet_db.Prelude.Bytes.{equal_bytes}
use rivet_db.Storage.Manifest.Edit.{
  Error, invalid_edit, comparator_mismatch, mode_mismatch, file_number_collision,
  sequence_regression, frontier_regression, frontier_gap, TableMetadata, VersionEdit, is_some,
  given, unknown_mode, comparator_name, mode_standalone, mode_replicated, mode_replicated_mvcc,
  validate_edit_shape,
}
use rivet_db.Storage.Manifest.Version.{
  Version, all_tables, highest_file, sort_levels, delete_files, add_files, frontier_covered,
}

-- `sstableMaxFileNumberPlusOne`
abbrev pub max_next_file_number : ℕ
max_next_file_number = 1000000000000

-- A comparator that is set stays; the only name is ComparatorName.
unfoldable pub next_comparator : List ℕ → Option (List ℕ) → Result Error (List ℕ)
next_comparator old none = if length old == 0 then err comparator_mismatch else ok old
next_comparator old (some name) =
    if not (equal_bytes name comparator_name) || not (length old == 0) && not (equal_bytes old name)
    then err comparator_mismatch
    else ok name

unfoldable pub next_mode : Version → Option ℕ → Result Error (ℕ × Bool)
next_mode v none = ok (v.mode, v.mode_explicit)
next_mode v (some m) =
    if unknown_mode m || v.mode_explicit || not (v.generation == 0)
    then err mode_mismatch
    else ok (m, true)

unfoldable pub next_file : ℕ → Option ℕ → Result Error ℕ
next_file old none = ok old
next_file old (some n) =
    if ltb n old || n == 0 || ltb max_next_file_number n then err file_number_collision else ok n

-- A scalar that must not fall.
abbrev pub falls : Option ℕ → ℕ → Bool
falls old n = given old (λ o. ltb n o)

unfoldable pub next_sequence : Option ℕ → Option ℕ → Result Error (Option ℕ)
next_sequence old none = ok old
next_sequence old (some n) = if falls old n then err sequence_regression else ok (some n)

unfoldable pub next_frontier :
    ℕ → Option ℕ → List TableMetadata → Option ℕ → Option ℕ → Result Error (Option ℕ)
next_frontier mode last tables old none = ok old
next_frontier mode last tables old (some n) =
    if not (mode == mode_standalone)
    then err mode_mismatch
    else if falls old n
    then err frontier_regression
    else if not (given last (λ l. leb n l))
    then err frontier_gap
    else if not (frontier_covered tables old n)
    then err frontier_gap
    else ok (some n)

unfoldable pub next_applied : ℕ → Option ℕ → Option ℕ → Result Error (Option ℕ)
next_applied mode old none = ok old
next_applied mode old (some n) =
    if not (mode == mode_replicated) && not (mode == mode_replicated_mvcc) || falls old n
    then err mode_mismatch
    else ok (some n)

unfoldable pub next_mvcc : ℕ → Option ℕ → Option ℕ → Result Error (Option ℕ)
next_mvcc mode old none = ok old
next_mvcc mode old (some n) =
    if not (mode == mode_replicated_mvcc) || n == 0 || falls old n
    then err sequence_regression
    else ok (some n)

-- The scalars of one mode do not stand in a version of another.
abbrev pub mode_conflict : ℕ → Option ℕ → Option ℕ → Option ℕ → Bool
mode_conflict mode frontier applied mvcc =
    mode == mode_standalone && is_some applied
    || (mode == mode_replicated || mode == mode_replicated_mvcc) && is_some frontier
    || not (mode == mode_replicated_mvcc) && is_some mvcc

unfoldable pub apply : Version → VersionEdit → Result Error Version
apply v edit = do
  validate_edit_shape edit
  guard (not (v.generation == 2 ^ 64 - 1)) invalid_edit
  comparator ← next_comparator v.comparator edit.comparator
  mode ← next_mode v edit.storage_mode
  file ← next_file v.next_file_number edit.next_file_number
  last ← next_sequence v.last_sequence edit.last_sequence
  deleted ← delete_files ([], v.levels) edit.deleted_files
  added ← add_files file deleted edit.added_files
  levels ← sort_levels added
  frontier ← next_frontier mode.0 last (all_tables levels) v.frontier edit.replay_frontier
  applied ← next_applied mode.0 v.replicated_applied edit.replicated_applied_through
  mvcc ← next_mvcc mode.0 v.max_applied_mvcc edit.max_applied_mvcc
  guard (not (mode_conflict mode.0 frontier applied mvcc)) mode_mismatch
  guard (ltb (highest_file levels) file) file_number_collision
  ok (record {
    generation = v.generation + 1;
    comparator = comparator;
    levels = levels;
    next_file_number = file;
    last_sequence = last;
    frontier = frontier;
    mode = mode.0;
    mode_explicit = mode.1;
    replicated_applied = applied;
    max_applied_mvcc = mvcc;
  })
