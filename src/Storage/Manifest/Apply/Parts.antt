-- ===== src/Storage/Manifest/Apply/Parts.antt =====
-- What a successful `apply` says of each of its steps.
use rivet_db.Prelude.{
  ◌+◌, ◌-◌, ◌^◌, ◌≡◌, refl, subst, true, false, List, [], ltb, ◌==◌, ok, ok_injective, not-true,
  >>=-ok, >>-ok, guard-ok,
}
use rivet_db.Storage.Manifest.Edit.{TableMetadata, VersionEdit, validate_edit_shape}
use rivet_db.Storage.Manifest.Version.{
  Version, Changes, all_tables, highest_file, sort_levels, delete_files, add_files,
}
use rivet_db.Storage.Manifest.Apply.{
  apply, next_comparator, next_mode, next_file, next_sequence, next_frontier, next_applied,
  next_mvcc, mode_conflict,
}

pub record Applied (v : Version) (edit : VersionEdit) (v' : Version) : Type 0 where
  pub shape : validate_edit_shape edit ≡ ok tt
  pub next : (v.generation == 2 ^ 64 - 1) ≡ false
  pub generation : v'.generation ≡ v.generation + 1
  pub comparator : next_comparator v.comparator edit.comparator ≡ ok v'.comparator
  pub mode : next_mode v edit.storage_mode ≡ ok (v'.mode, v'.mode_explicit)
  pub file : next_file v.next_file_number edit.next_file_number ≡ ok v'.next_file_number
  pub last : next_sequence v.last_sequence edit.last_sequence ≡ ok v'.last_sequence
  pub deleted : Changes
  pub deletes : delete_files ([], v.levels) edit.deleted_files ≡ ok deleted
  pub added : List (List TableMetadata)
  pub adds : add_files v'.next_file_number deleted edit.added_files ≡ ok added
  pub sorts : sort_levels added ≡ ok v'.levels
  pub frontier :
      next_frontier v'.mode v'.last_sequence (all_tables v'.levels) v.frontier edit.replay_frontier
      ≡ ok v'.frontier
  pub applied :
      next_applied v'.mode v.replicated_applied edit.replicated_applied_through
      ≡ ok v'.replicated_applied
  pub mvcc : next_mvcc v'.mode v.max_applied_mvcc edit.max_applied_mvcc ≡ ok v'.max_applied_mvcc
  pub agrees : mode_conflict v'.mode v'.frontier v'.replicated_applied v'.max_applied_mvcc ≡ false
  pub highest : ltb (highest_file v'.levels) v'.next_file_number ≡ true

pub apply-Applied :
    (v : Version) (edit : VersionEdit) (v' : Version) → apply v edit ≡ ok v' → Applied v edit v'
unfolding apply
apply-Applied v edit v' h =
    let (shape, h1) = >>-ok (validate_edit_shape edit) _ h in
    let (next, h2) = >>-ok _ _ h1 in
    let (comparator, e3, h3) = >>=-ok (next_comparator v.comparator edit.comparator) _ h2 in
    let (mode, e4, h4) = >>=-ok (next_mode v edit.storage_mode) _ h3 in
    let (file, e5, h5) = >>=-ok (next_file v.next_file_number edit.next_file_number) _ h4 in
    let (last, e6, h6) = >>=-ok (next_sequence v.last_sequence edit.last_sequence) _ h5 in
    let (deleted, e7, h7) = >>=-ok (delete_files ([], v.levels) edit.deleted_files) _ h6 in
    let (added, e8, h8) = >>=-ok (add_files file deleted edit.added_files) _ h7 in
    let (levels, e9, h9) = >>=-ok (sort_levels added) _ h8 in
    let (frontier, e10, h10) =
      >>=-ok (next_frontier mode.0 last (all_tables levels) v.frontier edit.replay_frontier) _ h9 in
    let (applied, e11, h11) =
      >>=-ok (next_applied mode.0 v.replicated_applied edit.replicated_applied_through) _ h10 in
    let (mvcc, e12, h12) =
      >>=-ok (next_mvcc mode.0 v.max_applied_mvcc edit.max_applied_mvcc) _ h11 in
    let (agrees, h13) = >>-ok _ _ h12 in
    let (highest, h14) = >>-ok _ _ h13 in
    subst (Applied v edit) (ok_injective h14) (record {
      shape = shape;
      next = not-true _ (guard-ok _ _ next);
      generation = refl;
      comparator = e3;
      mode = e4;
      file = e5;
      last = e6;
      deleted = deleted;
      deletes = e7;
      added = added;
      adds = e8;
      sorts = e9;
      frontier = e10;
      applied = e11;
      mvcc = e12;
      agrees = not-true _ (guard-ok _ _ agrees);
      highest = guard-ok _ _ highest;
    })
