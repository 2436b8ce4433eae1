-- ===== src/Storage/Manifest/Apply/WellFormed.antt =====
-- The invariant of a version: what the code relies on in every version that an edit makes.
use rivet_db.Prelude.{
  ℕ, suc, ◌≤◌, ◌<◌, ◌≡◌, refl, subst, ap, ◌∙◌, false, Option, none, some, List, [], ◌∷◌, ◌&&◌, not,
  leb, ok, guard, arith, length, All, ok_injective, not-true, >>=-ok, >>-ok, guard-ok,
}
use rivet_db.Storage.Sorting.{sort, count-sort, All-sort}
use rivet_db.Storage.Manifest.Edit.{
  TableMetadata, VersionEdit, given, validate_table, check_deletions, check_additions,
  validate_edit_shape, has_change, max_changes_per_edit, bad_scalars, bad_comparator,
  overlapping_level, max_levels, invalid_edit,
}
use rivet_db.Storage.Manifest.Version.{
  Version, all_tables, has_number, sort_upper, sort_levels, overlaps, by_key, newest_first,
}
use rivet_db.Storage.Manifest.Apply.{apply, mode_conflict, next_frontier}
use rivet_db.Storage.Manifest.Apply.Levels.{
  count_file, Placed, Sound, delete_files-Sound, add_files-Sound, check_additions-valid,
  highest_file-bound,
}
use rivet_db.Storage.Manifest.Apply.Grows.{KeepsUp, apply-Advances}
use rivet_db.Storage.Manifest.Apply.Parts.{apply-Applied}

abbrev pub Disjoint : List (List TableMetadata) → Type 0
Disjoint [] = Unit {0}
Disjoint (l ∷ ls) = All (λ u. overlaps u ≡ false) ls

abbrev pub Within : Option ℕ → Option ℕ → Type 0
Within none last = Unit {0}
Within (some f) none = ⊥
Within (some f) (some l) = f ≤ l

pub record IsWellFormed (v : Version) : Type 0 where
  pub levels : length v.levels ≡ max_levels
  pub unique : (n : ℕ) → count_file v.levels n ≤ 1
  pub allocated : (n : ℕ) → 0 < count_file v.levels n → n < v.next_file_number
  pub placed : Placed 0 v.levels
  pub disjoint : Disjoint v.levels
  pub frontier : Within v.frontier v.last_sequence
  pub mode : mode_conflict v.mode v.frontier v.replicated_applied v.max_applied_mvcc ≡ false

-- What the loop over the levels above the first does.
record Arranged (i : ℕ) (ls r : List (List TableMetadata)) : Type 0 where
  levels : length r ≡ length ls
  same : (n : ℕ) → count_file r n ≡ count_file ls n
  placed : Placed i ls → Placed i r
  disjoint : All (λ u. overlaps u ≡ false) r

sort_upper-Arranged :
    (i : ℕ) (ls r : List (List TableMetadata)) → sort_upper ls ≡ ok r → Arranged i ls r
sort_upper-Arranged i [] r h =
    subst (Arranged i []) (ok_injective h)
      (record { levels = refl; same = λ n. refl; placed = λ p. tt; disjoint = tt })
sort_upper-Arranged i (l ∷ ls) r h =
    let (apart, h1) = >>-ok (guard (not (overlaps (sort by_key l))) overlapping_level) _ h in
    let (rest, e, h2) = >>=-ok (sort_upper ls) _ h1 in
    let a = sort_upper-Arranged (suc i) ls rest e in
    subst (Arranged i (l ∷ ls)) {x = sort by_key l ∷ rest} (ok_injective h2) (record {
      levels = ap suc a.levels;
      same = λ n. omega (arith, count-sort {A = TableMetadata} by_key (has_number n) l, a.same n);
      placed = λ (p, ps). (All-sort _ by_key l p, a.placed ps);
      disjoint = (not-true _ (guard-ok _ _ apart), a.disjoint);
    })

record Ordered (ls r : List (List TableMetadata)) : Type 0 where
  levels : length r ≡ length ls
  same : (n : ℕ) → count_file r n ≡ count_file ls n
  placed : Placed 0 ls → Placed 0 r
  disjoint : Disjoint r

sort_levels-Ordered : (ls r : List (List TableMetadata)) → sort_levels ls ≡ ok r → Ordered ls r
sort_levels-Ordered [] r h =
    subst (Ordered []) (ok_injective h)
      (record { levels = refl; same = λ n. refl; placed = λ p. tt; disjoint = tt })
sort_levels-Ordered (l ∷ ls) r h =
    let (rest, e, h2) = >>=-ok (sort_upper ls) _ h in
    let a = sort_upper-Arranged 1 ls rest e in
    subst (Ordered (l ∷ ls)) {x = sort newest_first l ∷ rest} (ok_injective h2) (record {
      levels = ap suc a.levels;
      same = λ n.
          omega (arith, count-sort {A = TableMetadata} newest_first (has_number n) l, a.same n);
      placed = λ (p, ps). (All-sort _ newest_first l p, a.placed ps);
      disjoint = a.disjoint;
    })

Within-mono : (f old new : Option ℕ) → Within f old → KeepsUp old new → Within f new
Within-mono none old new h k = tt
Within-mono (some f) none new h k = absurd h
Within-mono (some f) (some o) none h k = absurd k
Within-mono (some f) (some o) (some n) h k = omega arith

next_frontier-Within :
    (mode : ℕ) (last : Option ℕ) (tables : List TableMetadata) (old n r : Option ℕ)
    → next_frontier mode last tables old n ≡ ok r
    → Within old last
    → Within r last
unfolding next_frontier
next_frontier-Within mode last tables old none r h w = subst (λ o. Within o last) (ok_injective h) w
next_frontier-Within mode none tables old (some n) none h w = tt
next_frontier-Within mode (some l) tables old (some n) none h w = tt
next_frontier-Within mode none tables old (some n) (some r) h w = absurd (ground arith)
next_frontier-Within mode (some l) tables old (some n) (some r) h w = ground arith

edit_tables_valid :
    (e : VersionEdit)
    → validate_edit_shape e ≡ ok tt
    → All (λ t. validate_table t ≡ ok tt) e.added_files
unfolding validate_edit_shape
edit_tables_valid e h =
    let (_, h1) = >>-ok (guard (has_change e) invalid_edit) _ h in
    let (_, h2) =
      >>-ok
        (guard
          (leb (length e.added_files) max_changes_per_edit
            && leb (length e.deleted_files) max_changes_per_edit)
          invalid_edit)
        _ h1 in
    let (_, h3) = >>-ok (guard (not (bad_scalars e)) invalid_edit) _ h2 in
    let (_, h4) = >>-ok (guard (not (given e.comparator bad_comparator)) invalid_edit) _ h3 in
    let (seen, _, h5) =
      >>=-ok (check_deletions [] e.deleted_files) (λ s. check_additions s e.added_files) h4 in
    check_additions-valid seen e.added_files h5

-- An edit that applies to a version with these properties makes another: there are MaxLevels levels; a
-- file number is that of one table at most, and below the next file number; every table passes
-- validateTable and stands on the level that it names; no level above the first has overlaps; the
-- replay frontier is not past the last sequence; and the mode has no scalar of another.
pub apply-IsWellFormed :
    (v : Version) (edit : VersionEdit) (v' : Version)
    → IsWellFormed v
    → apply v edit ≡ ok v'
    → IsWellFormed v'
apply-IsWellFormed v edit v' w h =
    let a = apply-Applied v edit v' h in
    let g = apply-Advances v edit v' h in
    let start : Sound v.levels = record {
      levels = w.levels;
      unique = w.unique;
      placed = w.placed;
    } in
    let deleted = delete_files-Sound [] v.levels edit.deleted_files a.deleted a.deletes start in
    let added =
      add_files-Sound v'.next_file_number a.deleted.0 a.deleted.1 edit.added_files a.added
        (edit_tables_valid edit a.shape) a.adds deleted in
    let o = sort_levels-Ordered a.added v'.levels a.sorts in
    record {
      levels = o.levels ∙ added.levels;
      unique = λ n. omega (arith, o.same n, added.unique n);
      allocated = λ n p. ground (arith, highest_file-bound v'.levels n, a.highest);
      placed = o.placed added.placed;
      disjoint = o.disjoint;
      frontier =
          next_frontier-Within v'.mode v'.last_sequence (all_tables v'.levels) v.frontier
            edit.replay_frontier v'.frontier a.frontier
            (Within-mono v.frontier v.last_sequence v'.last_sequence w.frontier g.last);
      mode = a.agrees;
    }
