-- ===== src/Storage/Manifest/Apply/Grows.antt =====
-- A version only moves forward.
use rivet_db.Prelude.{ℕ, ◌+◌, ◌≤◌, ◌≡◌, Bool, true, false, Option, none, some, List, ok, arith}
use rivet_db.Storage.Manifest.Edit.{TableMetadata, VersionEdit}
use rivet_db.Storage.Manifest.Version.{Version, all_tables}
use rivet_db.Storage.Manifest.Apply.{
  apply, next_mode, next_file, next_sequence, next_frontier, next_applied, next_mvcc, falls,
}
use rivet_db.Storage.Manifest.Apply.Parts.{apply-Applied}

-- A scalar that is there stays, and does not fall.
abbrev pub KeepsUp : Option ℕ → Option ℕ → Type 0
KeepsUp none new = Unit {0}
KeepsUp (some o) none = ⊥
KeepsUp (some o) (some n) = o ≤ n

KeepsUp-refl : (o : Option ℕ) → KeepsUp o o
KeepsUp-refl none = tt
KeepsUp-refl (some o) = omega arith

falls-KeepsUp : (o : Option ℕ) (n : ℕ) → falls o n ≡ false → KeepsUp o (some n)
falls-KeepsUp none n h = tt
falls-KeepsUp (some o) n h = ground arith

pub record Advances (v v' : Version) : Type 0 where
  pub generation : v'.generation ≡ v.generation + 1
  pub file : v.next_file_number ≤ v'.next_file_number
  pub last : KeepsUp v.last_sequence v'.last_sequence
  pub frontier : KeepsUp v.frontier v'.frontier
  pub applied : KeepsUp v.replicated_applied v'.replicated_applied
  pub mvcc : KeepsUp v.max_applied_mvcc v'.max_applied_mvcc
  pub mode : v.mode_explicit ≡ true → v'.mode ≡ v.mode

next_file-le : (old : ℕ) (n : Option ℕ) (r : ℕ) → next_file old n ≡ ok r → old ≤ r
unfolding next_file
next_file-le old none r h = ground arith
next_file-le old (some n) r h = ground arith

next_sequence-KeepsUp : (old n r : Option ℕ) → next_sequence old n ≡ ok r → KeepsUp old r
unfolding next_sequence
next_sequence-KeepsUp none n r h = tt
next_sequence-KeepsUp (some o) none none h = ground arith
next_sequence-KeepsUp (some o) none (some r) h = ground arith
next_sequence-KeepsUp (some o) (some n) none h = ground arith
next_sequence-KeepsUp (some o) (some n) (some r) h = ground arith

next_frontier-KeepsUp :
    (mode : ℕ) (last : Option ℕ) (tables : List TableMetadata) (old n r : Option ℕ)
    → next_frontier mode last tables old n ≡ ok r
    → KeepsUp old r
unfolding next_frontier
next_frontier-KeepsUp mode last tables none n r h = tt
next_frontier-KeepsUp mode last tables (some o) none none h = ground arith
next_frontier-KeepsUp mode last tables (some o) none (some r) h = ground arith
next_frontier-KeepsUp mode last tables (some o) (some n) none h = ground arith
next_frontier-KeepsUp mode last tables (some o) (some n) (some r) h = ground arith

next_applied-KeepsUp :
    (mode : ℕ) (old n r : Option ℕ) → next_applied mode old n ≡ ok r → KeepsUp old r
unfolding next_applied
next_applied-KeepsUp mode none n r h = tt
next_applied-KeepsUp mode (some o) none none h = ground arith
next_applied-KeepsUp mode (some o) none (some r) h = ground arith
next_applied-KeepsUp mode (some o) (some n) none h = ground arith
next_applied-KeepsUp mode (some o) (some n) (some r) h = ground arith

next_mvcc-KeepsUp : (mode : ℕ) (old n r : Option ℕ) → next_mvcc mode old n ≡ ok r → KeepsUp old r
unfolding next_mvcc
next_mvcc-KeepsUp mode none n r h = tt
next_mvcc-KeepsUp mode (some o) none none h = ground arith
next_mvcc-KeepsUp mode (some o) none (some r) h = ground arith
next_mvcc-KeepsUp mode (some o) (some n) none h = ground arith
next_mvcc-KeepsUp mode (some o) (some n) (some r) h = ground arith

next_mode-keeps :
    (v : Version) (n : Option ℕ) (mode : ℕ) (explicit : Bool)
    → next_mode v n ≡ ok (mode, explicit)
    → v.mode_explicit ≡ true
    → mode ≡ v.mode
unfolding next_mode
next_mode-keeps v none mode explicit h e = ground arith
next_mode-keeps v (some n) mode explicit h e = ground arith

-- An edit that applies adds one to the generation, lowers neither the next file number nor the last
-- sequence, the replay frontier, the replicated frontier or the highest MVCC timestamp, removes none
-- of them, and leaves a mode alone that an earlier edit set.
pub apply-Advances :
    (v : Version) (edit : VersionEdit) (v' : Version) → apply v edit ≡ ok v' → Advances v v'
apply-Advances v edit v' h =
    let a = apply-Applied v edit v' h in
    record {
      generation = a.generation;
      file = next_file-le v.next_file_number edit.next_file_number v'.next_file_number a.file;
      last = next_sequence-KeepsUp v.last_sequence edit.last_sequence v'.last_sequence a.last;
      frontier =
          next_frontier-KeepsUp v'.mode v'.last_sequence (all_tables v'.levels) v.frontier
            edit.replay_frontier v'.frontier a.frontier;
      applied =
          next_applied-KeepsUp v'.mode v.replicated_applied edit.replicated_applied_through
            v'.replicated_applied a.applied;
      mvcc =
          next_mvcc-KeepsUp v'.mode v.max_applied_mvcc edit.max_applied_mvcc v'.max_applied_mvcc
            a.mvcc;
      mode = next_mode-keeps v edit.storage_mode v'.mode v'.mode_explicit a.mode;
    }
