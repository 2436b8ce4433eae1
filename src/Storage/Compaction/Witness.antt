-- ===== src/Storage/Compaction/Witness.antt =====
-- A pick on a version with two overlapping tables on the first level and two below them.
use rivet_db.Prelude.{arith}
use rivet_db.Prelude.Int.{pos}
use rivet_db.Storage.Manifest.Sample.{creation, flush, flushed, two_edits_recovered, flushed_level}
use rivet_db.Storage.Manifest.Recovery.{recover_manifest-IsWellFormed}
use rivet_db.Storage.Compaction.{pick}
use rivet_db.Storage.Compaction.Valid.{Picked, pick-Picked}
use rivet_db.Prelude.{[], ◌∷◌}

pick-Picked_example : Picked flushed (pick (pos 2) flushed)
pick-Picked_example =
    pick-Picked 2 flushed
      (recover_manifest-IsWellFormed (creation ∷ flush ∷ []) flushed two_edits_recovered.2).0
      (omega (arith, flushed_level))
