-- ===== src/Storage/Wal/Repair.antt =====
-- internal/storage/wal: RepairTail of recovery.go and OpenWriter of writer.go, over the bytes of the
-- file. That a file opens, can be measured, cut, synced and closed is assumed.
use rivet_db.Prelude.{
  ℕ, Bool, true, false, Option, none, some, List, length, take, not, ◌&&◌, ◌==◌, if◌then◌else◌,
  Result, ok, err,
}
use rivet_db.Storage.Wal.{Writer, Durability}
use rivet_db.Storage.Wal.Recovery.{RecoveryResult, Recovery, Failure, recover, accept_every}

pub data RepairError : Type 0 where
  no_truncated_tail recovery_state_changed truncated_tail no_end : RepairError
  rescan : Failure → RepairError

-- `actual != recovered`
abbrev pub same_bool : Bool → Bool → Bool
same_bool true b = b
same_bool false b = not b

abbrev pub same_result : RecoveryResult → RecoveryResult → Bool
same_result a b =
    a.valid_end == b.valid_end
    && (a.file_end == b.file_end
        && (a.records == b.records && same_bool a.tail_truncated b.tail_truncated))

abbrev pub cut_tail :
    RecoveryResult → List ℕ → RecoveryResult → Option Failure → Result RepairError (List ℕ)
cut_tail recovered file actual (some e) = err (rescan e)
cut_tail recovered file actual none =
    if same_result actual recovered && actual.tail_truncated
    then ok (take recovered.valid_end file)
    else err recovery_state_changed

-- `no_end` stands for a scan that does not end; there is none.
abbrev pub repaired : RecoveryResult → List ℕ → Option Recovery → Result RepairError (List ℕ)
repaired recovered file none = err no_end
repaired recovered file (some actual) = cut_tail recovered file actual.result actual.failure

unfoldable pub repair_tail : RecoveryResult → List ℕ → Result RepairError (List ℕ)
repair_tail recovered file =
    if recovered.tail_truncated
    then repaired recovered file (recover accept_every file)
    else err no_truncated_tail

-- A writer at the end of a file; the directory is still to be synced where the file is new.
abbrev pub new_writer : Bool → Durability → List ℕ → Writer
new_writer created durability file = record {
  file = file;
  offset = length file;
  durability = durability;
  directory = created;
  closed = false;
  failed = none;
  close_failed = false;
}

abbrev pub open_scanned :
    Bool → Durability → List ℕ → Bool → Option Failure → Result RepairError Writer
open_scanned created durability file truncated (some e) = err (rescan e)
open_scanned created durability file truncated none =
    if truncated then err truncated_tail else ok (new_writer created durability file)

abbrev pub opened : Bool → Durability → List ℕ → Option Recovery → Result RepairError Writer
opened created durability file none = err no_end
opened created durability file (some scanned) =
    open_scanned created durability file scanned.result.tail_truncated scanned.failure

unfoldable pub open_writer : Bool → Durability → List ℕ → Result RepairError Writer
open_writer created durability file = opened created durability file (recover accept_every file)
