-- ===== src/Storage/Wal/Recovery.antt =====
-- internal/storage/wal/recovery.go: recoverFromReader, which gives each whole record to a callback.
-- The callback is a test of its success; what it was given is kept in a list.
use rivet_db.Prelude.{
  ℕ, zero, suc, ◌+◌, ◌%◌, ◌^◌, Bool, true, false, Option, none, some, List, [], ◌∷◌, if◌then◌else◌,
  length,
}
use rivet_db.Storage.Wal.Reader.{Reader, LogRecord, CorruptionError, Tail, next, new_reader}

pub record RecoveryResult : Type 0 where
  pub valid_end : ℕ
  pub file_end : ℕ
  pub records : ℕ
  pub tail_truncated : Bool

pub data Failure : Type 0 where
  corrupt_log : CorruptionError → Failure
  consumer_failed : ℕ → Failure

pub record Recovery : Type 0 where
  pub result : RecoveryResult
  pub failure : Option Failure
  pub consumed : List LogRecord

abbrev pub is_truncated : Option Tail → Bool
is_truncated none = false
is_truncated (some tail) = true

abbrev pub failure_of : Option CorruptionError → Option Failure
failure_of none = none
failure_of (some e) = some (corrupt_log e)

abbrev pub scanned_to : List ℕ → ℕ → Bool → Reader → RecoveryResult
scanned_to file records truncated r = record {
  valid_end = r.valid_end;
  file_end = length file;
  records = records;
  tail_truncated = truncated;
}

abbrev pub finished : List ℕ → ℕ → Reader → Recovery
finished file records r = record {
  result = scanned_to file records (is_truncated r.tail) r;
  failure = failure_of r.error;
  consumed = [];
}

abbrev pub then_consumed : LogRecord → Option Recovery → Option Recovery
then_consumed l none = none
then_consumed l (some recovery) = some (record recovery { consumed = l ∷ recovery.consumed })

abbrev pub give :
    (LogRecord → Bool) → List ℕ → ℕ → Reader → LogRecord → Option Recovery → Option Recovery
give consume file records r l rest =
    if consume l
    then then_consumed l rest
    else some (record {
      result = scanned_to file records false r;
      failure = some (consumer_failed l.number);
      consumed = l ∷ [];
    })

-- `reader.Record()`, which Next has set where it returns true.
abbrev pub give_current :
    (LogRecord → Bool) → List ℕ → ℕ → Reader → Option LogRecord → Option Recovery → Option Recovery
give_current consume file records r none rest = none
give_current consume file records r (some l) rest = give consume file records r l rest

abbrev pub after_next :
    (LogRecord → Bool)
    → List ℕ
    → ℕ
    → (Reader → Option Recovery)
    → Option (Reader × Bool)
    → Option Recovery
after_next consume file records rest none = none
after_next consume file records rest (some (r, false)) = some (finished file records r)
after_next consume file records rest (some (r, true)) =
    give_current consume file records r r.current (rest r)

unfoldable pub recover_from : ℕ → (LogRecord → Bool) → List ℕ → ℕ → Reader → Option Recovery
recover_from zero consume file records r = none
recover_from (suc fuel) consume file records r =
    after_next consume file records (recover_from fuel consume file ((records + 1) % 2 ^ 64))
      (next file r)

-- Each record moves the offset, so one round more than the file has bytes is enough.
unfoldable pub recover : (LogRecord → Bool) → List ℕ → Option Recovery
recover consume file = recover_from (suc (length file)) consume file 0 new_reader

-- A callback that takes every record; no callback at all does the same.
abbrev pub accept_every : LogRecord → Bool
accept_every l = true
