-- ===== src/Storage/Wal/Witness.antt =====
-- A log of two records, the first of them empty.
use rivet_db.Prelude.{
  err, length, ◌++◌, take, drop, take-append-drop, false, ℕ, ◌≡◌, refl, true, false, none, some,
  List, [], ◌∷◌, ok, ◌≢◌, arith,
}
use rivet_db.Prelude.Bytes.{le_bytes}
use rivet_db.Storage.Wal.{
  Writer, Device, Position, sync_batch, append, write_fragments, make_header, crc_update, crc_bytes,
  sync_locked,
}
use rivet_db.Storage.Wal.Log.{recover-Appends, recover_torn}
use rivet_db.Storage.Wal.Outcomes.{Recovered}
use rivet_db.Storage.Wal.Appends.{no_appends, one_append}
use rivet_db.Storage.Wal.Frames.{frames}
use rivet_db.Storage.Wal.Reader.{new_reader, next}
use rivet_db.Storage.Wal.Rounds.{Ends, next-Ends, recover_total}
use rivet_db.Storage.Wal.Repair.{repair_tail, open_writer, truncated_tail, new_writer}
use rivet_db.Storage.Wal.Reopen.{repair_reopens}
use rivet_db.Storage.Wal.Recovery.{accept_every, Recovery, recover}

abbrev device : Device
device = record {
  accepts = some 1000;
  file_syncs = true;
  directory_syncs = true;
  directory_closes = true;
}

abbrev empty_log : Writer
empty_log = record {
  file = [];
  offset = 0;
  durability = sync_batch;
  directory = true;
  closed = false;
  failed = none;
  close_failed = false;
}

abbrev at : ℕ → ℕ → Position
at start end = record { start = start; end = end }

abbrev one_record : Writer
one_record = (append [] (empty_log, device)).0

abbrev two_records : Writer
two_records = (append (7 ∷ 8 ∷ []) (one_record, device)).0

first_append : append [] (empty_log, device) ≡ (one_record, ok (at 0 11))
unfolding append write_fragments make_header crc_update crc_bytes le_bytes sync_locked
first_append = refl

second_append : append (7 ∷ 8 ∷ []) (one_record, device) ≡ (two_records, ok (at 11 24))
unfolding append write_fragments make_header crc_update crc_bytes le_bytes sync_locked
second_append = refl

abbrev entries : List (List ℕ × Position)
entries = ([], at 0 11) ∷ (7 ∷ 8 ∷ [], at 11 24) ∷ []

recover-Appends_example :
    (out : Recovery) × (recover accept_every two_records.file ≡ some out)
    × Recovered entries two_records.file (length two_records.file) 0 out
    × (out.result.tail_truncated ≡ false)
recover-Appends_example = recover-Appends empty_log two_records entries refl refl (
    one_append [] device (at 0 11) first_append
      (one_append (7 ∷ 8 ∷ []) device (at 11 24) second_append no_appends))

abbrev third_frames : List ℕ
third_frames = frames 4 true (5 ∷ []) 24

-- The machine stops when the third record lacks its last byte.
recover_torn_example :
    (out : Recovery) × (recover accept_every (two_records.file ++ take 11 third_frames) ≡ some out)
    × Recovered entries (two_records.file ++ take 11 third_frames) (length two_records.file) 0 out
    × (out.result.tail_truncated ≡ true)
unfolding append write_fragments frames make_header le_bytes sync_locked
recover_torn_example =
    recover_torn empty_log two_records entries (5 ∷ []) (take 11 third_frames)
      (drop 11 third_frames) refl refl
      (one_append [] device (at 0 11) first_append
        (one_append (7 ∷ 8 ∷ []) device (at 11 24) second_append no_appends))
      (omega arith) (take-append-drop 11 third_frames) (omega arith)

repair_reopens_example :
    (out : Recovery) × (recover accept_every (two_records.file ++ take 11 third_frames) ≡ some out)
    × (out.result.tail_truncated ≡ true)
    × (repair_tail out.result (two_records.file ++ take 11 third_frames) ≡ ok two_records.file)
    × (open_writer false sync_batch (two_records.file ++ take 11 third_frames) ≡ err truncated_tail)
    × (open_writer false sync_batch two_records.file
        ≡ ok (new_writer false sync_batch two_records.file))
unfolding append write_fragments frames make_header le_bytes sync_locked
repair_reopens_example =
    repair_reopens false sync_batch empty_log two_records entries (5 ∷ []) (take 11 third_frames)
      (drop 11 third_frames) refl refl
      (one_append [] device (at 0 11) first_append
        (one_append (7 ∷ 8 ∷ []) device (at 11 24) second_append no_appends))
      (omega arith) (take-append-drop 11 third_frames) (omega arith)

next-Ends_example : Ends (1 ∷ 2 ∷ 3 ∷ []) 0 (next (1 ∷ 2 ∷ 3 ∷ []) new_reader)
next-Ends_example = next-Ends (1 ∷ 2 ∷ 3 ∷ []) new_reader (omega arith)

recover_total_example : recover accept_every (1 ∷ 2 ∷ 3 ∷ []) ≢ none
recover_total_example = recover_total accept_every (1 ∷ 2 ∷ 3 ∷ [])
