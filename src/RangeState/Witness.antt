-- ===== src/RangeState/Witness.antt =====
-- Runs of the range's state machine over a small engine, and the theorems at concrete inputs.
use rivet_db.Prelude.{ℕ, ◌≡◌, refl, Bool, true, false, some, List, [], ◌∷◌, if◌then◌else◌, ok, err}
use rivet_db.Prelude.Bytes.{equal_bytes}
use rivet_db.Mvcc.{observe}
use rivet_db.Txn.{Status, Record, Operation, Participant, prepared, rejected, newer_write}
use rivet_db.RangeState.{
  EngineOps, State, Entry, Mutation, Newest, version, not_found, CommandType, txn_create,
  txn_prepare, txn_commit, txn_abort, txn_resolve_commit, protocol_conflict, participant_of, IdMap,
  find, wanted, apply_create, apply_decision, apply_transaction, apply_prepare, apply_resolution,
}
use rivet_db.RangeState.Stands.{Stands, replay, replay-Stands}
use rivet_db.RangeState.Decision.{decision_repeats, commit_excludes_abort}

-- The mutations applied so far, the latest first, each with its timestamp.
abbrev Log : Type 0
Log = List (ℕ × Mutation)

abbrev newest : Log → List ℕ → Newest
newest [] key = not_found
newest ((t, m) ∷ rest) key = if equal_bytes m.key key then version m.kind t else newest rest key

abbrev stamp : ℕ → List Mutation → Log → Log
stamp t [] log = log
stamp t (m ∷ ms) log = (t, m) ∷ stamp t ms log

abbrev small_engine : EngineOps Log
small_engine = record {
  newest = newest;
  apply_prepared = λ log index term t ms. (true, stamp t ms log);
  resolve_committed = λ log index term t ms. (true, stamp t ms log);
  advance_applied = λ log index. (true, log);
  encode_intent = λ o w. some w.value;
}

abbrev home : Participant
home = record { range_id = 3; generation = 1 }

abbrev transfer : Operation
transfer = record {
  id = 9 ∷ [];
  read_time = 10;
  commit_time = 12;
  epoch = 1;
  home = home;
  participants = home ∷ [];
  writes = record { key = 97 ∷ []; value = 5 ∷ []; delete = false } ∷ [];
}

abbrev empty : State Log
empty = record {
  engine = [];
  contains_key = λ key. true;
  max_applied = 0;
  safe_read = 0;
  clock = record { last = 0 };
  range_id = 3;
  generation = 1;
  records = [];
  participants = [];
}

abbrev command : ℕ → CommandType → Entry
command index kind = record {
  index = index;
  term = 1;
  kind = kind;
  timestamp = 12;
  operation = some transfer;
}

abbrev commit_run : List (Entry × Bool)
commit_run =
    (command 1 txn_create, false)
    ∷ (command 2 txn_prepare, false)
    ∷ (command 3 txn_commit, false)
    ∷ (command 4 txn_resolve_commit, false)
    ∷ (command 5 txn_abort, false)
    ∷ []

abbrev created : IdMap Record
created = (transfer.id, wanted transfer) ∷ []

abbrev committed_record : Record
committed_record = record (wanted transfer) { status = Status.committed }

abbrev committed_table : IdMap Record
committed_table = (transfer.id, committed_record) ∷ created

create_run : apply_create 3 1 transfer [] ≡ ok created
unfolding apply_create
create_run = refl

commit_accepted : apply_decision transfer Status.committed created ≡ ok committed_table
unfolding apply_decision equal_bytes
commit_accepted = refl

committed_found : find committed_table transfer.id ≡ some committed_record
unfolding equal_bytes
committed_found = refl

-- The value is written at the commit time over its intent.
committed_value : newest (replay small_engine commit_run empty).engine (97 ∷ []) ≡ version 1 12
unfolding apply_transaction apply_create apply_prepare apply_decision apply_resolution observe
    equal_bytes
committed_value = refl

-- A prepare whose key has a newer version is rejected when it is first applied, and recorded as
-- prepared when the same entry is applied again from an empty table, as after a restart.
abbrev written : State Log
written = record empty { engine = (11, record { key = 97 ∷ []; value = []; kind = 1 }) ∷ [] }

first_apply :
    find
      (apply_transaction small_engine (command 2 txn_prepare) false written).1.participants
      (9 ∷ [])
    ≡ some (record (participant_of transfer rejected transfer.writes) { reason = newer_write })
unfolding apply_transaction apply_prepare observe equal_bytes
first_apply = refl

second_apply :
    find
      (apply_transaction small_engine (command 2 txn_prepare) true written).1.participants
      (9 ∷ [])
    ≡ some (participant_of transfer prepared transfer.writes)
unfolding apply_transaction apply_prepare observe equal_bytes
second_apply = refl

replay-Stands_example : Stands empty (replay small_engine commit_run empty)
replay-Stands_example = replay-Stands small_engine commit_run empty

decision_repeats_example :
    apply_decision transfer Status.committed committed_table ≡ ok committed_table
decision_repeats_example =
    decision_repeats transfer Status.committed created committed_table commit_accepted

commit_excludes_abort_example :
    apply_decision transfer Status.aborted committed_table ≡ err protocol_conflict
commit_excludes_abort_example =
    commit_excludes_abort transfer created committed_table committed_record commit_accepted
      committed_found refl
