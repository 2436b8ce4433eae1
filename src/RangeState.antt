-- ===== src/RangeState.antt =====
-- internal/replicatedrange/state_machine.go: how a range applies committed transaction commands. The
-- engine, and the codec of intents, are an interface; `Entry` is a log entry with the operation that
-- txn.DecodeOperation reads from its command.
pub mod Settled
pub mod Stands
pub mod Decision
mod Witness
use rivet_db.Prelude.{
  ℕ, ◌+◌, ◌^◌, ◌%◌, max, Bool, true, false, not, Option, none, some, List, [], ◌∷◌, ◌&&◌, ◌||◌,
  ◌==◌, ltb, leb, if◌then◌else◌, all, Result, ok, err,
}
use rivet_db.Prelude.Bytes.{equal_bytes}
use rivet_db.Mvcc.{Clock, observe}
use rivet_db.Storage.Key.{kind_delete, kind_value, kind_txn_abort, kind_intent}
use rivet_db.Txn.{
  Status, ParticipantStatus, Participant, Write, Record, ParticipantRecord, Operation, Reason,
  no_reason, newer_write, prepared, rejected, terminal, same_status, same_participant, equal_writes,
  equal_record,
}

pub data Error : Type 0 where
  key_out_of_range protocol_conflict invalid_operation engine_failure intent_failure : Error

pub record Mutation : Type 0 where
  pub key : List ℕ
  pub value : List ℕ
  pub kind : ℕ

-- The newest version of a key: its kind and timestamp, nothing, or a failed read.
pub data Newest : Type 0 where
  version : ℕ → ℕ → Newest
  not_found : Newest
  read_failed : Newest

-- The calls of the engine and of the intent codec. A batch call gives whether it failed with
-- anything but ErrAlreadyApplied.
pub record EngineOps (E : Type 0) : Type 0 where
  pub newest : E → List ℕ → Newest
  pub apply_prepared : E → ℕ → ℕ → ℕ → List Mutation → Bool × E
  pub resolve_committed : E → ℕ → ℕ → ℕ → List Mutation → Bool × E
  pub advance_applied : E → ℕ → Bool × E
  pub encode_intent : Operation → Write → Option (List ℕ)

pub data CommandType : Type 0 where
  txn_barrier txn_create txn_prepare txn_commit txn_abort txn_takeover : CommandType
  txn_resolve_commit txn_resolve_abort : CommandType

pub record Entry : Type 0 where
  pub index : ℕ
  pub term : ℕ
  pub kind : CommandType
  pub timestamp : ℕ
  pub operation : Option Operation

-- Go's map from transaction ids: the first binding of an id is the one that counts.
abbrev pub IdMap : Type 0 → Type 0
IdMap V = List (List ℕ × V)

abbrev pub find : {V : Type 0} → IdMap V → List ℕ → Option V
find [] id = none
find ((k, v) ∷ m) id = if equal_bytes k id then some v else find m id

abbrev pub put : {V : Type 0} → List ℕ → V → IdMap V → IdMap V
put id v m = (id, v) ∷ m

pub record State (E : Type 0) : Type 0 where
  pub engine : E
  pub contains_key : List ℕ → Bool
  pub max_applied : ℕ
  pub safe_read : ℕ
  pub clock : Clock
  pub range_id : ℕ
  pub generation : ℕ
  pub records : IdMap Record
  pub participants : IdMap ParticipantRecord

abbrev pub Outcome : Type 0 → Type 0
Outcome E = Result Error (Unit {0}) × State E

abbrev pub wanted : Operation → Record
wanted o = record {
  id = o.id;
  status = Status.pending;
  read_time = o.read_time;
  commit_time = o.commit_time;
  epoch = o.epoch;
  home = o.home;
  participants = o.participants;
}

-- The three operations on the transaction's own record leave all else alone, so they are functions
-- of the records.
abbrev pub create_checked : Option Record → Operation → IdMap Record → Result Error (IdMap Record)
create_checked none o m = ok (put o.id (wanted o) m)
create_checked (some existing) o m =
    if equal_record existing (wanted o) then ok m else err protocol_conflict

unfoldable pub apply_create : ℕ → ℕ → Operation → IdMap Record → Result Error (IdMap Record)
apply_create range_id generation o m =
    if not (o.home.range_id == range_id) || ltb generation o.home.generation
    then err key_out_of_range
    else create_checked (find m o.id) o m

abbrev pub same_transaction : Record → Operation → Bool
same_transaction r o =
    same_participant r.home o.home && (r.read_time == o.read_time && r.commit_time == o.commit_time)

abbrev pub decide : Option Record → Operation → Status → IdMap Record → Result Error (IdMap Record)
decide none o status m = err protocol_conflict
decide (some r) o status m =
    if not (same_transaction r o)
    then err protocol_conflict
    else if ltb o.epoch r.epoch
    then ok m
    else if not (o.epoch == r.epoch)
    then err protocol_conflict
    else if same_status r.status status
    then ok m
    else if terminal r.status
    then err protocol_conflict
    else ok (put o.id (record r { status = status }) m)

unfoldable pub apply_decision : Operation → Status → IdMap Record → Result Error (IdMap Record)
apply_decision o status m = decide (find m o.id) o status m

abbrev pub take_over : Option Record → Operation → IdMap Record → Result Error (IdMap Record)
take_over none o m = err protocol_conflict
take_over (some r) o m =
    if not (same_status r.status Status.pending) || not (same_transaction r o)
    then err protocol_conflict
    else if o.epoch == r.epoch
    then ok m
    else if not (o.epoch == (r.epoch + 1) % 2 ^ 64)
    then ok m
    else ok (put o.id (record r { epoch = o.epoch }) m)

unfoldable pub apply_takeover : Operation → IdMap Record → Result Error (IdMap Record)
apply_takeover o m = take_over (find m o.id) o m

abbrev pub settled : ParticipantStatus → Bool
settled ParticipantStatus.committed = true
settled ParticipantStatus.aborted = true
settled _ = false

abbrev pub same_participant_status : ParticipantStatus → ParticipantStatus → Bool
same_participant_status prepared prepared = true
same_participant_status rejected rejected = true
same_participant_status ParticipantStatus.committed ParticipantStatus.committed = true
same_participant_status ParticipantStatus.aborted ParticipantStatus.aborted = true
same_participant_status _ _ = false

abbrev pub same_prepare : ParticipantRecord → Operation → Bool
same_prepare p o =
    p.read_time == o.read_time
    && (p.commit_time == o.commit_time
        && (p.epoch == o.epoch
            && (same_participant p.home o.home && equal_writes p.writes o.writes)))

-- A participant record of this operation, without a reason.
abbrev pub participant_of : Operation → ParticipantStatus → List Write → ParticipantRecord
participant_of o status writes = record {
  id = o.id;
  status = status;
  read_time = o.read_time;
  commit_time = o.commit_time;
  epoch = o.epoch;
  home = o.home;
  writes = writes;
  reason = no_reason;
}

-- The versions that a prepare meets: a conflict, a failed read, or neither.
pub data Inspection : Type 0 where
  clear conflict failed : Inspection

abbrev pub is_rejected : ParticipantStatus → Bool
is_rejected rejected = true
is_rejected _ = false

abbrev resolved_kind : ParticipantStatus → Bool → ℕ
resolved_kind ParticipantStatus.committed true = kind_delete
resolved_kind ParticipantStatus.committed false = kind_value
resolved_kind _ delete = kind_txn_abort

abbrev resolved_value : ParticipantStatus → Write → List ℕ
resolved_value ParticipantStatus.committed w = if w.delete then [] else w.value
resolved_value _ w = []

abbrev pub resolved_mutations : ParticipantStatus → List Write → List Mutation
resolved_mutations status [] = []
resolved_mutations status (w ∷ ws) =
    record { key = w.key; value = resolved_value status w; kind = resolved_kind status w.delete }
    ∷ resolved_mutations status ws

abbrev pub set_records : {E : Type 0} → IdMap Record → State E → State E
set_records m s = record s { records = m }

abbrev pub set_participant : {E : Type 0} → List ℕ → ParticipantRecord → State E → State E
set_participant id p s = record s { participants = put id p s.participants }

abbrev pub set_engine : {E : Type 0} → E → State E → State E
set_engine e s = record s { engine = e }

abbrev pub store_records : {E : Type 0} → Result Error (IdMap Record) → State E → Outcome E
store_records (ok m) s = (ok tt, set_records m s)
store_records (err e) s = (err e, s)

abbrev pub engine_result : {E : Type 0} → Bool × E → State E → Outcome E
engine_result (true, e) s = (ok tt, set_engine e s)
engine_result (false, e) s = (err engine_failure, set_engine e s)

abbrev pub after : {E : Type 0} → Outcome E → (State E → Outcome E) → Outcome E
after (ok u, s) f = f s
after (err e, s) f = (err e, s)

module _ {E : Type 0} (ops : EngineOps E) where
  abbrev pub advance_metadata : ℕ → Bool → State E → Outcome E
  advance_metadata index already_durable s =
      if already_durable then (ok tt, s) else engine_result (ops.advance_applied s.engine index) s

  abbrev inspect_one : ℕ → Newest → Inspection
  inspect_one read_time not_found = clear
  inspect_one read_time read_failed = failed
  inspect_one read_time (version kind timestamp) =
      if kind == kind_intent || ltb read_time timestamp then conflict else clear

  abbrev pub inspect : ℕ → E → List Write → Inspection
  inspect read_time e [] = clear
  inspect read_time e (w ∷ ws) =
      let rest = inspect read_time e ws in
      elim (inspect_one read_time (ops.newest e w.key)) [
        | clear ↦ rest
        | conflict ↦ conflict
        | failed ↦ failed
      ]

  abbrev intent_mutation : Write → Option (List ℕ) → Option (List Mutation) → Option (List Mutation)
  intent_mutation w (some value) (some ms) =
      some (record { key = w.key; value = value; kind = kind_intent } ∷ ms)
  intent_mutation w _ _ = none

  abbrev pub intent_mutations : Operation → List Write → Option (List Mutation)
  intent_mutations o [] = some []
  intent_mutations o (w ∷ ws) = intent_mutation w (ops.encode_intent o w) (intent_mutations o ws)

  abbrev pub note_prepared : Operation → State E → Outcome E
  note_prepared o s = (ok tt, set_participant o.id (participant_of o prepared o.writes) s)

  abbrev raise_applied : Operation → State E → State E
  raise_applied o s = record s { max_applied = max s.max_applied o.commit_time }

  abbrev pub materialize : Entry → Operation → Option (List Mutation) → State E → Outcome E
  materialize entry o none s = (err intent_failure, s)
  materialize entry o (some ms) s =
      after (engine_result (ops.apply_prepared s.engine entry.index entry.term o.commit_time ms) s)
        (λ s'. note_prepared o (raise_applied o s'))

  abbrev pub refuse : Entry → Operation → State E → Outcome E
  refuse entry o s = advance_metadata entry.index false (
      set_participant o.id (record (participant_of o rejected o.writes) { reason = newer_write }) s)

  abbrev pub prepare_inspected : Entry → Operation → Inspection → State E → Outcome E
  prepare_inspected entry o failed s = (err engine_failure, s)
  prepare_inspected entry o conflict s = refuse entry o s
  prepare_inspected entry o clear s = materialize entry o (intent_mutations o o.writes) s

  abbrev pub prepare_known :
      Entry → Operation → Bool → Option ParticipantRecord → State E → Outcome E
  prepare_known entry o durable none s =
      if durable
      then note_prepared o s
      else prepare_inspected entry o (inspect o.read_time s.engine o.writes) s
  prepare_known entry o durable (some existing) s =
      if settled existing.status && leb o.epoch existing.epoch || same_prepare existing o
      then advance_metadata entry.index durable s
      else (err protocol_conflict, s)

  unfoldable pub apply_prepare : Entry → Operation → Bool → State E → Outcome E
  apply_prepare entry o durable s =
      if not (all (λ (w : Write). s.contains_key w.key) o.writes)
      then (err key_out_of_range, s)
      else prepare_known entry o durable (find s.participants o.id) s

  abbrev pub settle : Operation → ParticipantStatus → ParticipantRecord → State E → State E
  settle o status p s = set_participant o.id (record p { status = status; epoch = o.epoch }) s

  abbrev pub resolve_prepared :
      Entry → Operation → ParticipantStatus → Bool → ParticipantRecord → State E → Outcome E
  resolve_prepared entry o status durable p s =
      if durable
      then (ok tt, settle o status p s)
      else after
          (engine_result
            (ops.resolve_committed s.engine entry.index entry.term p.commit_time
              (resolved_mutations status p.writes))
            s)
          (λ s'. (ok tt, settle o status p s'))

  abbrev pub resolve_known :
      Entry → Operation → ParticipantStatus → Bool → Option ParticipantRecord → State E → Outcome E
  resolve_known entry o status durable none s =
      advance_metadata entry.index durable (set_participant o.id (participant_of o status []) s)
  resolve_known entry o status durable (some p) s =
      if not (
        p.read_time == o.read_time
        && (p.commit_time == o.commit_time && same_participant p.home o.home))
      then (err protocol_conflict, s)
      else if ltb o.epoch p.epoch || same_participant_status p.status status
      then advance_metadata entry.index durable s
      else if settled p.status
      then (err protocol_conflict, s)
      else if is_rejected p.status
      then advance_metadata entry.index durable (settle o status p s)
      else resolve_prepared entry o status durable p s

  unfoldable pub apply_resolution :
      Entry → Operation → ParticipantStatus → Bool → State E → Outcome E
  apply_resolution entry o status durable s =
      resolve_known entry o status durable (find s.participants o.id) s

  abbrev pub store_and_advance : Entry → Bool → Result Error (IdMap Record) → State E → Outcome E
  store_and_advance entry durable r s =
      after (store_records r s) (advance_metadata entry.index durable)

  abbrev pub apply_operation : Entry → Bool → Operation → CommandType → State E → Outcome E
  apply_operation entry durable o txn_create s =
      store_and_advance entry durable (apply_create s.range_id s.generation o s.records) s
  apply_operation entry durable o txn_prepare s = apply_prepare entry o durable s
  apply_operation entry durable o txn_commit s =
      store_and_advance entry durable (apply_decision o Status.committed s.records) s
  apply_operation entry durable o txn_abort s =
      store_and_advance entry durable (apply_decision o Status.aborted s.records) s
  apply_operation entry durable o txn_takeover s =
      store_and_advance entry durable (apply_takeover o s.records) s
  apply_operation entry durable o txn_resolve_commit s =
      apply_resolution entry o ParticipantStatus.committed durable s
  apply_operation entry durable o txn_resolve_abort s =
      apply_resolution entry o ParticipantStatus.aborted durable s
  apply_operation entry durable o txn_barrier s = (err invalid_operation, s)

  abbrev pub apply_decoded : Entry → Bool → Option Operation → State E → Outcome E
  apply_decoded entry durable none s = (err invalid_operation, s)
  apply_decoded entry durable (some o) s = apply_operation entry durable o entry.kind s

  abbrev pub raise_safe_read : ℕ → State E → State E
  raise_safe_read t s = record s { safe_read = max s.safe_read t }

  abbrev pub observed : ℕ → State E → State E
  observed t s = record s { clock = observe t s.clock }

  abbrev is_barrier : CommandType → Bool
  is_barrier txn_barrier = true
  is_barrier _ = false

  unfoldable pub apply_transaction : Entry → Bool → State E → Outcome E
  apply_transaction entry durable s =
      if is_barrier entry.kind
      then advance_metadata entry.index durable
          (raise_safe_read entry.timestamp (observed entry.timestamp s))
      else apply_decoded entry durable entry.operation (observed entry.timestamp s)
