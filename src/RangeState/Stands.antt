-- ===== src/RangeState/Stands.antt =====
-- One command, and any sequence of commands: what was decided stands.
use rivet_db.Prelude.{
  ℕ, ◌≡◌, refl, ap, ◌∙◌, Bool, true, false, Option, none, some, List, [], ◌∷◌, arith, Result, ok,
  err, Bool-cases, inl, inr,
}
use rivet_db.Txn.{Status, ParticipantStatus, Record, ParticipantRecord, Operation, prepared}
use rivet_db.RangeState.{
  Error, IdMap, find, EngineOps, State, Outcome, Entry, Inspection, clear, conflict, failed,
  Mutation, CommandType, txn_barrier, txn_create, txn_prepare, txn_commit, txn_abort, txn_takeover,
  txn_resolve_commit, txn_resolve_abort, settled, participant_of, set_participant, set_engine,
  store_records, engine_result, after, advance_metadata, inspect, intent_mutations, materialize,
  prepare_inspected, prepare_known, apply_prepare, settle, resolve_prepared, resolve_known,
  apply_resolution, store_and_advance, apply_operation, apply_decoded, raise_safe_read, observed,
  apply_transaction, resolved_mutations,
}
use rivet_db.RangeState.Settled.{
  RetainsBy, RetainsBy-refl, RetainsBy-trans, put-RetainsBy, Retains, Retains-refl, Retains-trans,
  Kept, apply_create-Kept, apply_decision-Kept, apply_takeover-Kept,
}

-- What a later record of the same participant keeps.
pub record KeepsParticipant (p p' : ParticipantRecord) : Type 0 where
  pub status : settled p.status ≡ true → p'.status ≡ p.status
  pub read_time : p'.read_time ≡ p.read_time
  pub commit_time : p'.commit_time ≡ p.commit_time
  pub home : p'.home ≡ p.home

KeepsParticipant-refl : (p : ParticipantRecord) → KeepsParticipant p p
KeepsParticipant-refl p = record {
  status = λ h. refl;
  read_time = refl;
  commit_time = refl;
  home = refl;
}

KeepsParticipant-trans :
    (a b c : ParticipantRecord) → KeepsParticipant a b → KeepsParticipant b c → KeepsParticipant a c
KeepsParticipant-trans a b c h k = record {
  status = λ t. (let same = h.status t in k.status (ap settled same ∙ t) ∙ same);
  read_time = k.read_time ∙ h.read_time;
  commit_time = k.commit_time ∙ h.commit_time;
  home = k.home ∙ h.home;
}

module _ {E : Type 0} where
  pub record Stands (s s' : State E) : Type 0 where
    pub records : Retains s.records s'.records
    pub participants : RetainsBy KeepsParticipant s.participants s'.participants

  pub Stands-refl : (s : State E) → Stands s s
  Stands-refl s = record {
    records = Retains-refl s.records;
    participants = RetainsBy-refl KeepsParticipant KeepsParticipant-refl s.participants;
  }

  pub Stands-trans : (a b c : State E) → Stands a b → Stands b c → Stands a c
  Stands-trans a b c h k = record {
    records = Retains-trans a.records b.records c.records h.records k.records;
    participants =
        RetainsBy-trans KeepsParticipant a.participants b.participants c.participants
          KeepsParticipant-trans h.participants k.participants;
  }

  -- A change of other fields.
  Stands-same :
      (s s' : State E) → s'.records ≡ s.records → s'.participants ≡ s.participants → Stands s s'
  Stands-same s s' r p = record {
    records = rw r (Retains-refl s.records);
    participants = rw p (RetainsBy-refl KeepsParticipant KeepsParticipant-refl s.participants);
  }

  set_participant-Stands :
      (s : State E) (id : List ℕ) (new : ParticipantRecord)
      → ((old : ParticipantRecord) → find s.participants id ≡ some old → KeepsParticipant old new)
      → Stands s (set_participant id new s)
  set_participant-Stands s id new h = record {
    records = Retains-refl s.records;
    participants = put-RetainsBy KeepsParticipant KeepsParticipant-refl s.participants id new h;
  }

  engine_result-Stands : (r : Bool × E) (s : State E) → Stands s (engine_result r s).1
  engine_result-Stands (true, e) s = Stands-same s (set_engine e s) refl refl
  engine_result-Stands (false, e) s = Stands-same s (set_engine e s) refl refl

  after-Stands :
      (s : State E) (r : Outcome E) (f : State E → Outcome E)
      → Stands s r.1
      → ((s' : State E) → Stands s' (f s').1)
      → Stands s (after r f).1
  after-Stands s (ok u, s') f h k = Stands-trans s s' (f s').1 h (k s')
  after-Stands s (err e, s') f h k = h

  store_records-Stands :
      (s : State E) (r : Result Error (IdMap Record))
      → Kept s.records r
      → Stands s (store_records r s).1
  store_records-Stands s (ok m) h = record {
    records = h;
    participants = RetainsBy-refl KeepsParticipant KeepsParticipant-refl s.participants;
  }
  store_records-Stands s (err e) h = Stands-refl s

  -- The engine's fields move only; the rest runs on the same tables.
  after_engine-Stands :
      (s : State E) (r : Bool × E) (f : State E → Outcome E)
      → ((e : E) → Stands s (f (set_engine e s)).1)
      → Stands s (after (engine_result r s) f).1
  after_engine-Stands s (true, e) f h = h e
  after_engine-Stands s (false, e) f h = Stands-same s (set_engine e s) refl refl

  -- The first record of a participant.
  first-Stands :
      (s : State E) (o : Operation) (new : ParticipantRecord)
      → find s.participants o.id ≡ none
      → Stands s (set_participant o.id new s)
  first-Stands s o new absent = set_participant-Stands s o.id new (λ old h. cc)

  settle-KeepsParticipant :
      (s : State E) (id : List ℕ) (p old : ParticipantRecord) (status : ParticipantStatus)
      (epoch : ℕ)
      → find s.participants id ≡ some p
      → settled p.status ≡ false
      → find s.participants id ≡ some old
      → KeepsParticipant old (record p { status = status; epoch = epoch })
  settle-KeepsParticipant s id p old status epoch e unsettled e' =
      let same : p ≡ old = cc in
      rw⁻¹ same (record { status = λ t. cc; read_time = refl; commit_time = refl; home = refl })

module _ {E : Type 0} (ops : EngineOps E) where
  advance_metadata-Stands :
      (index : ℕ) (durable : Bool) (s : State E) → Stands s (advance_metadata ops index durable s).1
  advance_metadata-Stands index true s = Stands-refl s
  advance_metadata-Stands index false s =
      engine_result-Stands (ops.advance_applied s.engine index) s

  -- After a change that stands.
  then_advance :
      (index : ℕ) (durable : Bool) (s s' : State E)
      → Stands s s'
      → Stands s (advance_metadata ops index durable s').1
  then_advance index durable s s' h =
      Stands-trans s s' _ h (advance_metadata-Stands index durable s')

  materialize-Stands :
      (entry : Entry) (o : Operation) (ms : Option (List Mutation)) (s : State E)
      → find s.participants o.id ≡ none
      → Stands s (materialize ops entry o ms s).1
  materialize-Stands entry o none s absent = Stands-refl s
  materialize-Stands entry o (some ms) s absent =
      after_engine-Stands s (ops.apply_prepared s.engine entry.index entry.term o.commit_time ms) _
        (λ e.
          let new = first-Stands s o (participant_of o prepared o.writes) absent in
          record { records = new.records; participants = new.participants })

  prepare_inspected-Stands :
      (entry : Entry) (o : Operation) (found : Inspection) (s : State E)
      → find s.participants o.id ≡ none
      → Stands s (prepare_inspected ops entry o found s).1
  prepare_inspected-Stands entry o failed s absent = Stands-refl s
  prepare_inspected-Stands entry o conflict s absent =
      then_advance entry.index false s _ (first-Stands s o _ absent)
  prepare_inspected-Stands entry o clear s absent =
      materialize-Stands entry o (intent_mutations ops o o.writes) s absent

  prepare_known-Stands :
      (entry : Entry) (o : Operation) (durable : Bool) (found : Option ParticipantRecord)
      (s : State E)
      → find s.participants o.id ≡ found
      → Stands s (prepare_known ops entry o durable found s).1
  prepare_known-Stands entry o true none s absent = first-Stands s o _ absent
  prepare_known-Stands entry o false none s absent =
      prepare_inspected-Stands entry o (inspect ops o.read_time s.engine o.writes) s absent
  prepare_known-Stands entry o durable (some p) s at =
      ground (arith, Stands-refl s, advance_metadata-Stands entry.index durable s)

  apply_prepare-Stands :
      (entry : Entry) (o : Operation) (durable : Bool) (s : State E)
      → Stands s (apply_prepare ops entry o durable s).1
  unfolding apply_prepare
  apply_prepare-Stands entry o durable s =
      ground (
        arith,
        Stands-refl s,
        prepare_known-Stands entry o durable (find s.participants o.id) s refl,
      )

  settle-Stands :
      (o : Operation) (status : ParticipantStatus) (p : ParticipantRecord) (s : State E)
      → find s.participants o.id ≡ some p
      → settled p.status ≡ false
      → Stands s (settle ops o status p s)
  settle-Stands o status p s at unsettled =
      set_participant-Stands s o.id (record p { status = status; epoch = o.epoch })
        (λ old h. settle-KeepsParticipant s o.id p old status o.epoch at unsettled h)

  resolve_prepared-Stands :
      (entry : Entry) (o : Operation) (status : ParticipantStatus) (durable : Bool)
      (p : ParticipantRecord) (s : State E)
      → find s.participants o.id ≡ some p
      → settled p.status ≡ false
      → Stands s (resolve_prepared ops entry o status durable p s).1
  resolve_prepared-Stands entry o status true p s at unsettled =
      settle-Stands o status p s at unsettled
  resolve_prepared-Stands entry o status false p s at unsettled =
      after_engine-Stands s
        (ops.resolve_committed s.engine entry.index entry.term p.commit_time
          (resolved_mutations status p.writes))
        (λ s'. (ok tt, settle ops o status p s'))
        (λ e.
          let new = settle-Stands o status p s at unsettled in
          record { records = new.records; participants = new.participants })

  resolve_known-Stands :
      (entry : Entry) (o : Operation) (status : ParticipantStatus) (durable : Bool)
      (found : Option ParticipantRecord) (s : State E)
      → find s.participants o.id ≡ found
      → Stands s (resolve_known ops entry o status durable found s).1
  resolve_known-Stands entry o status durable none s absent =
      then_advance entry.index durable s _ (first-Stands s o _ absent)
  resolve_known-Stands entry o status durable (some p) s at = elim (Bool-cases (settled p.status)) [
    | inl done ↦ ground (arith, Stands-refl s, advance_metadata-Stands entry.index durable s)
    | inr unsettled ↦ ground (
      arith,
      Stands-refl s,
      advance_metadata-Stands entry.index durable s,
      then_advance entry.index durable s (settle ops o status p s)
          (settle-Stands o status p s at unsettled),
      resolve_prepared-Stands entry o status durable p s at unsettled,
    )
  ]

  apply_resolution-Stands :
      (entry : Entry) (o : Operation) (status : ParticipantStatus) (durable : Bool) (s : State E)
      → Stands s (apply_resolution ops entry o status durable s).1
  unfolding apply_resolution
  apply_resolution-Stands entry o status durable s =
      resolve_known-Stands entry o status durable (find s.participants o.id) s refl

  store_and_advance-Stands :
      (entry : Entry) (durable : Bool) (r : Result Error (IdMap Record)) (s : State E)
      → Kept s.records r
      → Stands s (store_and_advance ops entry durable r s).1
  store_and_advance-Stands entry durable r s h =
      after-Stands s (store_records r s) (advance_metadata ops entry.index durable)
        (store_records-Stands s r h) (advance_metadata-Stands entry.index durable)

  apply_operation-Stands :
      (entry : Entry) (durable : Bool) (o : Operation) (kind : CommandType) (s : State E)
      → Stands s (apply_operation ops entry durable o kind s).1
  apply_operation-Stands entry durable o txn_create s =
      store_and_advance-Stands entry durable _ s
        (apply_create-Kept s.range_id s.generation o s.records)
  apply_operation-Stands entry durable o txn_prepare s = apply_prepare-Stands entry o durable s
  apply_operation-Stands entry durable o txn_commit s =
      store_and_advance-Stands entry durable _ s (apply_decision-Kept o Status.committed s.records)
  apply_operation-Stands entry durable o txn_abort s =
      store_and_advance-Stands entry durable _ s (apply_decision-Kept o Status.aborted s.records)
  apply_operation-Stands entry durable o txn_takeover s =
      store_and_advance-Stands entry durable _ s (apply_takeover-Kept o s.records)
  apply_operation-Stands entry durable o txn_resolve_commit s =
      apply_resolution-Stands entry o ParticipantStatus.committed durable s
  apply_operation-Stands entry durable o txn_resolve_abort s =
      apply_resolution-Stands entry o ParticipantStatus.aborted durable s
  apply_operation-Stands entry durable o txn_barrier s = Stands-refl s

  apply_decoded-Stands :
      (entry : Entry) (durable : Bool) (decoded : Option Operation) (s : State E)
      → Stands s (apply_decoded ops entry durable decoded s).1
  apply_decoded-Stands entry durable none s = Stands-refl s
  apply_decoded-Stands entry durable (some o) s =
      apply_operation-Stands entry durable o entry.kind s

  observed-Stands : (t : ℕ) (s s' : State E) → Stands (observed ops t s) s' → Stands s s'
  observed-Stands t s s' h = record { records = h.records; participants = h.participants }

  barrier-Stands :
      (entry : Entry) (durable : Bool) (s : State E)
      → Stands s
          (advance_metadata ops entry.index durable
            (raise_safe_read ops entry.timestamp (observed ops entry.timestamp s))).1
  barrier-Stands entry durable s = then_advance entry.index durable s _ (Stands-same s _ refl refl)

  pub apply_transaction-Stands :
      (entry : Entry) (durable : Bool) (s : State E)
      → Stands s (apply_transaction ops entry durable s).1
  unfolding apply_transaction
  apply_transaction-Stands entry durable s = ground (
    arith,
    barrier-Stands entry durable s,
    observed-Stands entry.timestamp s _
        (apply_decoded-Stands entry durable entry.operation (observed ops entry.timestamp s)),
  )

  -- The state after a sequence of commands, each with whether the engine already holds it; a command
  -- that fails leaves what it changed.
  abbrev pub replay : List (Entry × Bool) → State E → State E
  replay [] s = s
  replay ((entry, durable) ∷ rest) s = replay rest (apply_transaction ops entry durable s).1

  -- Whatever sequence of transaction commands a range applies, failed ones included, and whatever its
  -- engine answers: every transaction record and every participant record stays, with its times and
  -- its home; a record that is committed or aborted keeps that status, and so does a participant that
  -- is committed or aborted.
  pub replay-Stands : (entries : List (Entry × Bool)) (s : State E) → Stands s (replay entries s)
  replay-Stands [] s = Stands-refl s
  replay-Stands ((entry, durable) ∷ rest) s =
      Stands-trans s (apply_transaction ops entry durable s).1 _
        (apply_transaction-Stands entry durable s)
        (replay-Stands rest (apply_transaction ops entry durable s).1)
