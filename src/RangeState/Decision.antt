-- ===== src/RangeState/Decision.antt =====
-- Retries and conflicts of a decision.
use rivet_db.Prelude.{
  ℕ, ◌≡◌, refl, ap, Bool, true, not, Option, none, some, List, ◌==◌, ltb, arith, if◌then◌else◌, ok,
  err, inl, inr, ◌⊎◌,
}
use rivet_db.Prelude.Bytes.{equal_bytes_refl}
use rivet_db.Txn.{Status, Record, Operation, terminal, same_status}
use rivet_db.RangeState.{
  protocol_conflict, IdMap, find, put, decide, apply_decision, same_transaction,
}

find-put : {V : Type 0} (id : List ℕ) (v : V) (m : IdMap V) → find (put id v m) id ≡ some v
find-put id v m = rw (equal_bytes_refl id) refl

-- How the tests of a decision let it pass.
passed :
    (a b c d t : Bool) (m x m' : IdMap Record)
    → (if not a
        then err protocol_conflict
        else if b
        then ok m
        else if not c
        then err protocol_conflict
        else if d
        then ok m
        else if t
        then err protocol_conflict
        else ok x)
      ≡ ok m'
    → (a ≡ true) × (((b ≡ true) × (m ≡ m')) ⊎ ((c ≡ true) × (((d ≡ true) × (m ≡ m')) ⊎ (x ≡ m'))))
passed a b c d t m x m' h = ground arith

same_status_refl : (s : Status) → same_status s s ≡ true
same_status_refl s = ground arith

-- An accepted decision is behind the record's epoch, or is the record's status.
Accepted : IdMap Record → Operation → Status → Type 0
Accepted m o status =
    (r : Record) × (find m o.id ≡ some r)
    × (same_transaction r o ≡ true)
    × ((ltb o.epoch r.epoch ≡ true)
        ⊎ (((o.epoch == r.epoch) ≡ true) × (same_status r.status status ≡ true)))

decide-Accepted :
    (m m' : IdMap Record) (o : Operation) (status : Status) (found : Option Record)
    → find m o.id ≡ found
    → decide found o status m ≡ ok m'
    → Accepted m' o status
unfolding Accepted
decide-Accepted m m' o status none e h = cc
decide-Accepted m m' o status (some r) e h =
    let (same, how) =
      passed (same_transaction r o) (ltb o.epoch r.epoch) (o.epoch == r.epoch)
        (same_status r.status status) (terminal r.status) m
        (put o.id (record r { status = status }) m) m' h in
    elim how [
      | inl (stale, unchanged) ↦ (r, rw⁻¹ unchanged e, same, inl stale)
      | inr (epoch, inl (already, unchanged)) ↦ (r, rw⁻¹ unchanged e, same, inr (epoch, already))
      | inr (epoch, inr changed) ↦ (
        record r { status = status },
        rw⁻¹ changed (find-put o.id _ m),
        same,
        inr (epoch, same_status_refl status),
      )
    ]

-- A decision that was accepted is accepted again and changes nothing.
pub decision_repeats :
    (o : Operation) (status : Status) (m m' : IdMap Record)
    → apply_decision o status m ≡ ok m'
    → apply_decision o status m' ≡ ok m'
unfolding apply_decision Accepted
decision_repeats o status m m' h =
    let (r, at, same, how) = decide-Accepted m m' o status (find m o.id) refl h in
    rw at (elim how [ inl stale ↦ rw (same, stale) refl | inr (epoch, already) ↦ ground arith ])

-- After a commit that was accepted at the epoch of the record, an abort of the same operation is a
-- conflict.
pub commit_excludes_abort :
    (o : Operation) (m m' : IdMap Record) (r : Record)
    → apply_decision o Status.committed m ≡ ok m'
    → find m' o.id ≡ some r
    → o.epoch ≡ r.epoch
    → apply_decision o Status.aborted m' ≡ err protocol_conflict
unfolding apply_decision Accepted
commit_excludes_abort o m m' r h at level =
    let (r', at', same, how) = decide-Accepted m m' o Status.committed (find m o.id) refl h in
    let equal : r' ≡ r = cc in
    rw at' (elim how [
      | inl stale ↦ absurd (ground (arith, ap (λ (x : Record). x.epoch) equal))
      | inr (epoch, done) ↦ ground arith
    ])
