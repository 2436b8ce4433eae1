-- ===== src/Raft/Forward/Method.antt =====
-- Every method of a node goes forward.
use rivet_db.Prelude.{
  ℕ, ◌≡◌, refl, Bool, true, false, List, arith, ◌==◌, if◌then◌else◌, Result, ok, err, ==_iff,
}
use rivet_db.Raft.Types.{
  Entry, Configuration, Message, Error, append_entries, entry_command, invalid_message,
}
use rivet_db.Raft.Membership.{encode, validate_transition}
use rivet_db.Raft.State.{Node, M}
use rivet_db.Raft.State.Rules.{Moves, Moves-bind, Moves-pure, Moves-read, Moves-raise, Moves-if}
use rivet_db.Raft.Commit.{replication_messages}
use rivet_db.Raft.Election.{no_op_entry}
use rivet_db.Raft.Forward.Basic.{
  Forward, forward, Forward-refl, Forward-trans, Forward_quiet, usable-Forward, quiet-Forward,
}
use rivet_db.Raft.Forward.Election.{
  record_own_entry-Forward, start_election-Forward, advance_term-Forward,
  handle_request_vote-Forward, handle_vote_response-Forward, handle_timeout_now-Forward,
}
use rivet_db.Raft.Forward.Append.{
  Covered, handle_append_entries-Forward, handle_append_response-Forward,
}
use rivet_db.Raft.Forward.Snapshot.{
  handle_install_snapshot-Forward, handle_snapshot_response-Forward,
}
use rivet_db.Raft.Replicate.{handle_append_entries}
use rivet_db.Raft.Node.{
  end_transfer, older_transfer, clear_beat, count_beat, rest_timer, count_wait, begin_transfer,
  dispatch_rest, age_transfer, send_beat, beat, wait_election, tick_role, tick, proposed, leading,
  make_entry, propose_encoded, propose_allowed, propose_next, propose_configuration,
  propose_command, propose, propose_nothing, propose_no_op, dispatch, catch_up,
  catch_up_and_dispatch, receive, step, hand_over, transfer_leadership,
}

send_beat-Forward : Moves Forward send_beat
send_beat-Forward =
    Moves-bind forward _ _ (quiet-Forward clear_beat (λ n. (refl, refl, refl, refl, omega arith)))
      λ _. Moves-read forward replication_messages

beat-Forward : Moves Forward beat
beat-Forward = record {
  at = λ n. ground (
    arith,
    Forward_quiet n (count_beat n) refl refl refl refl (omega arith),
    send_beat-Forward.at n,
  );
}

age_transfer-Forward : (n : Node) → Forward n (age_transfer n)
age_transfer-Forward n = ground (
  arith,
  Forward-refl n,
  Forward_quiet n (end_transfer n) refl refl refl refl (omega arith),
  Forward_quiet n (older_transfer n) refl refl refl refl (omega arith),
)

wait_election-Forward : Moves Forward wait_election
wait_election-Forward = record {
  at = λ n. ground (
    arith,
    Forward_quiet n (rest_timer n) refl refl refl refl (omega arith),
    Forward_quiet n (count_wait n) refl refl refl refl (omega arith),
    Forward-trans n (count_wait n) _
        (Forward_quiet n (count_wait n) refl refl refl refl (omega arith))
        (start_election-Forward.at (count_wait n)),
  );
}

tick_role-Forward : Moves Forward tick_role
tick_role-Forward = record {
  at = λ n. ground (
    arith,
    Forward-trans n (age_transfer n) _ (age_transfer-Forward n) (beat-Forward.at (age_transfer n)),
    wait_election-Forward.at n,
  );
}

pub tick-Forward : Moves Forward tick
unfolding tick
tick-Forward = Moves-bind forward _ _ usable-Forward λ _. tick_role-Forward

proposed-Forward : (e : Entry) → Moves Forward (proposed e)
proposed-Forward e = Moves-bind forward _ _ (record_own_entry-Forward e) λ _.
    Moves-bind forward _ _ (Moves-read forward replication_messages)
      λ ms. Moves-pure forward (e.index, ms)

leading-Forward : (m : M (ℕ × List Message)) → Moves Forward m → Moves Forward (leading m)
leading-Forward m h = record { at = λ n. ground (arith, Forward-refl n, h.at n) }

propose_command-Forward : (c : List ℕ) → Moves Forward (propose_command c)
propose_command-Forward c = record {
  at = λ n. ground (arith, Forward-refl n, (proposed-Forward (make_entry entry_command c n)).at n);
}

pub propose-Forward : (c : List ℕ) → Moves Forward (propose c)
unfolding propose
propose-Forward c =
    Moves-bind forward _ _ usable-Forward λ _. leading-Forward _ (propose_command-Forward c)

propose_nothing-Forward : Moves Forward propose_nothing
propose_nothing-Forward = record {
  at = λ n. ground (arith, Forward-refl n, (proposed-Forward (no_op_entry n)).at n);
}

pub propose_no_op-Forward : Moves Forward propose_no_op
unfolding propose_no_op
propose_no_op-Forward =
    Moves-bind forward _ _ usable-Forward λ _. leading-Forward _ propose_nothing-Forward

propose_encoded-Forward : (r : Result Error (List ℕ)) → Moves Forward (propose_encoded r)
propose_encoded-Forward (ok bytes) = record {
  at = λ n. (proposed-Forward (make_entry _ bytes n)).at n;
}
propose_encoded-Forward (err e) = Moves-raise forward e

propose_allowed-Forward :
    (next : Configuration) (r : Result Error (Unit {0})) → Moves Forward (propose_allowed next r)
propose_allowed-Forward next (ok u) = record {
  at = λ n. ground (arith, Forward-refl n, (propose_encoded-Forward (encode next)).at n);
}
propose_allowed-Forward next (err e) = Moves-raise forward e

pub propose_configuration-Forward : (c : Configuration) → Moves Forward (propose_configuration c)
unfolding propose_configuration
propose_configuration-Forward c = Moves-bind forward _ _ usable-Forward λ _.
    leading-Forward (propose_next c) (record {
      at = λ n. (propose_allowed-Forward c (validate_transition n.configuration c)).at n;
    })

hand_over-Forward : (t : ℕ) → Moves Forward (hand_over t)
hand_over-Forward t = record {
  at = λ n.
      ground (
        arith,
        Forward-refl n,
        Forward_quiet n (begin_transfer n) refl refl refl refl (omega arith),
      );
}

pub transfer_leadership-Forward : (t : ℕ) → Moves Forward (transfer_leadership t)
unfolding transfer_leadership
transfer_leadership-Forward t = Moves-bind forward _ _ usable-Forward λ _. hand_over-Forward t

-- What a message is assumed to be: an AppendEntries covers its sender's commit index.
abbrev pub Genuine : Message → Type 0
Genuine m = m.kind ≡ append_entries → Covered m

dispatch-Forward : (m : Message) → Genuine m → Moves Forward (dispatch m)
dispatch-Forward m genuine = Moves-if Forward _ _ _ (handle_request_vote-Forward m) (
    Moves-if Forward _ _ _ (handle_vote_response-Forward m)
      (append (m.kind == append_entries) refl))
  where
    responses : Moves Forward (dispatch_rest m)
    responses = Moves-if Forward _ _ _ (handle_append_response-Forward m) (
        Moves-if Forward _ _ _ (handle_install_snapshot-Forward m) (
          Moves-if Forward _ _ _ (handle_snapshot_response-Forward m) (
            Moves-if Forward _ _ _ (handle_timeout_now-Forward m)
              (Moves-raise forward invalid_message))))

    append :
        (b : Bool)
        → (m.kind == append_entries) ≡ b
        → Moves Forward (if b then handle_append_entries m else dispatch_rest m)
    append true h = handle_append_entries-Forward m (genuine ((==_iff _ _).0 h))
    append false h = responses

catch_up-Forward : (m : Message) → Moves Forward (catch_up m)
catch_up-Forward m = record {
  at = λ n. ground (arith, Forward-refl n, (advance_term-Forward m.term).at n);
}

receive-Forward : (m : Message) → Genuine m → Moves Forward (receive m)
receive-Forward m genuine = record { at = λ n. ground (arith, Forward-refl n, both.at n) }
  where
    both : Moves Forward (catch_up_and_dispatch m)
    both = Moves-bind forward _ _ (catch_up-Forward m) λ _. dispatch-Forward m genuine

-- On a message that covers the commit index it carries, if it is an AppendEntries, Step keeps the id,
-- lowers neither the term nor the commit index, changes no vote within a term, keeps the disk not
-- ahead of memory and going forward in the same sense, and keeps it in step with memory unless the
-- node fails; this holds whatever the outcome, errors and panics included.
pub step-Forward : (m : Message) → Genuine m → Moves Forward (step m)
unfolding step
step-Forward m genuine = Moves-bind forward _ _ usable-Forward λ _. receive-Forward m genuine
