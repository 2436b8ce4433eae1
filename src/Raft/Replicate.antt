-- ===== src/Raft/Replicate.antt =====
-- internal/raft/node.go: AppendEntries, InstallSnapshot, their responses, and local snapshots.
use rivet_db.Prelude.{
  ℕ, ◌+◌, ◌-◌, max, min, Bool, true, false, List, [], ◌∷◌, ◌++◌, ◌||◌, ◌&&◌, ltb, leb, ◌==◌,
  if◌then◌else◌, not, length, Result, ok, err,
}
use rivet_db.Prelude.Bytes.{equal_bytes}
use rivet_db.Raft.Types.{
  Entry, Configuration, Snapshot, PersistentState, Message, Error, invalid_message, unavailable,
  apply_failure, entry_no_op, append_entries_response, install_snapshot_response, max_command_bytes,
  valid_entry_type,
}
use rivet_db.Raft.Membership.{validate}
use rivet_db.Raft.State.{
  Node, Outcome, done, fail, panic, M, continue, ◌>>=◌, ◌>>◌, pure, raise, crash, read, gets,
  modify, assert, when, inc, term, lookup_in, next_outcome, machine_call, restored, imaged,
  stop_with, save, persist, become_follower, reset_election_timer, set_match_index, set_next_index,
  usable,
}
use rivet_db.Raft.Log.{
  last_index, entry_at, term_at, entries_from, truncate_suffix, first_index_of_term,
}
use rivet_db.Raft.Commit.{
  is_leader, is_follower, blank, install_configuration, apply_committed, advance_commit,
  replication_message, replication_messages, set_commit,
}
use rivet_db.Raft.Election.{max_u64}

-- The loop of `validateAppend`: contiguous from `want`, terms nondecreasing and at most the
-- message's.
abbrev pub valid_entries : ℕ → ℕ → ℕ → List Entry → Bool
valid_entries want previous_term message_term [] = true
valid_entries want previous_term message_term (e ∷ es) =
    e.index == want
    && (not (e.term == 0)
        && (leb previous_term e.term
            && (leb e.term message_term
                && (valid_entry_type e.kind
                    && (leb (length e.command) max_command_bytes
                        && ((not (e.kind == entry_no_op) || length e.command == 0)
                            && valid_entries (want + 1) e.term message_term es))))))

unfoldable pub validate_append : Message → Bool
validate_append m =
    leb (length m.entries) (max_u64 - m.prev_log_index)
    && valid_entries (m.prev_log_index + 1) m.prev_log_term m.term m.entries

abbrev pub append_response : ℕ → Bool → ℕ → ℕ → Node → Message
append_response target success matched hint n =
    record (blank append_entries_response n.id target (term n)) {
      success = success;
      match_index = matched;
      reject_hint = hint;
    }

abbrev pub append_all : List Entry → Node → Node
append_all es n = record n {
  persistent = record n.persistent { entries = n.persistent.entries ++ es };
}

abbrev pub same_content : Entry → Entry → Bool
same_content a b = a.kind == b.kind && equal_bytes a.command b.command

-- A committed conflict panics (`invariant.Failf`); the cut and the append follow.
abbrev pub extend_log : Entry → List Entry → M Bool
extend_log e es = do modify (append_all (e ∷ es)); pure true

abbrev pub overwrite_from : Entry → List Entry → M Bool
overwrite_from e es = do truncate_suffix e.index; extend_log e es

abbrev pub replace_suffix : Entry → List Entry → M Bool
replace_suffix e es n = if leb e.index n.commit_index then (panic, n) else overwrite_from e es n

-- What one incoming entry does, given what the log holds at its index; `skip` is the loop over the
-- entries behind it.
abbrev pub merge_one : Entry → List Entry → Outcome Entry → M Bool → M Bool
merge_one e es (done own) skip =
    if own.term == e.term then assert (same_content own e) >> skip else replace_suffix e es
merge_one e es (fail unavailable) skip = extend_log e es
merge_one e es (fail x) skip = raise x
merge_one e es panic skip = crash

-- The loop of `handleAppendEntries`; the result is Go's `changed`.
abbrev pub merge_entries : List Entry → M Bool
merge_entries [] n = (done false, n)
merge_entries (e ∷ es) n =
    merge_one e es (entry_at e.index n.persistent) (λ n'. merge_entries es n') n

abbrev pub lower_hint : ℕ → ℕ
lower_hint index = if ltb index max_u64 then index + 1 else index

abbrev pub raise_commit : ℕ → M (Unit {0})
raise_commit index = do modify (set_commit index); apply_committed

abbrev pub commit_through : ℕ → ℕ → M (Unit {0})
commit_through leader_commit last_covered n =
    if ltb n.commit_index leader_commit
    then raise_commit (min leader_commit last_covered) n
    else (done tt, n)

abbrev pub accepted : Message → Node → List Message
accepted m n = append_response m.sender true (m.prev_log_index + length m.entries) 0 n ∷ []

-- The entries agree with the log up to `prev_log_index`.
unfoldable pub accept_append : Message → M (List Message)
accept_append m = do
  changed ← merge_entries m.entries
  when changed persist
  commit_through m.leader_commit (m.prev_log_index + length m.entries)
  gets (accepted m)

-- The three rejections, with the index at which the leader should try again.
abbrev pub behind : Message → Node → List Message
behind m n = append_response m.sender false 0 (inc (last_index n.persistent)) n ∷ []

abbrev pub conflicting : Message → ℕ → Node → List Message
conflicting m previous n =
    append_response m.sender false 0 (first_index_of_term m.prev_log_index previous n.persistent) n
    ∷ []

abbrev pub compacted_away : Message → Node → List Message
compacted_away m n =
    append_response m.sender false 0 (lower_hint n.persistent.snapshot.index) n ∷ []

abbrev pub check_previous : Message → Outcome ℕ → M (List Message)
check_previous m (fail unavailable) = gets (behind m)
check_previous m (fail x) = raise x
check_previous m panic = crash
check_previous m (done previous) =
    if not (previous == m.prev_log_term) then gets (conflicting m previous) else accept_append m

abbrev pub follow : ℕ → Node → Node
follow sender n =
    if not (is_follower n.role) || not (n.leader_id == sender)
    then become_follower sender n
    else reset_election_timer n

abbrev pub match_previous : Message → M (List Message)
match_previous m n =
    if not (validate_append m)
    then (fail invalid_message, n)
    else if ltb m.prev_log_index n.persistent.snapshot.index
    then (done (compacted_away m n), n)
    else check_previous m (term_at m.prev_log_index n.persistent) n

abbrev pub follow_and_match : Message → M (List Message)
follow_and_match m = do modify (follow m.sender); match_previous m

unfoldable pub handle_append_entries : Message → M (List Message)
handle_append_entries m n =
    if ltb m.term (term n)
    then (done (behind m n), n)
    else if is_leader n.role && not (m.sender == n.id)
    then (panic, n)
    else follow_and_match m n

abbrev pub one_message : Outcome Message → Outcome (List Message)
one_message (done m) = done (m ∷ [])
one_message (fail e) = fail e
one_message panic = panic

abbrev pub set_progress : ℕ → ℕ → M (Unit {0})
set_progress peer index = do set_match_index peer index; set_next_index peer (inc index)

abbrev pub advance_match : Message → M (Unit {0})
advance_match m n =
    if ltb (lookup_in 0 n.match_index m.sender) m.match_index
    then set_progress m.sender m.match_index n
    else (done tt, n)

abbrev pub replicate_if_moved : ℕ → M (List Message)
replicate_if_moved before n =
    if not (n.commit_index == before) then (replication_messages n, n) else (done [], n)

abbrev pub advance_from : Message → M (List Message)
advance_from m = do
  advance_match m
  before ← gets λ n. n.commit_index
  advance_commit
  replicate_if_moved before

abbrev pub acknowledge : Message → M (List Message)
acknowledge m n =
    if ltb (last_index n.persistent) m.match_index
    then (fail invalid_message, n)
    else advance_from m n

-- The next index after a rejection: a hint ahead of the present one is taken up to the end of the
-- log, one behind it is taken, and any other steps back by one.
abbrev pub retry_index : ℕ → ℕ → ℕ → ℕ
retry_index current hint maximum =
    if ltb current hint && leb hint maximum
    then hint
    else if hint == 0 || leb current hint
    then (if ltb 1 current then current - 1 else 1)
    else hint

abbrev pub next_try : Message → Node → ℕ
next_try m n =
    retry_index (lookup_in 0 n.next_index m.sender) m.reject_hint
      (lower_hint (last_index n.persistent))

abbrev pub replicate_to : ℕ → Node → Outcome (List Message)
replicate_to peer n = one_message (replication_message peer n)

abbrev pub retry : Message → M (List Message)
retry m = do next ← gets (next_try m); set_next_index m.sender next; read (replicate_to m.sender)

unfoldable pub handle_append_response : Message → M (List Message)
handle_append_response m n =
    if ltb m.term (term n) || (not (is_leader n.role) || not (m.term == term n))
    then (done [], n)
    else if m.success
    then acknowledge m n
    else retry m n

abbrev pub snapshot_response : Message → Bool → ℕ → Node → Message
snapshot_response m success matched n =
    record (blank install_snapshot_response n.id m.sender (term n)) {
      success = success;
      match_index = matched;
    }

abbrev pub is_ok : Result Error (Unit {0}) → Bool
is_ok (ok u) = true
is_ok (err e) = false

abbrev pub valid_snapshot : Message → Bool
valid_snapshot m =
    not (m.snapshot.index == 0)
    && (not (m.snapshot.term == 0)
        && (leb m.snapshot.term m.term
            && (leb (length m.snapshot.payload) max_command_bytes
                && (m.snapshot.config.version == 0 || is_ok (validate m.snapshot.config)))))

-- What is kept behind the snapshot: the suffix if the log has the boundary entry, else nothing.
abbrev pub kept_suffix : Snapshot → PersistentState → Outcome ℕ → Outcome (List Entry)
kept_suffix s p (done t) = if t == s.term then entries_from (inc s.index) p else done []
kept_suffix s p (fail e) = done []
kept_suffix s p panic = panic

abbrev pub with_snapshot : Snapshot → List Entry → PersistentState → PersistentState
with_snapshot s suffix p = record p {
  snapshot = s;
  entries = suffix;
  config = if ltb p.config.version s.config.version then s.config else p.config;
}

abbrev pub restore_machine : Snapshot → M (Unit {0})
restore_machine s n =
    let n' = record n { machine = machine_call (restored s.payload) n.machine } in
    if next_outcome n.machine.outcomes then (done tt, n') else stop_with apply_failure n'

abbrev pub install_newer : Configuration → M (Unit {0})
install_newer c n =
    if ltb n.configuration.version c.version then install_configuration c n else (done tt, n)

abbrev pub set_persistent : PersistentState → Node → Node
set_persistent p n = record n { persistent = p }

abbrev pub jump_to : ℕ → Node → Node
jump_to index n = record n { commit_index = max n.commit_index index; last_applied = index }

abbrev pub snapshot_taken : Message → Node → List Message
snapshot_taken m n = snapshot_response m true m.snapshot.index n ∷ []

abbrev pub adopt_snapshot : Message → PersistentState → M (List Message)
adopt_snapshot m p = do
  save p
  restore_machine m.snapshot
  modify (set_persistent p)
  install_newer p.config
  modify (jump_to m.snapshot.index)
  gets (snapshot_taken m)

abbrev pub adopt_suffix : Message → List Entry → M (List Message)
adopt_suffix m suffix n = adopt_snapshot m (with_snapshot m.snapshot suffix n.persistent) n

abbrev pub take_snapshot : Message → M (List Message)
take_snapshot m n =
    if leb m.snapshot.index n.persistent.snapshot.index || leb m.snapshot.index n.commit_index
    then (
      done (
          snapshot_response m true
            (min (max m.snapshot.index n.persistent.snapshot.index) (last_index n.persistent)) n
          ∷ []),
      n,
    )
    else continue (kept_suffix m.snapshot n.persistent (term_at m.snapshot.index n.persistent))
        (adopt_suffix m) n

abbrev pub follow_and_take : Message → M (List Message)
follow_and_take m = do modify (become_follower m.sender); take_snapshot m

unfoldable pub handle_install_snapshot : Message → M (List Message)
handle_install_snapshot m n =
    if ltb m.term (term n)
    then (done (snapshot_response m false n.persistent.snapshot.index n ∷ []), n)
    else if not (valid_snapshot m)
    then (fail invalid_message, n)
    else if is_leader n.role && not (m.sender == n.id)
    then (panic, n)
    else follow_and_take m n

abbrev pub advance_snapshot_match : Message → M (List Message)
advance_snapshot_match m = do
  n ← gets λ n. n
  set_match_index m.sender (max (lookup_in 0 n.match_index m.sender) m.match_index)
  n ← gets λ n. n
  set_next_index m.sender (inc (lookup_in 0 n.match_index m.sender))
  read (replicate_to m.sender)

unfoldable pub handle_snapshot_response : Message → M (List Message)
handle_snapshot_response m n =
    if ltb m.term (term n) || (not (is_leader n.role) || not (m.term == term n))
    then (done [], n)
    else if not m.success
    then (done [], n)
    else if ltb (last_index n.persistent) m.match_index
    then (fail invalid_message, n)
    else advance_snapshot_match m n

abbrev pub next_image : List (List ℕ) → List ℕ
next_image [] = []
next_image (i ∷ is) = i

abbrev pub later_images : List (List ℕ) → List (List ℕ)
later_images [] = []
later_images (i ∷ is) = is

abbrev pub after_image : Node → Node
after_image n = record n {
  machine = record (machine_call (imaged (next_image n.machine.images)) n.machine) {
    images = later_images n.machine.images;
  };
}

-- `stateMachine.Snapshot`: an error here does not stop the node.
abbrev pub take_image : M (List ℕ)
take_image n =
    if next_outcome n.machine.outcomes
    then (done (next_image n.machine.images), after_image n)
    else (fail apply_failure, after_image n)

abbrev pub save_and_set : PersistentState → Snapshot → M Snapshot
save_and_set p s = do save p; modify (set_persistent p); pure s

abbrev pub keep_snapshot : Snapshot → List Entry → M Snapshot
keep_snapshot s remaining n =
    save_and_set (record n.persistent { snapshot = s; entries = remaining }) s n

unfoldable pub snapshot_at : ℕ → M Snapshot
snapshot_at index = do
  t ← read (λ n. term_at index n.persistent)
  image ← take_image
  n ← gets λ n. n
  remaining ← read (λ n. entries_from (inc index) n.persistent)
  keep_snapshot (record { index = index; term = t; payload = image; config = n.configuration })
      remaining

abbrev pub snapshot_applied : M Snapshot
snapshot_applied n =
    if n.last_applied == 0 || leb n.last_applied n.persistent.snapshot.index
    then (fail unavailable, n)
    else snapshot_at n.last_applied n

unfoldable pub create_snapshot : M Snapshot
create_snapshot = do usable; snapshot_applied
