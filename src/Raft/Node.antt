-- ===== src/Raft/Node.antt =====
-- internal/raft/node.go: the methods that a runtime calls, and the construction of a node.
use rivet_db.Prelude.{
  ℕ, ◌+◌, Bool, true, false, none, List, [], ◌∷◌, ◌||◌, ◌&&◌, ltb, leb, ◌==◌, if◌then◌else◌, not,
  length, any, Result, ok, err,
}
use rivet_db.Raft.Sort.{sort, contains}
use rivet_db.Raft.Types.{
  Entry, Configuration, PersistentState, Message, Error, follower, not_leader, transfer_in_progress,
  resource_limit, invalid_message, config_transition, invalid_config, invalid_state, entry_command,
  entry_config, max_command_bytes, request_vote, request_vote_response, append_entries,
  append_entries_response, install_snapshot, install_snapshot_response, timeout_now,
  valid_message_type,
}
use rivet_db.Raft.Membership.{
  voter, learner, members, normalize, validate, validate_transition, encode,
}
use rivet_db.Raft.State.{
  Node, Store, Machine, Outcome, done, fail, panic, M, ◌>>=◌, ◌>>◌, pure, raise, read, modify, inc,
  term, lookup_in, usable, reset_election_timer,
}
use rivet_db.Raft.Persistent.{validate_persistent, passes}
use rivet_db.Raft.Log.{last_index}
use rivet_db.Raft.Commit.{is_leader, blank, replication_messages}
use rivet_db.Raft.Election.{
  max_u64, advance_term, record_own_entry, no_op_entry, start_election, handle_request_vote,
  handle_vote_response, handle_timeout_now,
}
use rivet_db.Raft.Replicate.{
  handle_append_entries, handle_append_response, handle_install_snapshot, handle_snapshot_response,
  restore_machine,
}

-- The counters are below their limits, so no increment wraps.
abbrev pub end_transfer : Node → Node
end_transfer n = record n { transferring = false; transfer_elapsed = 0 }

abbrev pub older_transfer : Node → Node
older_transfer n = record n { transfer_elapsed = n.transfer_elapsed + 1 }

abbrev pub age_transfer : Node → Node
age_transfer n =
    if not n.transferring
    then n
    else if leb n.election_timeout (n.transfer_elapsed + 1)
    then end_transfer n
    else older_transfer n

abbrev pub clear_beat : Node → Node
clear_beat n = record n { heartbeat_elapsed = 0 }

abbrev pub count_beat : Node → Node
count_beat n = record n { heartbeat_elapsed = n.heartbeat_elapsed + 1 }

abbrev pub send_beat : M (List Message)
send_beat = do modify clear_beat; read replication_messages

abbrev pub beat : M (List Message)
beat n =
    if ltb (n.heartbeat_elapsed + 1) n.heartbeat_interval
    then (done [], count_beat n)
    else send_beat n

abbrev pub rest_timer : Node → Node
rest_timer n = record n { election_elapsed = 0 }

abbrev pub count_wait : Node → Node
count_wait n = record n { election_elapsed = n.election_elapsed + 1 }

abbrev pub wait_election : M (List Message)
wait_election n =
    if not (voter n.configuration n.id)
    then (done [], rest_timer n)
    else if ltb (n.election_elapsed + 1) n.election_timeout
    then (done [], count_wait n)
    else start_election (count_wait n)

abbrev pub tick_role : M (List Message)
tick_role n = if is_leader n.role then beat (age_transfer n) else wait_election n

unfoldable pub tick : M (List Message)
tick = do usable; tick_role

abbrev pub proposed : Entry → M (ℕ × List Message)
proposed e = do record_own_entry e; messages ← read replication_messages; pure (e.index, messages)

-- The guards that every proposal shares.
abbrev pub leading : M (ℕ × List Message) → M (ℕ × List Message)
leading m n =
    if not (is_leader n.role)
    then (fail not_leader, n)
    else if n.transferring
    then (fail transfer_in_progress, n)
    else m n

abbrev pub make_entry : ℕ → List ℕ → Node → Entry
make_entry kind command n = record {
  index = inc (last_index n.persistent);
  term = term n;
  kind = kind;
  command = command;
}

-- A configuration entry that is not committed yet.
abbrev pub pending_config : Node → Entry → Bool
pending_config n e = ltb n.commit_index e.index && e.kind == entry_config

abbrev pub propose_encoded : Result Error (List ℕ) → M (ℕ × List Message)
propose_encoded (err e) = raise e
propose_encoded (ok bytes) = λ n. proposed (make_entry entry_config bytes n) n

abbrev pub propose_allowed : Configuration → Result Error (Unit {0}) → M (ℕ × List Message)
propose_allowed next (err e) = raise e
propose_allowed next (ok u) = λ n.
    if any (pending_config n) n.persistent.entries
    then (fail config_transition, n)
    else propose_encoded (encode next) n

abbrev pub propose_next : Configuration → M (ℕ × List Message)
propose_next next n = propose_allowed next (validate_transition n.configuration next) n

unfoldable pub propose_configuration : Configuration → M (ℕ × List Message)
propose_configuration next = do usable; leading (propose_next next)

abbrev pub propose_command : List ℕ → M (ℕ × List Message)
propose_command command n =
    if ltb max_command_bytes (length command)
    then (fail resource_limit, n)
    else if last_index n.persistent == max_u64
    then (fail resource_limit, n)
    else proposed (make_entry entry_command command n) n

unfoldable pub propose : List ℕ → M (ℕ × List Message)
propose command = do usable; leading (propose_command command)

abbrev pub propose_nothing : M (ℕ × List Message)
propose_nothing n =
    if last_index n.persistent == max_u64
    then (fail resource_limit, n)
    else proposed (no_op_entry n) n

unfoldable pub propose_no_op : M (ℕ × List Message)
propose_no_op = do usable; leading propose_nothing

abbrev pub dispatch_rest : Message → M (List Message)
dispatch_rest m =
    if m.kind == append_entries_response
    then handle_append_response m
    else if m.kind == install_snapshot
    then handle_install_snapshot m
    else if m.kind == install_snapshot_response
    then handle_snapshot_response m
    else if m.kind == timeout_now
    then handle_timeout_now m
    else raise invalid_message

abbrev pub dispatch : Message → M (List Message)
dispatch m =
    if m.kind == request_vote
    then handle_request_vote m
    else if m.kind == request_vote_response
    then handle_vote_response m
    else if m.kind == append_entries
    then handle_append_entries m
    else dispatch_rest m

abbrev pub addressed : Message → Node → Bool
addressed m n =
    m.target == n.id
    && (not (m.sender == 0) && (contains n.peers m.sender && valid_message_type m.kind))

abbrev pub catch_up : Message → M (Unit {0})
catch_up m n = if ltb (term n) m.term then advance_term m.term n else (done tt, n)

abbrev pub catch_up_and_dispatch : Message → M (List Message)
catch_up_and_dispatch m = do catch_up m; dispatch m

abbrev pub receive : Message → M (List Message)
receive m n = if not (addressed m n) then (fail invalid_message, n) else catch_up_and_dispatch m n

unfoldable pub step : Message → M (List Message)
step m = do usable; receive m

abbrev pub begin_transfer : Node → Node
begin_transfer n = record n { transferring = true; transfer_elapsed = 0 }

abbrev pub hand_over : ℕ → M (List Message)
hand_over target n =
    if not (is_leader n.role)
      || (target == n.id
          || (not (voter n.configuration target)
              || ltb (lookup_in 0 n.match_index target) (last_index n.persistent)))
    then (fail transfer_in_progress, n)
    else (done (blank timeout_now n.id target (term n) ∷ []), begin_transfer n)

unfoldable pub transfer_leadership : ℕ → M (List Message)
transfer_leadership target = do usable; hand_over target

-- What `NewNode` is given; its nil checks have no counterpart.
pub record Config : Type 0 where
  pub id : ℕ
  pub peers : List ℕ
  pub election_timeout_min : ℕ
  pub election_timeout_max : ℕ
  pub heartbeat_interval : ℕ
  pub draws : List ℕ
  pub store : Store
  pub machine : Machine
  pub initial_config : Configuration
  pub bootstrap_learner : Bool

abbrev no_repeat : List ℕ → Bool
no_repeat [] = true
no_repeat (x ∷ []) = true
no_repeat (x ∷ y ∷ xs) = not (y == x) && no_repeat (y ∷ xs)

abbrev first_positive : List ℕ → Bool
first_positive [] = false
first_positive (x ∷ xs) = not (x == 0)

unfoldable pub validate_config : Config → Bool
validate_config c =
    not (c.id == 0)
    && (not (c.election_timeout_min == 0)
        && (leb c.election_timeout_min c.election_timeout_max
            && (not (c.heartbeat_interval == 0)
                && (ltb c.heartbeat_interval c.election_timeout_min
                    && (first_positive (sort c.peers)
                        && (contains c.peers c.id && no_repeat (sort c.peers)))))))

abbrev pub initial_of : Config → PersistentState → Configuration
initial_of c s =
    if not (s.config.version == 0)
    then s.config
    else if c.initial_config.version == 0
    then record { version = 1; old_voters = c.peers; new_voters = []; learners = [] }
    else c.initial_config

abbrev pub fresh : Config → PersistentState → Configuration → Node
fresh c s initial = record {
  id = c.id;
  peers = members initial;
  configuration = initial;
  election_min = c.election_timeout_min;
  election_max = c.election_timeout_max;
  heartbeat_interval = c.heartbeat_interval;
  draws = c.draws;
  store = c.store;
  machine = c.machine;
  persistent = record s { config = initial };
  role = follower;
  leader_id = 0;
  commit_index = s.snapshot.index;
  last_applied = s.snapshot.index;
  election_elapsed = 0;
  election_timeout = 0;
  heartbeat_elapsed = 0;
  transfer_elapsed = 0;
  transferring = false;
  votes = none;
  next_index = none;
  match_index = none;
  stopped = false;
  fatal = none;
}

abbrev pub acceptable : Config → PersistentState → Configuration → Bool
acceptable c s initial =
    passes (validate initial)
    && (c.bootstrap_learner || (voter initial c.id || learner initial c.id))

abbrev pub trusted_vote : PersistentState → Configuration → Bool
trusted_vote s initial = s.hard_state.voted_for == 0 || voter initial s.hard_state.voted_for

-- The restored machine of a node whose store holds a snapshot.
abbrev restarted : Outcome (Unit {0}) → Node → Outcome Node
restarted (done u) n' = done (reset_election_timer n')
restarted (fail e) n' = fail e
restarted panic n' = panic

abbrev pub start : Node → Outcome Node
start n =
    if n.persistent.snapshot.index == 0
    then done (reset_election_timer n)
    else (let (r, n') = restore_machine n.persistent.snapshot n in restarted r n')

-- `NewNode`, over what `Store.Load` returns: the state on disk.
unfoldable pub new_node : Config → Outcome Node
new_node c =
    let s = c.store.disk in
    let initial = normalize (initial_of c s) in
    if not (validate_config c)
    then fail invalid_config
    else if not (passes (validate_persistent s))
    then fail invalid_state
    else if not (acceptable c s initial)
    then fail invalid_config
    else if not (trusted_vote s initial)
    then fail invalid_state
    else start (fresh c s initial)
