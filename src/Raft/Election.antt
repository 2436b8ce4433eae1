-- ===== src/Raft/Election.antt =====
-- internal/raft/node.go: terms, votes and elections.
use rivet_db.Prelude.{
  ℕ, ◌+◌, ◌-◌, ◌^◌, Bool, true, false, none, some, List, [], ◌∷◌, ◌++◌, ◌||◌, ◌&&◌, ltb, ◌==◌,
  if◌then◌else◌, not,
}
use rivet_db.Raft.Types.{
  Entry, Message, Role, candidate, leader, resource_limit, invalid_message, entry_no_op,
  request_vote, request_vote_response,
}
use rivet_db.Raft.Membership.{members, voter, has_quorum}
use rivet_db.Raft.State.{
  Node, done, fail, M, ◌>>=◌, ◌>>◌, read, gets, modify, assert, when, inc, term, IdMap, put_id,
  lookup_in, stop_with, persist, become_follower, reset_election_timer, set_match_index,
  set_next_index, set_vote,
}
use rivet_db.Raft.Log.{last_index, last_term, log_up_to_date}
use rivet_db.Raft.Commit.{is_follower, blank, advance_commit, replication_messages}

abbrev pub max_u64 : ℕ
max_u64 = 2 ^ 64 - 1

abbrev pub set_hard_state : ℕ → ℕ → Node → Node
set_hard_state t vote n = record n {
  persistent = record n.persistent { hard_state = record { term = t; voted_for = vote } };
}

abbrev pub append_entry : Entry → Node → Node
append_entry e n = record n {
  persistent = record n.persistent { entries = n.persistent.entries ++ e ∷ [] };
}

abbrev pub enter_term : ℕ → Node → Node
enter_term t n = become_follower 0 (set_hard_state t 0 n)

unfoldable pub advance_term : ℕ → M (Unit {0})
advance_term t = do n ← gets λ n. n; assert (ltb (term n) t); modify (enter_term t); persist

abbrev pub index_peers : List ℕ → ℕ → IdMap ℕ
index_peers [] v = []
index_peers (p ∷ ps) v = put_id p v (index_peers ps v)

-- The tail that every proposal shares: the new entry is durable, the leader acknowledges it to
-- itself, and the commit index moves if that already makes a quorum.
unfoldable pub record_own_entry : Entry → M (Unit {0})
record_own_entry e = do
  modify (append_entry e)
  persist
  n ← gets λ n. n
  set_match_index n.id e.index
  set_next_index n.id (inc e.index)
  advance_commit

abbrev pub take_lead : Node → Node
take_lead n = record n {
  role = leader;
  leader_id = n.id;
  votes = none;
  heartbeat_elapsed = 0;
  next_index = some (index_peers n.peers (inc (last_index n.persistent)));
  match_index = some (index_peers n.peers n.persistent.snapshot.index);
}

abbrev pub no_op_entry : Node → Entry
no_op_entry n = record {
  index = inc (last_index n.persistent);
  term = term n;
  kind = entry_no_op;
  command = [];
}

abbrev pub assume_office : Entry → M (List Message)
assume_office e = do modify take_lead; record_own_entry e; read replication_messages

unfoldable pub become_leader : M (List Message)
become_leader n =
    if last_index n.persistent == max_u64
    then stop_with resource_limit n
    else assume_office (no_op_entry n) n

abbrev pub vote_requests : List ℕ → Node → List Message
vote_requests [] n = []
vote_requests (p ∷ ps) n =
    let rest = vote_requests ps n in
    if p == n.id || not (voter n.configuration p)
    then rest
    else record (blank request_vote n.id p (term n)) {
      candidate_last_index = last_index n.persistent;
      candidate_last_term = last_term n.persistent;
    }
      ∷ rest

-- The term is below the largest uint64 here, so the increment does not wrap.
abbrev pub stand : Node → Node
stand n = record (set_hard_state (term n + 1) n.id n) {
  votes = some ((n.id, true) ∷ []);
  next_index = none;
  match_index = none;
}

abbrev pub solicit : M (List Message)
solicit n =
    if has_quorum n.configuration (λ id. id == n.id)
    then become_leader n
    else (done (vote_requests (members n.configuration) n), n)

abbrev pub as_candidate : Node → Node
as_candidate n = record n { role = candidate; leader_id = 0 }

abbrev pub run_for_office : Node → Node
run_for_office n = reset_election_timer (stand (as_candidate n))

abbrev pub campaign : M (List Message)
campaign = do modify run_for_office; persist; solicit

unfoldable pub start_election : M (List Message)
start_election n =
    if not (voter n.configuration n.id)
    then (done [], n)
    else if term n == max_u64
    then stop_with resource_limit (as_candidate n)
    else campaign n

-- The whole condition under which a vote is given.
abbrev pub may_grant : Message → Node → Bool
may_grant m n =
    voter n.configuration n.id
    && (voter n.configuration m.sender
        && (m.term == term n
            && (log_up_to_date m.candidate_last_index m.candidate_last_term n.persistent
                && (n.persistent.hard_state.voted_for == 0
                    || n.persistent.hard_state.voted_for == m.sender))))

abbrev pub vote_reply : Message → Bool → Node → Message
vote_reply m granted n = record (blank request_vote_response n.id m.sender (term n)) {
  vote_granted = granted;
}

abbrev pub vote_for : ℕ → Node → Node
vote_for sender n = set_hard_state (term n) sender n

abbrev pub cast_vote : ℕ → M (Unit {0})
cast_vote sender = do modify (vote_for sender); persist

abbrev pub record_vote : ℕ → M (Unit {0})
record_vote sender n =
    if n.persistent.hard_state.voted_for == sender then (done tt, n) else cast_vote sender n

abbrev pub granted : Message → Node → List Message
granted m n = vote_reply m true n ∷ []

abbrev pub grant : Message → M (List Message)
grant m = do record_vote m.sender; modify reset_election_timer; gets (granted m)

unfoldable pub handle_request_vote : Message → M (List Message)
handle_request_vote m n =
    if ltb m.term m.candidate_last_term
    then (fail invalid_message, n)
    else if may_grant m n
    then grant m n
    else (done (vote_reply m false n ∷ []), n)

abbrev pub is_candidate : Role → Bool
is_candidate candidate = true
is_candidate _ = false

abbrev pub lead_if_elected : M (List Message)
lead_if_elected n =
    if has_quorum n.configuration (lookup_in false n.votes) then become_leader n else (done [], n)

abbrev pub count_vote : Message → M (List Message)
count_vote m = do when m.vote_granted (set_vote m.sender); lead_if_elected

unfoldable pub handle_vote_response : Message → M (List Message)
handle_vote_response m n =
    if ltb m.term (term n) || (not (is_candidate n.role) || not (m.term == term n))
    then (done [], n)
    else count_vote m n

unfoldable pub handle_timeout_now : Message → M (List Message)
handle_timeout_now m n =
    if not (m.term == term n)
      || (not (is_follower n.role)
          || (not (n.leader_id == m.sender) || not (voter n.configuration n.id)))
    then (done [], n)
    else start_election n
