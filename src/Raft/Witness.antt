-- ===== src/Raft/Witness.antt =====
-- Runs of the Raft core, and the theorems at concrete inputs.
use rivet_db.Prelude.{ℕ, ◌≡◌, refl, Bool, true, false, some, [], ◌∷◌, ◌++◌, arith, ok, leb}
use rivet_db.Raft.Sort.{sort, compact}
use rivet_db.Raft.Types.{
  Entry, leader, entry_no_op, entry_command, Configuration, PersistentState, Message, request_vote,
}
use rivet_db.Raft.Membership.{
  normalize, validate, voter, has_quorum, majority_acknowledged, validate_transition, members,
}
use rivet_db.Raft.Membership.Quorum.{transition_quorums_meet, quorums_meet}
use rivet_db.Raft.State.{
  Node, done, applied, machine_call, reset_election_timer, usable, save, persist, become_follower,
}
use rivet_db.Raft.Commit.{
  blank, no_snapshot, no_configuration, next_commit, find_commit, apply_committed, apply_rounds,
  apply_next, apply_entry,
}
use rivet_db.Raft.Commit.Applied.{CatchesUp, apply_committed-CatchesUp}
use rivet_db.Raft.Commit.Rule.{RuleOf, next_commit-RuleOf}
use rivet_db.Raft.Election.{advance_term, handle_request_vote, vote_reply}
use rivet_db.Raft.Log.{last_index, last_term, term_at, entry_at, at_offset, log_up_to_date}
use rivet_db.Raft.Node.{Config, fresh, step}
use rivet_db.Raft.State.Rules.{Moves}
use rivet_db.Raft.Forward.Basic.{Forward, HardLe, HardLe-refl}
use rivet_db.Raft.Forward.Method.{step-Forward, Genuine}
use rivet_db.Raft.Life.{Life, born, then_step, receives, sent}
use rivet_db.Raft.Life.Granted.{AllMarked, step-AllMarked}
use rivet_db.Raft.Life.Sound.{Sound}
use rivet_db.Raft.Life.Votes.{OneVote, votes_agree, disk_advances}

abbrev three : Configuration
three = record { version = 1; old_voters = 1 ∷ 2 ∷ 3 ∷ []; new_voters = []; learners = [] }

-- Leaving 3 for 4, both sets vote.
abbrev leaving : Configuration
leaving = record {
  version = 2;
  old_voters = 1 ∷ 2 ∷ 3 ∷ [];
  new_voters = 1 ∷ 2 ∷ 4 ∷ [];
  learners = [];
}

abbrev first_two : ℕ → Bool
first_two id = leb id 2

abbrev not_one : ℕ → Bool
not_one id = leb 2 id

three_valid : validate three ≡ ok tt
unfolding validate normalize sort
three_valid = refl

leaving_allowed : validate_transition three leaving ≡ ok tt
unfolding validate_transition validate normalize sort
leaving_allowed = refl

first_two_quorum : has_quorum three first_two ≡ true
unfolding has_quorum majority_acknowledged
first_two_quorum = refl

not_one_quorum : has_quorum three not_one ≡ true
unfolding has_quorum majority_acknowledged
not_one_quorum = refl

not_one_joint_quorum : has_quorum leaving not_one ≡ true
unfolding has_quorum majority_acknowledged
not_one_joint_quorum = refl

quorums_meet_example :
    (id : ℕ) × (voter three id ≡ true) × (first_two id ≡ true) × (not_one id ≡ true)
quorums_meet_example =
    quorums_meet three first_two not_one three_valid first_two_quorum not_one_quorum

transition_quorums_meet_example :
    (id : ℕ) × (voter three id ≡ true)
    × (voter leaving id ≡ true)
    × (first_two id ≡ true)
    × (not_one id ≡ true)
transition_quorums_meet_example =
    transition_quorums_meet three leaving first_two not_one leaving_allowed first_two_quorum
      not_one_joint_quorum

abbrev empty_state : PersistentState
empty_state = record {
  hard_state = record { term = 0; voted_for = 0 };
  snapshot = no_snapshot;
  config = no_configuration;
  entries = [];
}

abbrev server : Config
server = record {
  id = 1;
  peers = 1 ∷ 2 ∷ 3 ∷ [];
  election_timeout_min = 10;
  election_timeout_max = 20;
  heartbeat_interval = 3;
  draws = [];
  store = record { disk = empty_state; outcomes = []; published = [] };
  machine = record { calls = []; outcomes = []; images = [] };
  initial_config = three;
  bootstrap_learner = false;
}

abbrev one : Node
one = fresh server empty_state three

-- A candidate with an empty log asks server 1 for its vote in term 1.
abbrev asks : ℕ → Message
asks candidate = blank request_vote candidate 1 1

abbrev after_two : Node
after_two = (step (asks 2) one).1

abbrev reply : ℕ → Bool → Message
reply candidate granted = vote_reply (asks candidate) granted after_two

-- The first candidate gets the vote and the second does not.
one_votes :
    (sent (step (asks 2) one).0 ≡ reply 2 true ∷ [])
    × (sent (step (asks 3) after_two).0 ≡ reply 3 false ∷ [])
unfolding step usable advance_term persist save become_follower reset_election_timer
    handle_request_vote log_up_to_date last_index last_term members compact sort
one_votes = (refl, refl)

one_Sound : Sound one
one_Sound = record { behind = HardLe-refl _; durable = λ _. refl }

not_append : (candidate : ℕ) → Genuine (asks candidate)
not_append candidate h = absurd (omega (arith, h))

step-Forward_example : Moves Forward (step (asks 2))
step-Forward_example = step-Forward (asks 2) (not_append 2)

step-AllMarked_example : AllMarked (step (asks 2) one).0 (step (asks 2) one).1
step-AllMarked_example = step-AllMarked (asks 2) one (λ _. refl)

abbrev two_requests :
    Life one
      (step (asks 3) after_two).1
      (sent (step (asks 3) after_two).0 ++ (sent (step (asks 2) one).0 ++ []))
two_requests = then_step (then_step born (receives (asks 2))) (receives (asks 3))

votes_agree_example :
    OneVote (sent (step (asks 3) after_two).0 ++ (sent (step (asks 2) one).0 ++ []))
votes_agree_example = votes_agree two_requests ((tt, not_append 2), not_append 3) one_Sound

disk_advances_example :
    HardLe one.store.disk.hard_state (step (asks 3) after_two).1.store.disk.hard_state
disk_advances_example = disk_advances two_requests ((tt, not_append 2), not_append 3) one_Sound

-- A leader in term 2 whose log has an entry of term 1 and two of term 2; server 3 has the first two.
abbrev entry : ℕ → ℕ → Entry
entry index t = record { index = index; term = t; kind = entry_no_op; command = [] }

abbrev chief : Node
chief = record one {
  role = leader;
  persistent = record empty_state {
    hard_state = record { term = 2; voted_for = 1 };
    entries = entry 1 1 ∷ entry 2 2 ∷ entry 3 2 ∷ [];
  };
  match_index = some ((1, 3) ∷ (3, 2) ∷ []);
}

second_commits : next_commit chief ≡ done (some 2)
unfolding find_commit last_index term_at at_offset has_quorum majority_acknowledged
second_commits = refl

next_commit-RuleOf_example : RuleOf chief (last_index chief.persistent) (next_commit chief)
next_commit-RuleOf_example = next_commit-RuleOf chief

-- Three committed entries, the middle one a command, and nothing applied yet.
abbrev ready : Node
ready = record chief {
  commit_index = 3;
  persistent = record chief.persistent {
    entries =
        entry 1 1 ∷ record (entry 2 2) { kind = entry_command; command = 7 ∷ [] } ∷ entry 3 2 ∷ [];
  };
}

one_call :
    (apply_committed ready).1.machine.calls
    ≡ applied (record (entry 2 2) { kind = entry_command; command = 7 ∷ [] }) ∷ []
unfolding apply_committed apply_rounds apply_next apply_entry entry_at at_offset last_index
    machine_call
one_call = refl

apply_committed-CatchesUp_example :
    CatchesUp ready (apply_committed ready).0 (apply_committed ready).1
apply_committed-CatchesUp_example = apply_committed-CatchesUp ready (omega arith) (omega arith)
