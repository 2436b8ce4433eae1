-- ===== src/Raft/Forward/Election.antt =====
-- Terms, votes and elections.
use rivet_db.Prelude.{
  ℕ, ◌+◌, ◌<◌, ◌≡◌, refl, Bool, true, false, List, arith, ltb, ltb→lt, ◌==◌, Bool-cases, inl, inr,
  ◌&&◌, ◌||◌,
}
use rivet_db.Raft.Types.{Entry, HardState, Message, resource_limit}
use rivet_db.Raft.Membership.{voter}
use rivet_db.Raft.State.{Node, ◌>>◌, persist, inc, term, modify, gets, reset_election_timer}
use rivet_db.Raft.State.Rules.{
  Moves, Moves-bind, Moves-gets, Moves-read, Moves-when, Moves-continue,
}
use rivet_db.Raft.Log.{log_up_to_date}
use rivet_db.Raft.Forward.Basic.{
  Forward, HardLe, forward, Forward-refl, Forward-trans, Forward_quiet, Advance, Advance_hard,
  Advance-Forward, persist_after, stop_with-Forward, persist-Forward, quiet-Forward, modify-Forward,
  become_follower-Forward, reset_election_timer-Forward, set_match_index-Forward,
  set_next_index-Forward, set_vote-Forward,
}
use rivet_db.Raft.Forward.Commit.{advance_commit-Forward}
use rivet_db.Raft.Commit.{replication_messages}
use rivet_db.Raft.Election.{
  set_hard_state, append_entry, advance_term, record_own_entry, take_lead, assume_office, campaign,
  enter_term, run_for_office, vote_for, granted, cast_vote, grant, count_vote, no_op_entry,
  become_leader, stand, solicit, as_candidate, start_election, may_grant, record_vote,
  handle_request_vote, lead_if_elected, handle_vote_response, handle_timeout_now,
}

pub record_own_entry-Forward : (e : Entry) → Moves Forward (record_own_entry e)
unfolding record_own_entry
record_own_entry-Forward e =
    Moves-bind forward _ _
      (quiet-Forward (append_entry e) (λ n. (refl, refl, refl, refl, omega arith)))
      λ _. Moves-bind forward _ _ persist-Forward λ _.
        Moves-bind forward _ _ (Moves-gets forward (λ n. n)) λ n.
          Moves-bind forward _ _ (set_match_index-Forward n.id e.index) λ _.
            Moves-bind forward _ _ (set_next_index-Forward n.id (inc e.index))
              λ _. advance_commit-Forward

assume_office-Forward : (e : Entry) → Moves Forward (assume_office e)
assume_office-Forward e =
    Moves-bind forward _ _ (quiet-Forward take_lead (λ n. (refl, refl, refl, refl, omega arith)))
      λ _.
        Moves-bind forward _ _ (record_own_entry-Forward e)
          λ _. Moves-read forward replication_messages

become_leader-Forward : Moves Forward become_leader
unfolding become_leader
become_leader-Forward = record {
  at = λ n. ground (
    arith,
    (stop_with-Forward {A = List Message} resource_limit).at n,
    (assume_office-Forward (no_op_entry n)).at n,
  );
}

-- A higher term, or the present one with a vote that was free.
set_hard_state-Advance :
    (t v : ℕ) (n : Node)
    → HardLe n.persistent.hard_state (record { term = t; voted_for = v })
    → Advance n (set_hard_state t v n)
set_hard_state-Advance t v n h = Advance_hard n (set_hard_state t v n) refl h refl (omega arith)

higher_term : (h : HardState) (t v : ℕ) → h.term < t → HardLe h (record { term = t; voted_for = v })
higher_term h t v lt = record { term = omega arith; vote = λ e _. absurd (omega arith) }

enter_term-Advance : (t : ℕ) (n : Node) → term n < t → Advance n (enter_term t n)
enter_term-Advance t n lt =
    Advance-Forward n (set_hard_state t 0 n) _
      (set_hard_state-Advance t 0 n (higher_term n.persistent.hard_state t 0 lt))
      (become_follower-Forward 0 (set_hard_state t 0 n))

pub advance_term-Forward : (t : ℕ) → Moves Forward (advance_term t)
unfolding advance_term
advance_term-Forward t = record {
  at = λ n. elim (Bool-cases (ltb (term n) t)) [
    | inl lt ↦ rw lt (persist_after n (enter_term t n) (enter_term-Advance t n (ltb→lt _ _ lt)))
    | inr ge ↦ rw ge (Forward-refl n)
  ];
}

run_for_office-Advance : (n : Node) → Advance n (run_for_office n)
run_for_office-Advance n =
    Advance-Forward n (stand (as_candidate n)) _
      (Advance_hard n (stand (as_candidate n)) refl
        (higher_term n.persistent.hard_state (term n + 1) n.id (omega arith)) refl (omega arith))
      (reset_election_timer-Forward (stand (as_candidate n)))

solicit-Forward : Moves Forward solicit
solicit-Forward = record { at = λ n. ground (arith, Forward-refl n, become_leader-Forward.at n) }

campaign-Forward : Moves Forward campaign
campaign-Forward = record {
  at = λ n.
      Forward-trans n (persist (run_for_office n)).1 _
        (persist_after n (run_for_office n) (run_for_office-Advance n))
        ((Moves-continue forward (persist (run_for_office n)).0 (λ _. solicit)
            (λ _. solicit-Forward)).at
          _);
}

pub start_election-Forward : Moves Forward start_election
unfolding start_election
start_election-Forward = record {
  at = λ n. ground (
    arith,
    Forward-refl n,
    Forward-trans n (as_candidate n) _
        (Forward_quiet n (as_candidate n) refl refl refl refl (omega arith))
        ((stop_with-Forward {A = List Message} resource_limit).at (as_candidate n)),
    campaign-Forward.at n,
  );
}

cast_vote-Forward :
    (sender : ℕ) (n : Node)
    → n.persistent.hard_state.voted_for ≡ 0
    → Forward n (cast_vote sender n).1
cast_vote-Forward sender n free = persist_after n (vote_for sender n) (
    set_hard_state-Advance (term n) sender n
      (record { term = omega arith; vote = λ _ v. absurd (v free) }))

fifth : (a b c d e : Bool) → (a && (b && (c && (d && e)))) ≡ true → e ≡ true
fifth a b c d e h = ground arith

vote_was_free :
    (m : Message) (n : Node)
    → may_grant m n ≡ true
    → (n.persistent.hard_state.voted_for == m.sender) ≡ false
    → n.persistent.hard_state.voted_for ≡ 0
vote_was_free m n may other = free (
    fifth (voter n.configuration n.id) (voter n.configuration m.sender) (m.term == term n)
      (log_up_to_date m.candidate_last_index m.candidate_last_term n.persistent) _ may)
  where
    free :
        (n.persistent.hard_state.voted_for == 0 || n.persistent.hard_state.voted_for == m.sender)
          ≡ true
        → n.persistent.hard_state.voted_for ≡ 0
    free h = ground arith

-- A vote is recorded only where none stands, or the same one.
record_vote-Forward :
    (m : Message) (n : Node) → may_grant m n ≡ true → Forward n (record_vote m.sender n).1
record_vote-Forward m n may = elim (Bool-cases (n.persistent.hard_state.voted_for == m.sender)) [
  | inl same ↦ rw same (Forward-refl n)
  | inr other ↦ rw other (cast_vote-Forward m.sender n (vote_was_free m n may other))
]

grant-Forward : (m : Message) (n : Node) → may_grant m n ≡ true → Forward n (grant m n).1
grant-Forward m n may = Forward-trans n (record_vote m.sender n).1 _ (record_vote-Forward m n may) (
    (Moves-continue forward (record_vote m.sender n).0
        (λ _. modify reset_election_timer >> gets (granted m)) (λ _. answer)).at
      _)
  where
    answer : Moves Forward (modify reset_election_timer >> gets (granted m))
    answer =
        Moves-bind forward _ _ (modify-Forward reset_election_timer reset_election_timer-Forward)
          λ _. Moves-gets forward (granted m)

pub handle_request_vote-Forward : (m : Message) → Moves Forward (handle_request_vote m)
unfolding handle_request_vote
handle_request_vote-Forward m = record {
  at = λ n. elim (Bool-cases (may_grant m n)) [
    | inl may ↦ rw may (ground (arith, Forward-refl n, grant-Forward m n may))
    | inr no_vote ↦ rw no_vote (ground (arith, Forward-refl n))
  ];
}

lead_if_elected-Forward : Moves Forward lead_if_elected
lead_if_elected-Forward = record {
  at = λ n. ground (arith, Forward-refl n, become_leader-Forward.at n);
}

count_vote-Forward : (m : Message) → Moves Forward (count_vote m)
count_vote-Forward m =
    Moves-bind forward _ _ (Moves-when forward m.vote_granted _ (set_vote-Forward m.sender))
      λ _. lead_if_elected-Forward

pub handle_vote_response-Forward : (m : Message) → Moves Forward (handle_vote_response m)
unfolding handle_vote_response
handle_vote_response-Forward m = record {
  at = λ n. ground (arith, Forward-refl n, (count_vote-Forward m).at n);
}

pub handle_timeout_now-Forward : (m : Message) → Moves Forward (handle_timeout_now m)
unfolding handle_timeout_now
handle_timeout_now-Forward m = record {
  at = λ n. ground (arith, Forward-refl n, start_election-Forward.at n);
}
