-- ===== src/Raft/Forward/Append.antt =====
-- AppendEntries and its response.
use rivet_db.Prelude.{
  ℕ, ◌+◌, ◌≤◌, refl, Bool, true, List, [], ◌∷◌, arith, ltb, ltb→lt, min, Bool-cases, inl, inr,
  length,
}
use rivet_db.Raft.Types.{Entry, Message, unavailable}
use rivet_db.Raft.State.{Node, Outcome, done, fail, panic, M, inc}
use rivet_db.Raft.State.Rules.{
  Moves, Moves-bind, Moves-pure, Moves-gets, Moves-read, Moves-raise, Moves-assert, Moves-when,
  Moves-if,
}
use rivet_db.Raft.Log.{entry_at, term_at, truncate_suffix}
use rivet_db.Raft.Commit.{set_commit}
use rivet_db.Raft.Forward.Basic.{
  Forward, forward, Forward-refl, Forward-trans, Forward_quiet, persist-Forward, quiet-Forward,
  modify-Forward, become_follower-Forward, reset_election_timer-Forward, set_match_index-Forward,
  set_next_index-Forward,
}
use rivet_db.Raft.Forward.Commit.{apply_committed-Forward, advance_commit-Forward}
use rivet_db.Raft.Replicate.{
  append_all, extend_log, overwrite_from, replace_suffix, merge_one, merge_entries, same_content,
  commit_through, accepted, accept_append, behind, conflicting, check_previous, follow,
  match_previous, follow_and_match, handle_append_entries, set_progress, advance_match,
  replicate_if_moved, advance_from, acknowledge, next_try, replicate_to, retry,
  handle_append_response,
}

truncate_suffix-Forward : (index : ℕ) → Moves Forward (truncate_suffix index)
unfolding truncate_suffix
truncate_suffix-Forward index = record { at = λ n. ground (arith, Forward-refl n) }

extend_log-Forward : (e : Entry) (es : List Entry) → Moves Forward (extend_log e es)
extend_log-Forward e es =
    Moves-bind forward _ _
      (quiet-Forward (append_all (e ∷ es)) (λ n. (refl, refl, refl, refl, omega arith)))
      λ _. Moves-pure forward true

replace_suffix-Forward : (e : Entry) (es : List Entry) → Moves Forward (replace_suffix e es)
replace_suffix-Forward e es = record { at = λ n. ground (arith, Forward-refl n, overwrite.at n) }
  where
    overwrite : Moves Forward (overwrite_from e es)
    overwrite =
        Moves-bind forward _ _ (truncate_suffix-Forward e.index) λ _. extend_log-Forward e es

merge_one-Forward :
    (e : Entry) (es : List Entry) (r : Outcome Entry) (skip : M Bool)
    → Moves Forward skip
    → Moves Forward (merge_one e es r skip)
merge_one-Forward e es (done own) skip h =
    Moves-if Forward _ _ _
      (Moves-bind forward _ _ (Moves-assert forward (same_content own e)) (λ _. h))
      (replace_suffix-Forward e es)
merge_one-Forward e es (fail unavailable) skip h = extend_log-Forward e es
merge_one-Forward e es (fail x) skip h = Moves-raise forward x
merge_one-Forward e es panic skip h = record { at = Forward-refl }

merge_entries-Forward : (es : List Entry) → Moves Forward (merge_entries es)
merge_entries-Forward [] = record { at = Forward-refl }
merge_entries-Forward (e ∷ es) =
    let rest = merge_entries-Forward es in
    record {
      at = λ n.
          (merge_one-Forward e es (entry_at e.index n.persistent) (λ n'. merge_entries es n')
              (record { at = rest.at })).at
            n;
    }

-- The sender's commit index is within what the message covers. `replication_message` sends the whole
-- suffix of the log, so its messages are of this form.
abbrev pub Covered : Message → Type 0
Covered m = m.leader_commit ≤ m.prev_log_index + length m.entries

commit_through-Forward : (c l : ℕ) → c ≤ l → Moves Forward (commit_through c l)
commit_through-Forward c l within = record {
  at = λ n. elim (Bool-cases (ltb n.commit_index c)) [
    | inl ahead ↦ rw ahead (
        Forward-trans n (set_commit (min c l) n) _
          (Forward_quiet n (set_commit (min c l) n) refl refl refl refl
            (omega (arith, ltb→lt _ _ ahead)))
          (apply_committed-Forward.at (set_commit (min c l) n)))
    | inr level ↦ rw level (Forward-refl n)
  ];
}

accept_append-Forward : (m : Message) → Covered m → Moves Forward (accept_append m)
unfolding accept_append
accept_append-Forward m covered =
    Moves-bind forward _ _ (merge_entries-Forward m.entries) λ changed.
      Moves-bind forward _ _ (Moves-when forward changed _ persist-Forward) λ _.
        Moves-bind forward _ _ (commit_through-Forward m.leader_commit _ covered)
          λ _. Moves-gets forward (accepted m)

check_previous-Forward :
    (m : Message) (r : Outcome ℕ) → Covered m → Moves Forward (check_previous m r)
check_previous-Forward m (done t) h =
    Moves-if Forward _ _ _ (Moves-gets forward (conflicting m t)) (accept_append-Forward m h)
check_previous-Forward m (fail unavailable) h = Moves-gets forward (behind m)
check_previous-Forward m (fail x) h = Moves-raise forward x
check_previous-Forward m panic h = record { at = Forward-refl }

match_previous-Forward : (m : Message) → Covered m → Moves Forward (match_previous m)
match_previous-Forward m h = record {
  at = λ n. ground (
    arith,
    Forward-refl n,
    (check_previous-Forward m (term_at m.prev_log_index n.persistent) h).at n,
  );
}

follow-Forward : (sender : ℕ) (n : Node) → Forward n (follow sender n)
follow-Forward sender n =
    ground (arith, become_follower-Forward sender n, reset_election_timer-Forward n)

follow_and_match-Forward : (m : Message) → Covered m → Moves Forward (follow_and_match m)
follow_and_match-Forward m h =
    Moves-bind forward _ _ (modify-Forward (follow m.sender) (follow-Forward m.sender))
      λ _. match_previous-Forward m h

pub handle_append_entries-Forward :
    (m : Message) → Covered m → Moves Forward (handle_append_entries m)
unfolding handle_append_entries
handle_append_entries-Forward m h = record {
  at = λ n. ground (arith, Forward-refl n, (follow_and_match-Forward m h).at n);
}

set_progress-Forward : (peer index : ℕ) → Moves Forward (set_progress peer index)
set_progress-Forward peer index =
    Moves-bind forward _ _ (set_match_index-Forward peer index)
      λ _. set_next_index-Forward peer (inc index)

advance_match-Forward : (m : Message) → Moves Forward (advance_match m)
advance_match-Forward m = record {
  at = λ n. ground (arith, Forward-refl n, (set_progress-Forward m.sender m.match_index).at n);
}

replicate_if_moved-Forward : (before : ℕ) → Moves Forward (replicate_if_moved before)
replicate_if_moved-Forward before = record { at = λ n. ground (arith, Forward-refl n) }

advance_from-Forward : (m : Message) → Moves Forward (advance_from m)
advance_from-Forward m = Moves-bind forward _ _ (advance_match-Forward m) λ _.
    Moves-bind forward _ _ (Moves-gets forward (λ n. n.commit_index))
      λ before. Moves-bind forward _ _ advance_commit-Forward λ _. replicate_if_moved-Forward before

acknowledge-Forward : (m : Message) → Moves Forward (acknowledge m)
acknowledge-Forward m = record {
  at = λ n. ground (arith, Forward-refl n, (advance_from-Forward m).at n);
}

retry-Forward : (m : Message) → Moves Forward (retry m)
retry-Forward m = Moves-bind forward _ _ (Moves-gets forward (next_try m)) λ next.
    Moves-bind forward _ _ (set_next_index-Forward m.sender next)
      λ _. Moves-read forward (replicate_to m.sender)

pub handle_append_response-Forward : (m : Message) → Moves Forward (handle_append_response m)
unfolding handle_append_response
handle_append_response-Forward m = record {
  at = λ n. ground (arith, Forward-refl n, (acknowledge-Forward m).at n, (retry-Forward m).at n);
}
