-- ===== src/Raft/Life/Granted.antt =====
-- A vote that a node answers with is the vote on its disk.
use rivet_db.Prelude.{
  ℕ, ◌≡◌, ◌≢◌, ◌⊎◌, refl, Bool, true, false, not, none, List, [], ◌∷◌, All, arith, ltb, ◌==◌,
  if◌then◌else◌, Bool-cases, inl, inr, sym, ◌∙◌, ◌&&◌, ==_iff,
}
use rivet_db.Raft.Types.{
  HardState, Message, Error, invalid_message, request_vote, request_vote_response, append_entries,
  append_entries_response, install_snapshot, install_snapshot_response, timeout_now,
}
use rivet_db.Raft.Replicate.{
  handle_append_response, handle_install_snapshot, handle_snapshot_response,
}
use rivet_db.Raft.State.{
  Node, Outcome, done, fail, panic, M, continue, ◌>>◌, raise, modify, gets, term, usable, persist,
  save, next_outcome, stop_with, reset_election_timer,
}
use rivet_db.Raft.Election.{
  may_grant, vote_reply, record_vote, cast_vote, grant, granted, handle_request_vote,
  handle_timeout_now, advance_term, enter_term,
}
use rivet_db.Raft.Node.{dispatch, dispatch_rest, addressed, catch_up, receive, step}
use rivet_db.Raft.Forward.Basic.{Durable, reset_election_timer_quiet}
use rivet_db.Raft.Output.{
  NoGrant, Each, handle_vote_response-Ungranting, handle_append_entries-Ungranting,
  handle_append_response-Ungranting, handle_install_snapshot-Ungranting,
  handle_snapshot_response-Ungranting, handle_timeout_now-Ungranting,
}

-- The vote in a reply is on the disk of the node that sends it.
abbrev pub Marked : Node → Message → Type 0
Marked n m =
    m.vote_granted ≡ true
    → (m.target ≢ 0) × (n.store.disk.hard_state ≡ record { term = m.term; voted_for = m.target })

abbrev pub AllMarked : Outcome (List Message) → Node → Type 0
AllMarked (done ms) n = All (Marked n) ms
AllMarked (fail e) n = Unit
AllMarked panic n = Unit

abbrev InSync : Node → Type 0
InSync n = n.store.disk.hard_state ≡ n.persistent.hard_state

NoGrant-Marked : (n : Node) (m : Message) → NoGrant m → Marked n m
NoGrant-Marked n m h g = ground arith

NoGrants-Marked : (n : Node) (ms : List Message) → All NoGrant ms → All (Marked n) ms
NoGrants-Marked n [] h = tt
NoGrants-Marked n (m ∷ ms) (h, hs) = (NoGrant-Marked n m h, NoGrants-Marked n ms hs)

pub Each-AllMarked : (r : Outcome (List Message)) (n : Node) → Each r → AllMarked r n
Each-AllMarked (done ms) n h = NoGrants-Marked n ms h
Each-AllMarked (fail e) n h = tt
Each-AllMarked panic n h = tt

-- Where an action that returns leaves disk and memory alike.
abbrev WhenDone : {A : Type 0} → (Node → Type 0) → Outcome A → Node → Type 0
WhenDone P (done a) n = P n
WhenDone P (fail e) n = Unit
WhenDone P panic n = Unit

persist_done : (n : Node) → WhenDone InSync (persist n).0 (persist n).1
unfolding persist save stop_with
persist_done n = elim (Bool-cases (next_outcome n.store.outcomes)) [
  | inl good ↦ rw good refl
  | inr bad ↦ rw bad tt
]

catch_up_done :
    (m : Message) (n : Node) → InSync n → WhenDone InSync (catch_up m n).0 (catch_up m n).1
unfolding advance_term
catch_up_done m n h = elim (Bool-cases (ltb (term n) m.term)) [
  | inl later ↦ rw later (persist_done (enter_term m.term n))
  | inr present ↦ rw present h
]

-- Disk and memory both hold the vote for the sender in the present term.
abbrev Voted : ℕ → ℕ → Node → Type 0
Voted t sender n =
    (n.store.disk.hard_state ≡ record { term = t; voted_for = sender }) × (term n ≡ t)

cast_vote_done :
    (sender : ℕ) (n : Node)
    → WhenDone (Voted (term n) sender) (cast_vote sender n).0 (cast_vote sender n).1
unfolding persist save stop_with
cast_vote_done sender n = elim (Bool-cases (next_outcome n.store.outcomes)) [
  | inl good ↦ rw good (refl, refl)
  | inr bad ↦ rw bad tt
]

own_vote :
    (h : HardState) (sender : ℕ)
    → h.voted_for ≡ sender
    → h ≡ record { term = h.term; voted_for = sender }
own_vote h sender e = rw (sym e) refl

record_vote_done :
    (sender : ℕ) (n : Node)
    → InSync n
    → WhenDone (Voted (term n) sender) (record_vote sender n).0 (record_vote sender n).1
record_vote_done sender n h = elim (Bool-cases (n.persistent.hard_state.voted_for == sender)) [
  | inl same ↦ rw same (h ∙ own_vote n.persistent.hard_state sender ((==_iff _ _).0 same), refl)
  | inr other ↦ rw other (cast_vote_done sender n)
]

Voted-Marked :
    (m : Message) (t : ℕ) (n : Node)
    → m.sender ≢ 0
    → Voted t m.sender n
    → Marked (reset_election_timer n) (vote_reply m true (reset_election_timer n))
Voted-Marked m t n nonzero (d, e) =
    let (i, p, s, f, c) = reset_election_timer_quiet n in λ g. (nonzero, rw (s, p, e) d)

answer_granted :
    (m : Message) (t : ℕ) (r : Outcome (Unit {0})) (n : Node)
    → m.sender ≢ 0
    → WhenDone (Voted t m.sender) r n
    → AllMarked
        (continue r (λ _. modify reset_election_timer >> gets (granted m)) n).0
        (continue r (λ _. modify reset_election_timer >> gets (granted m)) n).1
answer_granted m t (done u) n nonzero h = (Voted-Marked m t n nonzero h, tt)
answer_granted m t (fail e) n nonzero h = tt
answer_granted m t panic n nonzero h = tt

grant-AllMarked :
    (m : Message) (n : Node) → m.sender ≢ 0 → InSync n → AllMarked (grant m n).0 (grant m n).1
grant-AllMarked m n nonzero h =
    answer_granted m (term n) (record_vote m.sender n).0 (record_vote m.sender n).1 nonzero
      (record_vote_done m.sender n h)

refuse-AllMarked : (m : Message) (n : Node) → AllMarked (done (vote_reply m false n ∷ [])) n
refuse-AllMarked m n = ((λ g. ground arith), tt)

handle_request_vote-AllMarked :
    (m : Message) (n : Node)
    → m.sender ≢ 0
    → InSync n
    → AllMarked (handle_request_vote m n).0 (handle_request_vote m n).1
unfolding handle_request_vote
handle_request_vote-AllMarked m n nonzero h = elim (Bool-cases (ltb m.term m.candidate_last_term)) [
  | inl bad ↦ rw bad tt
  | inr good ↦ rw good (elim (Bool-cases (may_grant m n)) [
    | inl may ↦ rw may (grant-AllMarked m n nonzero h)
    | inr refused ↦ rw refused (refuse-AllMarked m n)
  ])
]

pick :
    (b : Bool) (m k : M (List Message)) (n : Node)
    → AllMarked (m n).0 (m n).1
    → AllMarked (k n).0 (k n).1
    → AllMarked ((if b then m else k) n).0 ((if b then m else k) n).1
pick true m k n x y = x
pick false m k n x y = y

dispatch-AllMarked :
    (m : Message) (n : Node) → m.sender ≢ 0 → InSync n → AllMarked (dispatch m n).0 (dispatch m n).1
dispatch-AllMarked m n nonzero h =
    pick (m.kind == request_vote) _ _ n (handle_request_vote-AllMarked m n nonzero h) (
      pick (m.kind == request_vote_response) _ _ n
        (Each-AllMarked _ _ ((handle_vote_response-Ungranting m).at n))
        (pick (m.kind == append_entries) _ _ n
          (Each-AllMarked _ _ ((handle_append_entries-Ungranting m).at n))
          (Each-AllMarked _ _ (rest_ungranting m n))))
  where
    choose_each :
        (b : Bool) (m k : M (List Message)) (n : Node)
        → Each (m n).0
        → Each (k n).0
        → Each ((if b then m else k) n).0
    choose_each true m k n x y = x
    choose_each false m k n x y = y

    rest_ungranting : (m : Message) (n : Node) → Each (dispatch_rest m n).0
    rest_ungranting m n =
        choose_each (m.kind == append_entries_response) (handle_append_response m) _ n
          ((handle_append_response-Ungranting m).at n)
          (choose_each (m.kind == install_snapshot) (handle_install_snapshot m) _ n
            ((handle_install_snapshot-Ungranting m).at n)
            (choose_each (m.kind == install_snapshot_response) (handle_snapshot_response m) _ n
              ((handle_snapshot_response-Ungranting m).at n)
              (choose_each (m.kind == timeout_now) (handle_timeout_now m) (raise invalid_message) n
                ((handle_timeout_now-Ungranting m).at n) tt)))

dispatch_after :
    (m : Message) (r : Outcome (Unit {0})) (n : Node)
    → m.sender ≢ 0
    → WhenDone InSync r n
    → AllMarked (continue r (λ _. dispatch m) n).0 (continue r (λ _. dispatch m) n).1
dispatch_after m (done u) n nonzero h = dispatch-AllMarked m n nonzero h
dispatch_after m (fail e) n nonzero h = tt
dispatch_after m panic n nonzero h = tt

addressed-sender : (m : Message) (n : Node) → addressed m n ≡ true → m.sender ≢ 0
addressed-sender m n h = second (m.target == n.id) (m.sender == 0) _ h refl
  where
    second : (a b c : Bool) → (a && (not b && c)) ≡ true → (m.sender == 0) ≡ b → m.sender ≢ 0
    second a b c h e z = ground (arith, (==_iff m.sender 0).1 z)

receive-AllMarked : (m : Message) (n : Node) → InSync n → AllMarked (receive m n).0 (receive m n).1
receive-AllMarked m n h = elim (Bool-cases (addressed m n)) [
  | inl ours ↦ rw ours (
      dispatch_after m (catch_up m n).0 (catch_up m n).1 (addressed-sender m n ours)
        (catch_up_done m n h))
  | inr stray ↦ rw stray tt
]

usable-cases :
    (n : Node)
    → ((usable n ≡ (done tt, n)) × (n.fatal ≡ none)) ⊎ (usable n ≡ (fail Error.stopped, n))
unfolding usable
usable-cases n = ground arith

-- When the disk of a node that has not failed holds the hard state in memory, a vote that Step returns
-- is on disk when it returns: its term and its candidate are the durable ones.
pub step-AllMarked : (m : Message) (n : Node) → Durable n → AllMarked (step m n).0 (step m n).1
unfolding step
step-AllMarked m n h = elim (usable-cases n) [
  | inl (e, running) ↦ rw e (receive-AllMarked m n (h running))
  | inr e ↦ rw e tt
]
