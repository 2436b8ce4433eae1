-- ===== src/Raft/Output.antt =====
-- What a node sends: only the answer to a vote request can grant a vote.
use rivet_db.Prelude.{
  ℕ, ◌+◌, ◌-◌, ◌≡◌, refl, Bool, true, false, List, [], ◌∷◌, All, arith, ◌==◌, if◌then◌else◌, max,
  length,
}
use rivet_db.Raft.Types.{Entry, PersistentState, Message, unavailable}
use rivet_db.Raft.State.{
  Node, Outcome, done, fail, panic, M, continue, ◌>>=◌, read, gets, modify, when, inc, stop_with,
  lookup_in, persist, save, set_vote, set_match_index, set_next_index, become_follower,
}
use rivet_db.Raft.Membership.{members}
use rivet_db.Raft.Log.{term_at}
use rivet_db.Raft.Commit.{
  append_message, suffix_message, replication_message, cons_message, messages_to,
  replication_messages, advance_commit,
}
use rivet_db.Raft.Election.{
  vote_requests, record_own_entry, assume_office, become_leader, solicit, campaign, start_election,
  lead_if_elected, count_vote, handle_vote_response, handle_timeout_now, no_op_entry,
  run_for_office, take_lead,
}
use rivet_db.Raft.Replicate.{
  accepted, accept_append, behind, conflicting, check_previous, match_previous, follow_and_match,
  handle_append_entries, replicate_if_moved, advance_from, acknowledge, one_message, replicate_to,
  retry, handle_append_response, adopt_snapshot, adopt_suffix, take_snapshot, follow_and_take,
  handle_install_snapshot, advance_snapshot_match, handle_snapshot_response, kept_suffix,
  snapshot_taken, merge_entries, commit_through, follow, advance_match, next_try, restore_machine,
  set_persistent, install_newer, jump_to, with_snapshot,
}

abbrev pub NoGrant : Message → Type 0
NoGrant m = m.vote_granted ≡ false

abbrev pub Each : Outcome (List Message) → Type 0
Each (done ms) = All NoGrant ms
Each (fail e) = Unit
Each panic = Unit

-- Whatever the state, what the action returns grants no vote.
pub record Ungranting (m : M (List Message)) : Type 0 where
  pub at : (n : Node) → Each (m n).0

append_message-NoGrant :
    (n : Node) (peer previous : ℕ) (t : Outcome ℕ) (es : Outcome (List Entry)) (m : Message)
    → append_message n peer previous t es ≡ done m
    → NoGrant m
append_message-NoGrant n peer previous (done t) (done es) m h = ground arith
append_message-NoGrant n peer previous (done t) (fail e) m h = cc
append_message-NoGrant n peer previous (done t) panic m h = cc
append_message-NoGrant n peer previous (fail e) es m h = cc
append_message-NoGrant n peer previous panic es m h = cc

suffix_message-NoGrant :
    (next peer : ℕ) (n : Node) (m : Message) → suffix_message next peer n ≡ done m → NoGrant m
suffix_message-NoGrant next peer n m h = append_message-NoGrant n peer (next - 1) _ _ m h

replication_message-NoGrant :
    (peer : ℕ) (n : Node) (m : Message) → replication_message peer n ≡ done m → NoGrant m
unfolding replication_message
replication_message-NoGrant peer n m h =
    ground (arith, suffix_message-NoGrant (lookup_in 0 n.next_index peer) peer n m)

cons_message-Each :
    (r : Outcome Message) (rs : Outcome (List Message))
    → ((m : Message) → r ≡ done m → NoGrant m)
    → Each rs
    → Each (cons_message r rs)
cons_message-Each (done m) (done ms) h hs = (h m refl, hs)
cons_message-Each (done m) (fail e) h hs = tt
cons_message-Each (done m) panic h hs = tt
cons_message-Each (fail e) rs h hs = tt
cons_message-Each panic rs h hs = tt

messages_to-Each : (ps : List ℕ) (n : Node) → Each (messages_to ps n)
messages_to-Each [] n = tt
messages_to-Each (p ∷ ps) n = pick (p == n.id) (messages_to-Each ps n) (
    cons_message-Each (replication_message p n) (messages_to ps n) (replication_message-NoGrant p n)
      (messages_to-Each ps n))
  where
    pick :
        (b : Bool)
        → Each (messages_to ps n)
        → Each (cons_message (replication_message p n) (messages_to ps n))
        → Each (
            if b
            then messages_to ps n
            else cons_message (replication_message p n) (messages_to ps n))
    pick true x y = x
    pick false x y = y

pub replication_messages-Each : (n : Node) → Each (replication_messages n)
unfolding replication_messages
replication_messages-Each n = messages_to-Each n.peers n

one_message-Each :
    (r : Outcome Message) → ((m : Message) → r ≡ done m → NoGrant m) → Each (one_message r)
one_message-Each (done m) h = (h m refl, tt)
one_message-Each (fail e) h = tt
one_message-Each panic h = tt

replicate_to-Each : (peer : ℕ) (n : Node) → Each (replicate_to peer n)
replicate_to-Each peer n =
    one_message-Each (replication_message peer n) (replication_message-NoGrant peer n)

vote_requests-NoGrant : (ps : List ℕ) (n : Node) → All NoGrant (vote_requests ps n)
vote_requests-NoGrant [] n = tt
vote_requests-NoGrant (p ∷ ps) n = ground (arith, vote_requests-NoGrant ps n)

-- The rules.
after :
    {A : Type 0} (r : Outcome A) (f : A → M (List Message)) (n : Node)
    → ((a : A) → Ungranting (f a))
    → Each (continue r f n).0
after (done a) f n h = (h a).at n
after (fail e) f n h = tt
after panic f n h = tt

pub Ungranting-bind :
    {A : Type 0} (m : M A) (f : A → M (List Message))
    → ((a : A) → Ungranting (f a))
    → Ungranting (m >>= f)
Ungranting-bind m f h = record { at = λ n. after (m n).0 f (m n).1 h }

Ungranting-read :
    (f : Node → Outcome (List Message)) → ((n : Node) → Each (f n)) → Ungranting (read f)
Ungranting-read f h = record { at = h }

Ungranting-gets : (f : Node → List Message) → ((n : Node) → All NoGrant (f n)) → Ungranting (gets f)
Ungranting-gets f h = record { at = h }

Ungranting-if :
    (b : Bool) (m k : M (List Message))
    → Ungranting m
    → Ungranting k
    → Ungranting (if b then m else k)
Ungranting-if true m k hm hk = hm
Ungranting-if false m k hm hk = hk

pub become_leader-Ungranting : Ungranting become_leader
unfolding become_leader stop_with
become_leader-Ungranting = record { at = λ n. ground (arith, (office (no_op_entry n)).at n) }
  where
    office : (e : Entry) → Ungranting (assume_office e)
    office e = Ungranting-bind (modify take_lead) _ λ _.
        Ungranting-bind (record_own_entry e) _
          λ _. Ungranting-read replication_messages replication_messages-Each

solicit-Ungranting : Ungranting solicit
solicit-Ungranting = record {
  at = λ n.
      ground
        (arith, become_leader-Ungranting.at n, vote_requests-NoGrant (members n.configuration) n);
}

campaign-Ungranting : Ungranting campaign
campaign-Ungranting =
    Ungranting-bind (modify run_for_office) _ λ _. Ungranting-bind persist _ λ _. solicit-Ungranting

pub start_election-Ungranting : Ungranting start_election
unfolding start_election stop_with
start_election-Ungranting = record { at = λ n. ground (arith, campaign-Ungranting.at n) }

pub handle_vote_response-Ungranting : (m : Message) → Ungranting (handle_vote_response m)
unfolding handle_vote_response
handle_vote_response-Ungranting m = record { at = λ n. ground (arith, counted.at n) }
  where
    elected : Ungranting lead_if_elected
    elected = record { at = λ n. ground (arith, become_leader-Ungranting.at n) }

    counted : Ungranting (count_vote m)
    counted = Ungranting-bind (when m.vote_granted (set_vote m.sender)) _ λ _. elected

pub handle_timeout_now-Ungranting : (m : Message) → Ungranting (handle_timeout_now m)
unfolding handle_timeout_now
handle_timeout_now-Ungranting m = record {
  at = λ n. ground (arith, start_election-Ungranting.at n);
}

accept_append-Ungranting : (m : Message) → Ungranting (accept_append m)
unfolding accept_append
accept_append-Ungranting m = Ungranting-bind (merge_entries m.entries) _ λ changed.
    Ungranting-bind (when changed persist) _ λ _.
      Ungranting-bind (commit_through m.leader_commit (m.prev_log_index + length m.entries)) _
        λ _. Ungranting-gets (accepted m) (λ n. (refl, tt))

check_previous-Ungranting : (m : Message) (r : Outcome ℕ) → Ungranting (check_previous m r)
check_previous-Ungranting m (done t) =
    Ungranting-if _ _ _ (Ungranting-gets (conflicting m t) (λ n. (refl, tt)))
      (accept_append-Ungranting m)
check_previous-Ungranting m (fail unavailable) = Ungranting-gets (behind m) (λ n. (refl, tt))
check_previous-Ungranting m (fail x) = record { at = λ n. tt }
check_previous-Ungranting m panic = record { at = λ n. tt }

pub handle_append_entries-Ungranting : (m : Message) → Ungranting (handle_append_entries m)
unfolding handle_append_entries
handle_append_entries-Ungranting m = record { at = λ n. ground (arith, followed.at n) }
  where
    matched : Ungranting (match_previous m)
    matched = record {
      at = λ n.
          ground
            (arith, (check_previous-Ungranting m (term_at m.prev_log_index n.persistent)).at n);
    }

    followed : Ungranting (follow_and_match m)
    followed = Ungranting-bind (modify (follow m.sender)) _ λ _. matched

acknowledge-Ungranting : (m : Message) → Ungranting (acknowledge m)
acknowledge-Ungranting m = record { at = λ n. ground (arith, advanced.at n) }
  where
    moved : (before : ℕ) → Ungranting (replicate_if_moved before)
    moved before = record { at = λ n. ground (arith, replication_messages-Each n) }

    advanced : Ungranting (advance_from m)
    advanced = Ungranting-bind (advance_match m) _ λ _.
        Ungranting-bind (gets λ n. n.commit_index) _
          λ before. Ungranting-bind advance_commit _ λ _. moved before

retry-Ungranting : (m : Message) → Ungranting (retry m)
retry-Ungranting m = Ungranting-bind (gets (next_try m)) _ λ next.
    Ungranting-bind (set_next_index m.sender next) _
      λ _. Ungranting-read (replicate_to m.sender) (replicate_to-Each m.sender)

pub handle_append_response-Ungranting : (m : Message) → Ungranting (handle_append_response m)
unfolding handle_append_response
handle_append_response-Ungranting m = record {
  at = λ n. ground (arith, (acknowledge-Ungranting m).at n, (retry-Ungranting m).at n);
}

adopt_snapshot-Ungranting : (m : Message) (p : PersistentState) → Ungranting (adopt_snapshot m p)
adopt_snapshot-Ungranting m p = Ungranting-bind (save p) _ λ _.
    Ungranting-bind (restore_machine m.snapshot) _ λ _.
      Ungranting-bind (modify (set_persistent p)) _ λ _.
        Ungranting-bind (install_newer p.config) _ λ _.
          Ungranting-bind (modify (jump_to m.snapshot.index)) _
            λ _. Ungranting-gets (snapshot_taken m) (λ n. (refl, tt))

pub handle_install_snapshot-Ungranting : (m : Message) → Ungranting (handle_install_snapshot m)
unfolding handle_install_snapshot
handle_install_snapshot-Ungranting m = record { at = λ n. ground (arith, followed.at n) }
  where
    adopted : (suffix : List Entry) → Ungranting (adopt_suffix m suffix)
    adopted suffix = record {
      at = λ n. (adopt_snapshot-Ungranting m (with_snapshot m.snapshot suffix n.persistent)).at n;
    }

    taken : Ungranting (take_snapshot m)
    taken = record {
      at = λ n. ground (
        arith,
        after (kept_suffix m.snapshot n.persistent (term_at m.snapshot.index n.persistent))
            (adopt_suffix m) n adopted,
      );
    }

    followed : Ungranting (follow_and_take m)
    followed = Ungranting-bind (modify (become_follower m.sender)) _ λ _. taken

advance_snapshot_match-Ungranting : (m : Message) → Ungranting (advance_snapshot_match m)
advance_snapshot_match-Ungranting m = Ungranting-bind (gets λ n. n) _ λ n.
    Ungranting-bind
      (set_match_index m.sender (max (lookup_in 0 n.match_index m.sender) m.match_index)) _
      λ _. Ungranting-bind (gets λ n. n) _ λ n.
        Ungranting-bind (set_next_index m.sender (inc (lookup_in 0 n.match_index m.sender))) _
          λ _. Ungranting-read (replicate_to m.sender) (replicate_to-Each m.sender)

pub handle_snapshot_response-Ungranting : (m : Message) → Ungranting (handle_snapshot_response m)
unfolding handle_snapshot_response
handle_snapshot_response-Ungranting m = record {
  at = λ n. ground (arith, (advance_snapshot_match-Ungranting m).at n);
}
