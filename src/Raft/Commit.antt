-- ===== src/Raft/Commit.antt =====
-- internal/raft/node.go: applying what is committed, installing configurations, advancing the commit
-- index, and the messages that replicate the log.
pub mod Rule
pub mod Applied
use rivet_db.Prelude.{
  ℕ, zero, suc, ◌-◌, Bool, true, false, Option, none, some, List, [], ◌∷◌, ◌&&◌, ltb, leb, ◌==◌,
  if◌then◌else◌, not, Result, ok, err,
}
use rivet_db.Raft.Sort.{contains}
use rivet_db.Raft.Types.{
  Entry, Configuration, Snapshot, Message, Role, follower, leader, Error, apply_failure,
  entry_command, entry_config, append_entries, install_snapshot,
}
use rivet_db.Raft.Membership.{normalize, members, voter, has_quorum, decode, validate_transition}
use rivet_db.Raft.State.{
  Node, Outcome, done, fail, panic, M, continue, ◌>>=◌, ◌>>◌, pure, crash, gets, modify, assert,
  inc, term, IdMap, has_id, put_id, lookup_in, applied, machine_call, next_outcome, stop_with,
  persist, become_follower,
}
use rivet_db.Raft.Log.{last_index, entry_at, term_at, entries_from}

abbrev pub is_leader : Role → Bool
is_leader leader = true
is_leader _ = false

abbrev pub is_follower : Role → Bool
is_follower follower = true
is_follower _ = false

-- The two loops of `installConfiguration` over a leader's indexes.
abbrev pub add_missing : List ℕ → ℕ → ℕ → IdMap ℕ → IdMap ℕ → IdMap ℕ × IdMap ℕ
add_missing [] next known ns ms = (ns, ms)
add_missing (p ∷ ps) next known ns ms =
    if has_id ns p
    then add_missing ps next known ns ms
    else add_missing ps next known (put_id p next ns) (put_id p known ms)

-- Keeps a key unless it is one of the next indexes that names no peer.
abbrev pub drop_stale : List ℕ → IdMap ℕ → IdMap ℕ → IdMap ℕ
drop_stale peers ns [] = []
drop_stale peers ns ((id, v) ∷ m) =
    let rest = drop_stale peers ns m in
    if has_id ns id && not (contains peers id) then rest else (id, v) ∷ rest

abbrev pub track : Option (IdMap ℕ) → Option (IdMap ℕ) → Node → Outcome (Unit {0}) × Node
track (some ns) (some ms) n =
    let (ns', ms') =
      add_missing n.peers (inc (last_index n.persistent)) n.persistent.snapshot.index ns ms in
    (
      done tt,
      record n {
        next_index = some (drop_stale n.peers ns' ns');
        match_index = some (drop_stale n.peers ns' ms');
      },
    )
track _ _ n = (panic, n)

unfoldable pub sync_indexes : M (Unit {0})
sync_indexes n = if is_leader n.role then track n.next_index n.match_index n else (done tt, n)

abbrev pub configure : Configuration → Node → Node
configure next n = record n { configuration = normalize next; peers = members (normalize next) }

-- A node that no longer votes holds no office.
abbrev pub step_down : Node → Node
step_down n =
    if not (voter n.configuration n.id) && not (is_follower n.role) then become_follower 0 n else n

unfoldable pub install_configuration : Configuration → M (Unit {0})
install_configuration next = do modify (configure next); sync_indexes; modify step_down

abbrev pub call_machine : Entry → M (Unit {0})
call_machine e n =
    let n' = record n { machine = machine_call (applied e) n.machine } in
    if next_outcome n.machine.outcomes then (done tt, n') else stop_with apply_failure n'

abbrev pub set_config : Configuration → Node → Node
set_config next n = record n { persistent = record n.persistent { config = next } }

abbrev pub install_durably : Configuration → M (Unit {0})
install_durably next = do install_configuration next; modify (set_config next); persist

-- A configuration newer than the installed one must be an allowed step, and becomes durable.
abbrev pub adopt : Configuration → M (Unit {0})
adopt next n =
    if not (ltb n.configuration.version next.version)
    then (done tt, n)
    else elim (validate_transition n.configuration next) [
      | err e ↦ stop_with apply_failure n
      | ok u ↦ install_durably next n
    ]

abbrev pub apply_config : Result Error Configuration → M (Unit {0})
apply_config (ok next) = adopt next
apply_config (err e) = stop_with apply_failure

unfoldable pub apply_entry : Entry → M (Unit {0})
apply_entry e =
    if e.kind == entry_command
    then call_machine e
    else if e.kind == entry_config
    then apply_config (decode e.command)
    else pure tt

abbrev pub fetch : Outcome Entry → M Entry
fetch (done e) = pure e
fetch (fail x) = stop_with apply_failure
fetch panic = crash

abbrev pub fetch_at : ℕ → M Entry
fetch_at index n = fetch (entry_at index n.persistent) n

abbrev pub set_applied : ℕ → Node → Node
set_applied index n = record n { last_applied = index }

unfoldable pub apply_next : M (Unit {0})
apply_next = do
  index ← gets λ n. inc n.last_applied
  entry ← fetch_at index
  apply_entry entry
  modify (set_applied index)

-- Each round raises `last_applied` by one and leaves the commit index, so the difference of the two
-- is the number of rounds.
unfoldable pub apply_rounds : ℕ → M (Unit {0})
apply_rounds zero n = (done tt, n)
apply_rounds (suc fuel) n =
    if not (ltb n.last_applied n.commit_index)
    then (done tt, n)
    else (apply_next >>= λ _ n'. apply_rounds fuel n') n

abbrev pub unapplied : Node → ℕ
unapplied n = n.commit_index - n.last_applied

abbrev pub applied_within : Node → Bool
applied_within n = leb n.last_applied n.commit_index

unfoldable pub apply_committed : M (Unit {0})
unfolding apply_rounds
apply_committed = do
  fuel ← gets unapplied
  apply_rounds fuel
  within ← gets applied_within
  assert within

-- The loop of `advanceCommit` down from `index`: the first entry of the current term that a quorum
-- has acknowledged.
abbrev pub acknowledged : Node → ℕ → ℕ → Bool
acknowledged n index peer = leb index (lookup_in 0 n.match_index peer)

unfoldable pub find_commit : ℕ → ℕ → Node → Outcome (Option ℕ)
find_commit zero index n = done none
find_commit (suc fuel) index n =
    let rest = find_commit fuel (index - 1) n in
    if not (ltb n.commit_index index) then done none else elim (term_at index n.persistent) [
      | fail e ↦ fail e
      | panic ↦ panic
      | done t ↦
          if not (t == term n)
          then rest
          else if has_quorum n.configuration (acknowledged n index)
          then done (some index)
          else rest
    ]

abbrev pub set_commit : ℕ → Node → Node
set_commit index n = record n { commit_index = index }

abbrev pub commit_to : Option ℕ → M (Unit {0})
commit_to none = pure tt
commit_to (some index) = do modify (set_commit index); apply_committed

abbrev pub next_commit : Node → Outcome (Option ℕ)
next_commit n = find_commit (last_index n.persistent - n.commit_index) (last_index n.persistent) n

abbrev pub commit_next : M (Unit {0})
commit_next n = continue (next_commit n) commit_to n

unfoldable pub advance_commit : M (Unit {0})
unfolding find_commit
advance_commit n = if not (is_leader n.role) then (done tt, n) else commit_next n

abbrev pub no_configuration : Configuration
no_configuration = record { version = 0; old_voters = []; new_voters = []; learners = [] }

abbrev pub no_snapshot : Snapshot
no_snapshot = record { index = 0; term = 0; payload = []; config = no_configuration }

-- A message with its header, every other field zero.
abbrev pub blank : ℕ → ℕ → ℕ → ℕ → Message
blank kind sender target t = record {
  kind = kind;
  sender = sender;
  target = target;
  term = t;
  candidate_last_index = 0;
  candidate_last_term = 0;
  vote_granted = false;
  prev_log_index = 0;
  prev_log_term = 0;
  entries = [];
  leader_commit = 0;
  success = false;
  match_index = 0;
  reject_hint = 0;
  snapshot = no_snapshot;
}

abbrev pub append_message : Node → ℕ → ℕ → Outcome ℕ → Outcome (List Entry) → Outcome Message
append_message n peer previous (done t) (done es) =
    done (record (blank append_entries n.id peer (term n)) {
      prev_log_index = previous;
      prev_log_term = t;
      entries = es;
      leader_commit = n.commit_index;
    })
append_message n peer previous _ _ = panic

abbrev pub snapshot_message : ℕ → Node → Message
snapshot_message peer n = record (blank install_snapshot n.id peer (term n)) {
  snapshot = n.persistent.snapshot;
  leader_commit = n.commit_index;
}

abbrev pub suffix_message : ℕ → ℕ → Node → Outcome Message
suffix_message next peer n =
    append_message n peer (next - 1) (term_at (next - 1) n.persistent)
      (entries_from next n.persistent)

unfoldable pub replication_message : ℕ → Node → Outcome Message
replication_message peer n =
    let next = lookup_in 0 n.next_index peer in
    if leb next n.persistent.snapshot.index
    then done (snapshot_message peer n)
    else suffix_message next peer n

abbrev pub cons_message : Outcome Message → Outcome (List Message) → Outcome (List Message)
cons_message (done m) (done ms) = done (m ∷ ms)
cons_message _ _ = panic

abbrev pub messages_to : List ℕ → Node → Outcome (List Message)
messages_to [] n = done []
messages_to (p ∷ ps) n =
    let rest = messages_to ps n in
    if p == n.id then rest else cons_message (replication_message p n) rest

unfoldable pub replication_messages : Node → Outcome (List Message)
replication_messages n = messages_to n.peers n
