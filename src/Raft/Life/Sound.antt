-- ===== src/Raft/Life/Sound.antt =====
-- One step of a life: the disk goes forward, and a vote sent is on the disk that it leaves.
use rivet_db.Prelude.{
  ℕ, ◌≡◌, ap, subst, refl, Bool, true, false, not, List, [], All, arith, if◌then◌else◌, ◌==◌,
  Result, ok, err, Bool-cases, inl, inr,
}
use rivet_db.Raft.Types.{
  Entry, Configuration, PersistentState, Message, Error, entry_command, entry_config,
  invalid_config, invalid_state,
}
use rivet_db.Raft.Membership.{encode, validate_transition, normalize}
use rivet_db.Raft.State.{
  Node, Store, Outcome, done, fail, panic, M, continue, ◌>>=◌, pure, read, modify, usable,
  reset_election_timer, next_outcome, stop_with, machine_call, restored,
}
use rivet_db.Raft.Persistent.{validate_persistent, passes}
use rivet_db.Raft.Commit.{replication_messages}
use rivet_db.Raft.Election.{record_own_entry, no_op_entry}
use rivet_db.Raft.Node.{
  age_transfer, clear_beat, count_wait, send_beat, tick, proposed, leading, make_entry,
  propose_encoded, propose_allowed, propose_next, propose_configuration, propose_command, propose,
  propose_nothing, propose_no_op, step, transfer_leadership, Config, start, new_node, initial_of,
  fresh, acceptable, trusted_vote, validate_config,
}
use rivet_db.Raft.Forward.Basic.{
  Forward, HardLe, HardLe-refl, DiskBehind, Durable, reset_election_timer_quiet,
}
use rivet_db.Raft.Forward.Method.{
  tick-Forward, propose-Forward, propose_no_op-Forward, propose_configuration-Forward,
  transfer_leadership-Forward, step-Forward,
}
use rivet_db.Raft.Forward.Snapshot.{create_snapshot-Forward}
use rivet_db.Raft.Output.{
  Each, Ungranting, Ungranting-bind, replication_messages-Each, start_election-Ungranting,
}
use rivet_db.Raft.Life.{
  sent, messages_of, Step, GenuineStep, ticks, receives, proposes, nudges, configures, transfers,
  compacts, stops, restarts,
}
use rivet_db.Raft.Life.Granted.{Marked, AllMarked, Each-AllMarked, step-AllMarked}

send_beat-Ungranting : Ungranting send_beat
send_beat-Ungranting =
    Ungranting-bind (modify clear_beat) (λ _. read replication_messages)
      λ _. record { at = replication_messages-Each }

tick-Ungranting : Ungranting tick
unfolding tick
tick-Ungranting = Ungranting-bind usable _ λ _. record {
  at = λ n. ground (
    arith,
    send_beat-Ungranting.at (age_transfer n),
    start_election-Ungranting.at (count_wait n),
  );
}

transfer_leadership-Ungranting : (id : ℕ) → Ungranting (transfer_leadership id)
unfolding transfer_leadership
transfer_leadership-Ungranting id = Ungranting-bind usable _ λ _. record { at = λ n. ground arith }

-- The same for the methods that also return an index.
record Quiet (m : M (ℕ × List Message)) : Type 0 where
  at : (n : Node) → Each (messages_of (m n).0)

Quiet-continue :
    {A : Type 0} (r : Outcome A) (f : A → M (ℕ × List Message)) (n : Node)
    → ((a : A) → Quiet (f a))
    → Each (messages_of (continue r f n).0)
Quiet-continue (done a) f n h = (h a).at n
Quiet-continue (fail e) f n h = tt
Quiet-continue panic f n h = tt

Quiet-bind :
    {A : Type 0} (m : M A) (f : A → M (ℕ × List Message))
    → ((a : A) → Quiet (f a))
    → Quiet (m >>= f)
Quiet-bind m f h = record { at = λ n. Quiet-continue (m n).0 f (m n).1 h }

with_index :
    (i : ℕ) (r : Outcome (List Message)) (n : Node)
    → Each r
    → Each (messages_of (continue r (λ ms. pure (i, ms)) n).0)
with_index i (done ms) n h = h
with_index i (fail e) n h = tt
with_index i panic n h = tt

proposed-Quiet : (e : Entry) → Quiet (proposed e)
proposed-Quiet e = Quiet-bind (record_own_entry e) _ λ _. record {
  at = λ n. with_index e.index (replication_messages n) n (replication_messages-Each n);
}

leading-Quiet : (m : M (ℕ × List Message)) → Quiet m → Quiet (leading m)
leading-Quiet m h = record { at = λ n. ground (arith, h.at n) }

propose-Quiet : (c : List ℕ) → Quiet (propose c)
unfolding propose
propose-Quiet c = Quiet-bind usable _ λ _.
    leading-Quiet (propose_command c)
      (record { at = λ n. ground (arith, (proposed-Quiet (make_entry entry_command c n)).at n) })

propose_no_op-Quiet : Quiet propose_no_op
unfolding propose_no_op
propose_no_op-Quiet = Quiet-bind usable _ λ _.
    leading-Quiet propose_nothing
      (record { at = λ n. ground (arith, (proposed-Quiet (no_op_entry n)).at n) })

propose_encoded-Quiet : (r : Result Error (List ℕ)) → Quiet (propose_encoded r)
propose_encoded-Quiet (ok bytes) = record {
  at = λ n. (proposed-Quiet (make_entry entry_config bytes n)).at n;
}
propose_encoded-Quiet (err e) = record { at = λ n. tt }

propose_allowed-Quiet :
    (next : Configuration) (r : Result Error (Unit {0})) → Quiet (propose_allowed next r)
propose_allowed-Quiet next (ok u) = record {
  at = λ n. ground (arith, (propose_encoded-Quiet (encode next)).at n);
}
propose_allowed-Quiet next (err e) = record { at = λ n. tt }

propose_configuration-Quiet : (c : Configuration) → Quiet (propose_configuration c)
unfolding propose_configuration
propose_configuration-Quiet c = Quiet-bind usable _ λ _.
    leading-Quiet (propose_next c)
      (record { at = λ n. (propose_allowed-Quiet c (validate_transition n.configuration c)).at n })

-- A node starts from what is on its disk.
abbrev Loaded : PersistentState → Store → Outcome Node → Type 0
Loaded s st (done n) = (n.persistent.hard_state ≡ s.hard_state) × (n.store.disk ≡ st.disk)
Loaded s st (fail e) = Unit
Loaded s st panic = Unit

Loaded-reset : (n : Node) → Loaded n.persistent n.store (done (reset_election_timer n))
Loaded-reset n =
    let (i, p, s, f, c) = reset_election_timer_quiet n in
    (ap (λ (t : PersistentState). t.hard_state) p, ap (λ (t : Store). t.disk) s)

record Loads (s : PersistentState) (st : Store) (r : Outcome Node) : Type 0 where
  loaded : Loaded s st r

Loads-if :
    (s : PersistentState) (st : Store) (b : Bool) (e : Error) (r : Outcome Node)
    → Loads s st r
    → Loads s st (if b then fail e else r)
Loads-if s st true e r h = record { loaded = tt }
Loads-if s st false e r h = h

abbrev restored_node : Node → Node
restored_node n = record n {
  machine = machine_call (restored n.persistent.snapshot.payload) n.machine;
}

Loaded-start : (n : Node) → Loaded n.persistent n.store (start n)
unfolding stop_with
Loaded-start n = elim (Bool-cases (n.persistent.snapshot.index == 0)) [
  | inl fresh ↦ rw fresh (Loaded-reset n)
  | inr kept ↦ rw kept (elim (Bool-cases (next_outcome n.machine.outcomes)) [
    | inl good ↦ rw good (Loaded-reset (restored_node n))
    | inr bad ↦ rw bad tt
  ])
]

new_node-Loads : (c : Config) → Loads c.store.disk c.store (new_node c)
unfolding new_node
new_node-Loads c =
    let s = c.store.disk in
    let initial = normalize (initial_of c s) in
    Loads-if s c.store (not (validate_config c)) invalid_config _ (
      Loads-if s c.store (not (passes (validate_persistent s))) invalid_state _ (
        Loads-if s c.store (not (acceptable c s initial)) invalid_config _ (
          Loads-if s c.store (not (trusted_vote s initial)) invalid_state _
            (record { loaded = Loaded-start (fresh c s initial) }))))

-- The disk is not ahead of memory, nor behind it while the node runs.
pub record Sound (n : Node) : Type 0 where
  pub behind : DiskBehind n
  pub durable : Durable n

abbrev pub DiskLe : Node → Node → Type 0
DiskLe a b = HardLe a.store.disk.hard_state b.store.disk.hard_state

pub record Sequel (a b : Node) (ms : List Message) : Type 0 where
  pub sound : Sound b
  pub disk : DiskLe a b
  pub marked : All (Marked b) ms

sent-Marked : (r : Outcome (List Message)) (n : Node) → AllMarked r n → All (Marked n) (sent r)
sent-Marked (done ms) n h = h
sent-Marked (fail e) n h = tt
sent-Marked panic n h = tt

Forward-Sequel :
    (a b : Node) (ms : List Message) → Forward a b → Sound a → All (Marked b) ms → Sequel a b ms
Forward-Sequel a b ms f s h =
    let (d, l) = f.advance.disk s.behind in
    record { sound = record { behind = d; durable = f.durable s.durable }; disk = l; marked = h }

quiet-Sequel :
    (a b : Node) (r : Outcome (List Message)) → Forward a b → Sound a → Each r → Sequel a b (sent r)
quiet-Sequel a b r f s h = Forward-Sequel a b (sent r) f s (sent-Marked r b (Each-AllMarked r b h))

restart-Sequel :
    (n : Node) (c : Config) (next : Node)
    → c.store.disk ≡ n.store.disk
    → new_node c ≡ done next
    → Sequel n next []
restart-Sequel n c next d e =
    let (p, s) = subst (Loaded c.store.disk c.store) e (new_node-Loads c).loaded in
    record {
      sound = record { behind = rw (p, s) (HardLe-refl _); durable = λ _. rw (p, s) refl };
      disk = rw (s, d) (HardLe-refl _);
      marked = tt;
    }

pub Step-Sequel :
    {a b : Node} {ms : List Message} (step : Step a b ms)
    → GenuineStep step
    → Sound a
    → Sequel a b ms
Step-Sequel ticks g s = quiet-Sequel _ _ _ (tick-Forward.at _) s (tick-Ungranting.at _)
Step-Sequel {a = a} (receives m) genuine s =
    Forward-Sequel _ _ _ ((step-Forward m genuine).at a) s
      (sent-Marked (step m a).0 (step m a).1 (step-AllMarked m a s.durable))
Step-Sequel {a = a} (proposes c) g s =
    quiet-Sequel _ _ _ ((propose-Forward c).at a) s ((propose-Quiet c).at a)
Step-Sequel {a = a} nudges g s =
    quiet-Sequel _ _ _ (propose_no_op-Forward.at a) s (propose_no_op-Quiet.at a)
Step-Sequel {a = a} (configures c) g s =
    quiet-Sequel _ _ _ ((propose_configuration-Forward c).at a) s
      ((propose_configuration-Quiet c).at a)
Step-Sequel {a = a} (transfers id) g s =
    quiet-Sequel _ _ _ ((transfer_leadership-Forward id).at a) s
      ((transfer_leadership-Ungranting id).at a)
Step-Sequel {a = a} compacts g s = Forward-Sequel _ _ [] (create_snapshot-Forward.at a) s tt
Step-Sequel stops g s = record {
  sound = record { behind = s.behind; durable = s.durable };
  disk = HardLe-refl _;
  marked = tt;
}
Step-Sequel {a = a} (restarts c next d e) g s = restart-Sequel a c next d e
