-- ===== src/Raft/Life.antt =====
-- internal/raft/node.go: the life of one server, as the calls that a runtime makes of its node, and
-- the restarts between them: `NewNode` over the disk that the earlier node left.
pub mod Granted
pub mod Sound
pub mod Votes
use rivet_db.Prelude.{ℕ, ◌≡◌, List, [], ◌++◌}
use rivet_db.Raft.Types.{Configuration, Message}
use rivet_db.Raft.State.{Node, Outcome, done, fail, panic, stop}
use rivet_db.Raft.Replicate.{create_snapshot}
use rivet_db.Raft.Node.{
  Config, new_node, tick, step, propose, propose_no_op, propose_configuration, transfer_leadership,
}
use rivet_db.Raft.Forward.Method.{Genuine}

-- The messages that a method returns for its caller to send.
abbrev pub sent : Outcome (List Message) → List Message
sent (done ms) = ms
sent (fail e) = []
sent panic = []

abbrev pub messages_of : Outcome (ℕ × List Message) → Outcome (List Message)
messages_of (done r) = done r.1
messages_of (fail e) = fail e
messages_of panic = panic

-- One call, or a restart: the node after it, and what it gives out to be sent.
pub data Step (n : Node) : Node → List Message → Type 0 where
  ticks : Step n (tick n).1 (sent (tick n).0)
  receives : (m : Message) → Step n (step m n).1 (sent (step m n).0)
  proposes : (c : List ℕ) → Step n (propose c n).1 (sent (messages_of (propose c n).0))
  nudges : Step n (propose_no_op n).1 (sent (messages_of (propose_no_op n).0))
  configures :
      (c : Configuration)
      → Step n (propose_configuration c n).1 (sent (messages_of (propose_configuration c n).0))
  transfers : (id : ℕ) → Step n (transfer_leadership id n).1 (sent (transfer_leadership id n).0)
  compacts : Step n (create_snapshot n).1 []
  stops : Step n (stop n) []
  restarts :
      (c : Config) (next : Node)
      → c.store.disk ≡ n.store.disk
      → new_node c ≡ done next
      → Step n next []

-- The steps from `a` to `b`, and what was sent on the way, the latest first.
pub data Life (a : Node) : Node → List Message → Type 0 where
  born : Life a a []
  then_step : {b c : Node} {ms ks : List Message} → Life a b ms → Step b c ks → Life a c (ks ++ ms)

-- Every AppendEntries message received covers the commit index that it carries.
abbrev pub GenuineStep : {a b : Node} {ms : List Message} → Step a b ms → Type 0
GenuineStep (receives m) = Genuine m
GenuineStep _ = Unit

abbrev pub AllGenuine : {a b : Node} {ms : List Message} → Life a b ms → Type 0
AllGenuine born = Unit
AllGenuine (then_step life step) = AllGenuine life × GenuineStep step
