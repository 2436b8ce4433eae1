-- ===== src/Raft/State.antt =====
-- internal/raft/node.go: the node's fields, and the actions that its methods are built from.
-- `Store` and `StateMachine` are interfaces that other packages implement: a run is given the
-- outcomes of their calls (an ended list means success), and records what was saved and applied.
pub mod Rules
use rivet_db.Prelude.{
  ℕ, suc, ◌+◌, ◌-◌, ◌%◌, ◌^◌, Bool, true, false, Option, none, some, List, [], ◌∷◌, ◌++◌, ltb, ◌==◌,
  ◌||◌, if◌then◌else◌, Result, ok, err,
}
use rivet_db.Raft.Types.{
  Entry, HardState, Configuration, Snapshot, PersistentState, Role, follower, Message, Error,
  persistence,
}

-- Go's map from node ids; the first binding of a key is the one that counts.
abbrev pub IdMap : Type 0 → Type 0
IdMap V = List (ℕ × V)

abbrev pub get_id : {V : Type 0} → V → IdMap V → ℕ → V
get_id zero_value [] id = zero_value
get_id zero_value ((j, v) ∷ m) id = if j == id then v else get_id zero_value m id

abbrev pub has_id : {V : Type 0} → IdMap V → ℕ → Bool
has_id [] id = false
has_id ((j, v) ∷ m) id = if j == id then true else has_id m id

abbrev pub put_id : {V : Type 0} → ℕ → V → IdMap V → IdMap V
put_id id v m = (id, v) ∷ m

abbrev pub remove_id : {V : Type 0} → ℕ → IdMap V → IdMap V
remove_id id [] = []
remove_id id ((j, v) ∷ m) = let rest = remove_id id m in if j == id then rest else (j, v) ∷ rest

-- `outcomes` says which of the next saves succeed, `published` which of those that fail do so with the
-- new state in place already.
pub record Store : Type 0 where
  pub disk : PersistentState
  pub outcomes : List Bool
  pub published : List Bool

-- The calls of the state machine that succeeded, latest first.
pub data Call : Type 0 where
  applied : Entry → Call
  restored : List ℕ → Call
  imaged : List ℕ → Call

pub record Machine : Type 0 where
  pub calls : List Call
  pub outcomes : List Bool
  pub images : List (List ℕ)

pub record Node : Type 0 where
  pub id : ℕ
  pub peers : List ℕ
  pub configuration : Configuration
  pub election_min : ℕ
  pub election_max : ℕ
  pub heartbeat_interval : ℕ
  pub draws : List ℕ
  pub store : Store
  pub machine : Machine
  pub persistent : PersistentState
  pub role : Role
  pub leader_id : ℕ
  pub commit_index : ℕ
  pub last_applied : ℕ
  pub election_elapsed : ℕ
  pub election_timeout : ℕ
  pub heartbeat_elapsed : ℕ
  pub transfer_elapsed : ℕ
  pub transferring : Bool
  pub votes : Option (IdMap Bool)
  pub next_index : Option (IdMap ℕ)
  pub match_index : Option (IdMap ℕ)
  pub stopped : Bool
  pub fatal : Option Error

-- A method returns, returns an error, or panics: a failed invariant, an index out of range, a write
-- to a nil map.
pub data Outcome (A : Type 0) : Type 0 where
  done : A → Outcome A
  fail : Error → Outcome A
  panic : Outcome A

abbrev pub M : Type 0 → Type 0
M A = Node → Outcome A × Node

abbrev pub continue : {A B : Type 0} → Outcome A → (A → M B) → M B
continue (done a) f n = f a n
continue (fail e) f n = (fail e, n)
continue panic f n = (panic, n)

infixl 5 ◌>>=◌ ◌>>◌
abbrev pub ◌>>=◌ : {A B : Type 0} → M A → (A → M B) → M B
◌>>=◌ m f n = let (r, n') = m n in continue r f n'

abbrev pub ◌>>◌ : {B : Type 0} → M (Unit {0}) → M B → M B
m >> k = m >>= λ _. k

abbrev pub pure : {A : Type 0} → A → M A
pure a n = (done a, n)

abbrev pub raise : {A : Type 0} → Error → M A
raise e n = (fail e, n)

abbrev pub crash : {A : Type 0} → M A
crash n = (panic, n)

abbrev pub read : {A : Type 0} → (Node → Outcome A) → M A
read f n = (f n, n)

abbrev pub gets : {A : Type 0} → (Node → A) → M A
gets f n = (done (f n), n)

abbrev pub modify : (Node → Node) → M (Unit {0})
modify f n = (done tt, f n)

-- `invariant.Assert` and `invariant.Failf`
abbrev pub assert : Bool → M (Unit {0})
assert true n = (done tt, n)
assert false n = (panic, n)

abbrev pub when : Bool → M (Unit {0}) → M (Unit {0})
when true m = m
when false m = pure tt

-- x + 1 on a uint64
abbrev pub inc : ℕ → ℕ
inc x = (x + 1) % 2 ^ 64

abbrev pub term : Node → ℕ
term n = n.persistent.hard_state.term

-- The next outcome of an interface call.
abbrev pub next_outcome : List Bool → Bool
next_outcome [] = true
next_outcome (b ∷ bs) = b

abbrev pub later_outcomes : List Bool → List Bool
later_outcomes [] = []
later_outcomes (b ∷ bs) = bs

-- `Store.Save`: a failed call leaves what was durable before, or the new state, where it failed after
-- it had put that in place.
abbrev pub store_save : PersistentState → Store → Store
store_save s st = record {
  disk = if next_outcome st.outcomes || next_outcome st.published then s else st.disk;
  outcomes = later_outcomes st.outcomes;
  published = later_outcomes st.published;
}

-- `Node.fail`
unfoldable pub stop_with : {A : Type 0} → Error → M A
stop_with e n = (fail e, record n { fatal = some e; stopped = true })

unfoldable pub save : PersistentState → M (Unit {0})
unfolding stop_with
save s n =
    let n' = record n { store = store_save s n.store } in
    if next_outcome n.store.outcomes then (done tt, n') else stop_with persistence n'

unfoldable pub persist : M (Unit {0})
unfolding save
persist n = save n.persistent n

-- One call of the state machine, with what to note if it succeeds.
unfoldable pub machine_call : Call → Machine → Machine
machine_call c m = record m {
  calls = if next_outcome m.outcomes then c ∷ m.calls else m.calls;
  outcomes = later_outcomes m.outcomes;
}

-- `random.Uint64N(span)`: a draw below `span`.
abbrev pub draw : ℕ → List ℕ → ℕ
draw span [] = 0
draw span (d ∷ ds) = d % span

abbrev pub later_draws : List ℕ → List ℕ
later_draws [] = []
later_draws (d ∷ ds) = ds

unfoldable pub reset_election_timer : Node → Node
reset_election_timer n =
    let span = n.election_max - n.election_min + 1 in
    if ltb 1 span
    then record n {
      election_elapsed = 0;
      election_timeout = n.election_min + draw span n.draws;
      draws = later_draws n.draws;
    }
    else record n { election_elapsed = 0; election_timeout = n.election_min }

unfoldable pub become_follower : ℕ → Node → Node
unfolding reset_election_timer
become_follower leader n = reset_election_timer (record n {
  role = follower;
  leader_id = leader;
  votes = none;
  next_index = none;
  match_index = none;
  heartbeat_elapsed = 0;
  transferring = false;
  transfer_elapsed = 0;
})

-- Reading a nil map gives the zero value; writing one panics.
abbrev pub lookup_in : {V : Type 0} → V → Option (IdMap V) → ℕ → V
lookup_in z none id = z
lookup_in z (some m) id = get_id z m id

unfoldable pub set_match_index : ℕ → ℕ → M (Unit {0})
set_match_index peer v n = elim n.match_index [
  | none ↦ (panic, n)
  | some m ↦ (done tt, record n { match_index = some (put_id peer v m) })
]

unfoldable pub set_next_index : ℕ → ℕ → M (Unit {0})
set_next_index peer v n = elim n.next_index [
  | none ↦ (panic, n)
  | some m ↦ (done tt, record n { next_index = some (put_id peer v m) })
]

unfoldable pub set_vote : ℕ → M (Unit {0})
set_vote peer n = elim n.votes [
  | none ↦ (panic, n)
  | some m ↦ (done tt, record n { votes = some (put_id peer true m) })
]

unfoldable pub usable : M (Unit {0})
usable n = elim n.fatal [
  | some e ↦ (fail Error.stopped, n)
  | none ↦ if n.stopped then (fail Error.stopped, n) else (done tt, n)
]

abbrev pub stop : Node → Node
stop n = record n { stopped = true }
