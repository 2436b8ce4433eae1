-- ===== src/Raft/Types.antt =====
-- internal/raft/types.go: the values of the protocol. Roles are an enum; entry and message kinds are
-- the uint8 that arrives, since the code validates them. A clone of a value is the value.
use rivet_db.Prelude.{ℕ, ◌/◌, ◌+◌, ◌*◌, ◌^◌, Bool, List, leb, ◌&&◌, ◌||◌, ◌==◌, if◌then◌else◌}

abbrev pub max_command_bytes : ℕ
max_command_bytes = 16 * 2 ^ 20

pub data Role : Type 0 where
  follower candidate leader : Role

abbrev pub entry_no_op : ℕ
entry_no_op = 1

abbrev pub entry_command : ℕ
entry_command = 2

abbrev pub entry_config : ℕ
entry_config = 3

pub record Entry : Type 0 where
  pub index : ℕ
  pub term : ℕ
  pub kind : ℕ
  pub command : List ℕ

pub record HardState : Type 0 where
  pub term : ℕ
  pub voted_for : ℕ

pub record Configuration : Type 0 where
  pub version : ℕ
  pub old_voters : List ℕ
  pub new_voters : List ℕ
  pub learners : List ℕ

pub record Snapshot : Type 0 where
  pub index : ℕ
  pub term : ℕ
  pub payload : List ℕ
  pub config : Configuration

pub record PersistentState : Type 0 where
  pub hard_state : HardState
  pub snapshot : Snapshot
  pub config : Configuration
  pub entries : List Entry

abbrev pub request_vote : ℕ
request_vote = 1

abbrev pub request_vote_response : ℕ
request_vote_response = 2

abbrev pub append_entries : ℕ
append_entries = 3

abbrev pub append_entries_response : ℕ
append_entries_response = 4

abbrev pub install_snapshot : ℕ
install_snapshot = 5

abbrev pub install_snapshot_response : ℕ
install_snapshot_response = 6

abbrev pub timeout_now : ℕ
timeout_now = 7

pub record Message : Type 0 where
  pub kind : ℕ
  pub sender : ℕ
  pub target : ℕ
  pub term : ℕ
  pub candidate_last_index : ℕ
  pub candidate_last_term : ℕ
  pub vote_granted : Bool
  pub prev_log_index : ℕ
  pub prev_log_term : ℕ
  pub entries : List Entry
  pub leader_commit : ℕ
  pub success : Bool
  pub match_index : ℕ
  pub reject_hint : ℕ
  pub snapshot : Snapshot

-- errors.go; a joined error is named by the sentinel that the package adds.
pub data Error : Type 0 where
  invalid_config invalid_message invalid_state not_leader stopped persistence apply_failure : Error
  compacted unavailable resource_limit config_transition transfer_in_progress : Error

-- `Quorum`: the argument is a slice's length, never negative.
abbrev pub quorum : ℕ → ℕ
quorum nodes = if nodes == 0 then 0 else nodes / 2 + 1

abbrev pub valid_entry_type : ℕ → Bool
valid_entry_type kind = kind == entry_no_op || kind == entry_command || kind == entry_config

abbrev pub valid_message_type : ℕ → Bool
valid_message_type kind = leb request_vote kind && leb kind timeout_now
