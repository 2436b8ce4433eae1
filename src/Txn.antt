-- ===== src/Txn.antt =====
-- internal/txn/types.go: the durable values of the transaction protocol. An ID is its sixteen bytes;
-- a clone of a value is the value.
use rivet_db.Prelude.{ℕ, Bool, true, false, not, List, [], ◌∷◌, ◌&&◌, ◌==◌}
use rivet_db.Prelude.Bytes.{equal_bytes}

pub data Status : Type 0 where
  pending committed aborted : Status

abbrev pub terminal : Status → Bool
terminal pending = false
terminal committed = true
terminal aborted = true

abbrev pub same_status : Status → Status → Bool
same_status pending pending = true
same_status committed committed = true
same_status aborted aborted = true
same_status _ _ = false

pub data ParticipantStatus : Type 0 where
  prepared rejected committed aborted : ParticipantStatus

pub record Participant : Type 0 where
  pub range_id : ℕ
  pub generation : ℕ

pub record Write : Type 0 where
  pub key : List ℕ
  pub value : List ℕ
  pub delete : Bool

pub record Record : Type 0 where
  pub id : List ℕ
  pub status : Status
  pub read_time : ℕ
  pub commit_time : ℕ
  pub epoch : ℕ
  pub home : Participant
  pub participants : List Participant

-- Why a participant was rejected; Go's string is empty or the one text.
pub data Reason : Type 0 where
  no_reason newer_write : Reason

pub record ParticipantRecord : Type 0 where
  pub id : List ℕ
  pub status : ParticipantStatus
  pub read_time : ℕ
  pub commit_time : ℕ
  pub epoch : ℕ
  pub home : Participant
  pub writes : List Write
  pub reason : Reason

pub record Operation : Type 0 where
  pub id : List ℕ
  pub read_time : ℕ
  pub commit_time : ℕ
  pub epoch : ℕ
  pub home : Participant
  pub participants : List Participant
  pub writes : List Write

abbrev pub same_participant : Participant → Participant → Bool
same_participant a b = a.range_id == b.range_id && a.generation == b.generation

abbrev same_bool : Bool → Bool → Bool
same_bool true b = b
same_bool false b = not b

abbrev pub equal_writes : List Write → List Write → Bool
equal_writes [] [] = true
equal_writes [] (w ∷ ws) = false
equal_writes (v ∷ vs) [] = false
equal_writes (v ∷ vs) (w ∷ ws) =
    same_bool v.delete w.delete
    && (equal_bytes v.key w.key && (equal_bytes v.value w.value && equal_writes vs ws))

abbrev pub equal_participants : List Participant → List Participant → Bool
equal_participants [] [] = true
equal_participants [] (q ∷ qs) = false
equal_participants (p ∷ ps) [] = false
equal_participants (p ∷ ps) (q ∷ qs) = same_participant p q && equal_participants ps qs

unfoldable pub equal_record : Record → Record → Bool
equal_record a b =
    equal_bytes a.id b.id
    && (same_status a.status b.status
        && (a.read_time == b.read_time
            && (a.commit_time == b.commit_time
                && (a.epoch == b.epoch
                    && (same_participant a.home b.home
                        && equal_participants a.participants b.participants)))))
