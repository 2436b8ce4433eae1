-- ===== src/Lib.antt =====
-- RivetDB: a model of the core of the database in internal/, and the theorems that make it correct.
--
-- The program stores ranges of keys. Each range is a Raft group (internal/raft) whose committed
-- entries are applied to an LSM engine (internal/storage); versions of a key carry hybrid logical
-- timestamps (internal/mvcc), which are also the sequence numbers of internal keys. A catalog
-- (internal/multiraft) says which range holds a key. A range's state machine
-- (internal/replicatedrange) applies transaction commands (internal/txn).
--
-- Files.
--   Prelude/*          tests, lists, results, bytes and bits that the other modules share.
--   Mvcc*              internal/mvcc/timestamp.go: NewTimestamp, Encode, DecodeTimestamp, and the
--                      clock's Observe and Now. A Timestamp is the uint64 itself; the reading of the
--                      physical clock, an int64, is an argument. A method holds the clock's mutex
--                      throughout, so it is one step on the clock's floor; Mvcc/Stream runs any
--                      sequence of such steps.
--   Storage/Key*       internal/storage/internal_key.go: the key, its order and its encoding.
--   Storage/Batch*     internal/storage/batch.go: EncodeWriteBatch and DecodeWriteBatch, with the
--                      LEB128 lengths of encoding/binary, whose ten bytes are the fuel.
--   Storage/Bloom*     internal/storage/sstable/bloom.go: the filter, its hash and its encoding.
--   Storage/Sorting    slices.SortFunc as an insertion sort by a comparison.
--   Storage/Manifest*  internal/storage/manifest: Edit is edit.go (tables, edits, their checks, the
--                      table codec), Version and Apply are version.go, Recovery is recoverManifest.
--   Storage/Wal*       internal/storage/wal: the file itself is format.go and writer.go (Append, Sync),
--                      Reader is reader.go, Recovery is recoverFromReader, Repair is RepairTail
--                      and OpenWriter over the bytes of a file. A fragment takes two rounds
--                      of Append for each byte at most; a round of Next moves the offset.
--   Storage/Compaction*  internal/storage/compaction/plan.go: Picker.Pick and Plan.Validate. The rounds
--                      of Pick run on fuel, one more than there are tables on the two levels.
--   Raft/Types         internal/raft/types.go and errors.go: the values of the protocol.
--   Raft/Persistent    validatePersistent of types.go.
--   Raft/Sort          slices.Sort and slices.Compact on node ids.
--   Raft/Membership*   internal/raft/membership.go: configurations, joint quorums, transitions.
--   Raft/State         the struct Node of internal/raft/node.go, and the monad `M` of its methods:
--                      a method takes the node and gives an outcome (a value, an error, or a panic)
--                      and the node it leaves, so an error keeps the fields that the Go code had
--                      already assigned. The Store and the StateMachine are interfaces: a node
--                      carries the outcomes that their next calls will have, and records what was
--                      saved and which calls succeeded. A
--                      save that fails leaves the old state on disk or the new one.
--   Raft/Log           lastIndex, termAt, entryAt, entriesFrom, truncateSuffix, firstIndexOfTerm.
--   Raft/Commit*       advanceCommit, applyCommitted, installConfiguration, replicationMessage(s).
--   Raft/Election      startElection, becomeLeader, advanceTerm, handleRequestVote and the answers.
--   Raft/Replicate     handleAppendEntries, handleAppendResponse, handleInstallSnapshot,
--                      handleSnapshotResponse, CreateSnapshot.
--   Raft/Node          Tick, Propose, ProposeNoOp, ProposeConfiguration, Step, TransferLeadership,
--                      NewNode.
--   Raft/State/Rules   rules for a relation between the node before a method and after it.
--   Raft/Forward*      what no method undoes: the term, a vote, the commit index, the disk.
--   Raft/Output        which messages can grant a vote.
--   Raft/Life*         a server's whole life: its calls, and its restarts over what is on disk.
--   Multiraft/Descriptor  internal/multiraft/descriptor.go: ranges and which keys they hold.
--   Multiraft/Catalog* internal/multiraft/catalog.go: NewCatalog and the lookups, sort.Search included.
--   Txn                internal/txn/types.go: the records of the transaction protocol.
--   RangeState*        internal/replicatedrange/state_machine.go: how a range applies transaction
--                      commands, over `EngineOps`, the calls it makes of the storage engine and of
--                      the intent codec; a theorem holds for every engine.
--   */Witness          runs, and the theorems at concrete inputs.
--
-- Bounds and fuel. A uint64 is a natural number, and each increment that the code makes wraps at
-- 2 ^ 64 where nothing guards it. The loop of applyCommitted runs on fuel, the number of entries
-- between lastApplied and commitIndex, and each round that goes on raises lastApplied by one. The
-- loop of advanceCommit runs on the number of indexes between the commit index and the end of the
-- log, and that of firstIndexOfTerm on the distance to the snapshot. The binary search of a lookup runs
-- on the number of ranges, which is enough since a round shrinks the interval.
-- The offsets of a log are numbers, with no bound of an int64; a write takes all that the file has
-- room for, so the loop of writeAll is one step. The checksum is CRC-32C, a bit at a time.
--
-- Not modelled. The text of errors (a joined error is named by its sentinel), String methods, the
-- nil checks of NewNode, and the failure of Store.Load. Go maps from node ids are association lists;
-- the order in which Go ranges over them does not matter where the code does so. The packages that
-- are not listed above are outside this development.
pub mod Prelude
pub mod Mvcc
pub mod Storage
pub mod Raft
pub mod Multiraft
pub mod Txn
pub mod RangeState
