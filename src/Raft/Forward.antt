-- ===== src/Raft/Forward.antt =====
-- What no method of a node undoes, in memory or on disk: its terms, its votes, its commit index.
pub mod Basic
pub mod Commit
pub mod Election
pub mod Append
pub mod Snapshot
pub mod Method
