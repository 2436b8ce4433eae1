-- ===== src/Raft.antt =====
-- internal/raft: the single-group Raft core.
pub mod Types
pub mod Sort
pub mod Membership
pub mod State
pub mod Log
pub mod Commit
pub mod Election
pub mod Replicate
pub mod Persistent
pub mod Node
pub mod Forward
pub mod Output
pub mod Life
mod Witness
