-- ===== src/Multiraft.antt =====
-- internal/multiraft: the ranges of the keyspace.
pub mod Descriptor
pub mod Catalog
mod Witness
