-- ===== src/Storage/Manifest.antt =====
-- internal/storage/manifest: the edits that change the set of live tables, and the versions they make.
pub mod Edit
pub mod Recovery
pub mod Sample
mod Witness
pub mod TableCodec
pub mod TableFields
pub mod Apply
pub mod Version
