-- ===== src/VersionSet.antt =====
-- src/version_set/: the files of the tree and the edits that change them.
pub mod FileMetaData
pub mod VersionEdit
pub mod Version
pub mod Builder
pub mod Compaction
pub mod Seeks
pub mod Lookup
pub mod Picking
mod Examples
mod FilesExamples
