-- ===== src/Store.antt =====
-- store/: the canonical store. A table is the list of its rows, payloads the newest first. What a
-- failing database adds to an operation is not modelled, but for a busy writer (`Store.Busy`).
pub mod Integrity
pub mod Rows
pub mod Put
pub mod Query
pub mod Reads
pub mod Busy
pub mod Numbers
pub mod Numbered
pub mod Invariant
pub mod Forward
pub mod Lineage
pub mod Archive
pub mod Fresh
