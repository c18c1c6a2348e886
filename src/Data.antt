-- ===== src/Data.antt =====
-- src/data.h and src/data.cpp: the binary writer `CWData`, the reader `CRData` and their varints.
pub mod Varint
pub mod Memory
pub mod Writer
pub mod Reader
pub mod Restore
pub mod Scan
mod Runs
