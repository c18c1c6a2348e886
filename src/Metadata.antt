-- ===== src/Metadata.antt =====
-- The metadata of objects: src/ContentType.cpp, src/UserMetadata.cpp and src/ObjMetadata.cpp with
-- their headers. A C++ `int` or `int64_t` is its bit pattern.
pub mod Content
pub mod User
pub mod Object
pub mod RoundTrip
mod Runs
