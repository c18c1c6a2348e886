-- ===== src/Lib.antt =====
-- HS5, an S3-compatible object store: verification library of its core.
--
-- Parts and files. All paths are from the repository's root.
--
-- - Data (src/data.h, src/data.cpp): the binary format of all records. Data.Varint holds the SQLite
--   varints (sqlite3VarintLen, sqlite3PutVarint with putVarint64, sqlite3GetVarint, whose ladder of
--   bytes is get_varint, get_1, …, get_8), Data.Memory integers in memory and the byte order,
--   Data.Writer the class CWData and Data.Reader the class CRData, one function for each method.
--   A byte buffer is a list of numbers below 256. Signed numbers, floats and pointers are bit
--   patterns. Data.Reader.Stream sees a reader as the list of the bytes that are left.
-- - Action (src/Action.h, src/Action.cpp): the actions and their names.
-- - Policy (src/Policy.h, src/Policy.cpp): statements, resourceMatch (Policy.Glob), checkAccess and
--   expandAction.
-- - Metadata (src/ContentType.cpp, src/UserMetadata.cpp, src/ObjMetadata.cpp, their headers, and the
--   flags of src/s3handler.h): Metadata.Content, Metadata.User and Metadata.Object hold the types and
--   their serialize and deserialize, on the writer and the reader of Data.
-- - Retention (src/s3handler.cpp, src/ObjMetadata.h): applyRetention, which changes the lock of an
--   object, over sequences of modifications in Retention.History.
-- - Wal (src/WalFile.cpp, src/WalFile.h, src/SingleFileStorage.h): the write-ahead log. Wal.Extents
--   holds serializeCommitInfo and the lists of extents and strings, Wal.Match serializeMatchInfo and
--   Wal.Frag serializeFragInfo, each with its deserialize function, in the style of Data.Scan, in
--   which later getters run after one that failed. Wal.Frame holds setChecksumAndSize and the search
--   for records in WalFile::read. Wal.Log holds the state of WalFile for its current file, needsWrite,
--   both functions writeData, write, sync and reset; an entry is a call of write, of the public
--   writeData or of sync. Wal.Read holds WalFile::read, a round of its loop at a time, and Wal.Open
--   the constructor. Wal.Append, Wal.Replay, Wal.Logged, Wal.Recovered and Wal.Opening put them
--   together: what is logged comes back.
-- - Key (src/s3handler.cpp, src/s3handler.h): the keys under which objects are stored, make_key,
--   extractKeyInfo, s3key_common_prefix and their order mdb_cmp_s3key. Keys use the writer and the
--   reader of Data.
-- - Parts (src/s3handler.cpp, src/s3handler.h): the identifiers of uploads and parts in keys
--   (uploadIdToStr, uploadIdFromStr, uploadIdFromStrDot) and addPartExt, which keeps the parts of an
--   upload as runs. The loop of addPartExt gives a value of the type Looped: an early return, or
--   what the loop has collected.
-- - Buckets (src/Buckets.cpp, src/Buckets.h): the cache of buckets by name and by identifier with
--   the calls that change it, as steps over which Buckets.History goes, and isValidBucketName in
--   Buckets.Names, on the text functions of Buckets.Affixes. An answer of the database (the number
--   of changed rows, whether all rules were added) and the time are arguments. An iterator of the
--   cache is the name to which it points.
-- - Auth (src/Auth.cpp, src/Auth.h): the cache of access keys, users, roles and policies, and the
--   decision on a request, which asks Policy for its policies and Buckets for the bucket of its
--   resource. Auth.Locks holds the order in which Auth and Session lock their mutexes, as steps of
--   threads.
-- - Session (src/Session.cpp, src/Session.h): the sessions, which add their keys to the cache of Auth and
--   take them out, over sequences of calls in Session.History. An iterator is the identifier of its
--   session.
-- - Freemap (src/SingleFileStorage.cpp): add_freemap_ext, which gives space of the data file back,
--   and in Freemap.Find find_freemap_ext, which looks for space to write to. The state of
--   add_freemap_ext holds the two databases of free extents, the count of free bytes, the offsets
--   freed in the transaction and the items to trim. Freemap.Db holds the interfaces of the databases,
--   Freemap.Shape the free extents as a function, Freemap.Neighbours what the two searches find,
--   Freemap.Steps the single changes, and Freemap.Merge their composition.
-- - Data.Restore pairs what a writer appends with what a reader takes off it; the round trips of the
--   records above Data are put together from its pairs.
-- - Prelude: shared names, Boolean tests, lists over native numbers, texts, bits.
--
-- Bounds and fuel. The shift loops of the varints recur on the accessibility of the number that
-- they shift. resourceMatch runs on fuel, (length resource) * (length pattern + 1) + length pattern
-- rounds: each one shortens the pattern that is left, or moves the place to go back to on in the
-- resource. deserializeFragInfo needs one round more than there are linked items. The loop over
-- records has as many rounds as the file has bytes, which is enough, as a written record has 9 bytes
-- or more. A reader is at most 100 MiB long, which CRData::set sees to, so the sums of positions in
-- the source do not wrap.
--
-- Offsets and lengths in the data file are numbers without a bound; the file is far below 2^63 bytes.
--
-- The times of objects and locks are whole seconds, as bit patterns of int64_t; an overflow of the clock's finer ticks, which
-- C++ leaves undefined, is not modelled.
--
-- Parameters: the checksum crc32c of folly is an argument, of which Wal only uses that it has 32
-- bits. pwriteFull is an argument of Wal.Log, which may fail; where it succeeds at the end of a file,
-- it appends. Whether a write of WalFile::read to the data file succeeds is an argument of Wal.Read. The
-- databases of LMDB are arguments of Freemap, as the operations that the code calls with what LMDB
-- documents of them; a call that changes a database may fail, and a search finds an entry or nothing.
--
-- The rows that refreshAuthCache reads are an argument of Auth, with the statements that the
-- constructor of a policy makes of its text, and so are the answers of the sessions; the clock is an
-- argument of Session.
--
-- Identifiers of buckets grow by 4 from 1 on and are numbers without a bound.
--
-- Not modelled: the byte order functions that nothing calls, the storage management of strings
-- (reserve, capacity), logging, what a failed call of add_freemap_ext leaves, errors of the searches
-- in LMDB, refreshBucketCache, and of the log the dirty blocks, the queue of writes to the data file
-- with its thread, and the synchronization of files. The parts of the program not named above are
-- listed with the reasons in the manifest.
mod Prelude
pub mod Data
pub mod Action
pub mod Policy
pub mod Metadata
pub mod Retention
pub mod Wal
pub mod Key
pub mod Parts
pub mod Freemap
pub mod Buckets
pub mod Auth
pub mod Session
