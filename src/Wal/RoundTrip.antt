-- ===== src/Wal/RoundTrip.antt =====
-- src/WalFile.cpp: reading the records of the log that were written.
use hs.Prelude.{ℕ, ◌<◌, ◌≡◌, true, some, List, ◌++◌, length}
use hs.Data.Writer.{empty}
use hs.Data.Scan.{Scan, Good, Scans-read}
use hs.Wal.{FragInfo, CommitInfo}
use hs.Wal.Extents.{write_commit_info, read_commit_info, CommitFits, commit_info_scanned}
use hs.Wal.Frag.{write_frag_info, read_frag_info, FragFits, LinkedFit, frag_info_scanned}

-- From a reader that holds what `serializeFragInfo` wrote of an item of the log, with its conditions if
-- it has any and the items that it is linked to, which have none, `deserializeFragInfo` gives them
-- back, with all its getters succeeding, and the reader then holds what follows. All strings have
-- up to 10 MiB, all numbers and the lengths of all lists 64 bits, no getter has failed before, and the
-- fuel is above the number of linked items.
pub read_frag_info-write_frag_info :
    (fuel junk : ℕ) (info : FragInfo) (others : List FragInfo) (s : Scan) (rest : List ℕ)
    → length others < fuel
    → FragFits true info
    → LinkedFit others
    → Good s ((write_frag_info info others empty).bytes ++ rest)
    → (s' : Scan) × (read_frag_info fuel junk true s ≡ some ((info, others), s')) × Good s' rest
read_frag_info-write_frag_info fuel junk info others s rest enough fits links =
    Scans-read (write_frag_info info others) (read_frag_info fuel junk true) (info, others) s rest
      (frag_info_scanned fuel junk true info others enough fits links)

-- If the information of a commit fits the records, `deserializeCommitInfo` gives it back, with all
-- its getters succeeding, from a reader that holds what `serializeCommitInfo` wrote, and the reader
-- then holds what follows it.
pub read_commit_info-write_commit_info :
    (junk : ℕ) (c : CommitInfo) (s : Scan) (rest : List ℕ)
    → CommitFits c
    → Good s ((write_commit_info c empty).bytes ++ rest)
    → (s' : Scan) × (read_commit_info junk s ≡ some (c, s')) × Good s' rest
read_commit_info-write_commit_info junk c s rest fits =
    Scans-read (write_commit_info c) (read_commit_info junk) c s rest
      (commit_info_scanned junk c fits)
