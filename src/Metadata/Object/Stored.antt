-- ===== src/Metadata/Object/Stored.antt =====
-- Metadata as the objects' records hold it: first written by a new writer, then read.
use hs.Prelude.{ℕ, ◌≡◌, some, List, ◌++◌}
use hs.Data.Writer.{empty}
use hs.Data.Reader.{CrData}
use hs.Data.Reader.Stream.{Holds}
use hs.Data.Restore.{Restores-read}
use hs.Metadata.Object.{ObjMetadata, fresh, metadata_flags, write_metadata, read_metadata}
use hs.Metadata.Object.RoundTrip.{AllFit, write_metadata-Restores}

-- If every part of some metadata fits its encoding, then `deserialize`, called on a new object with
-- the flags of that metadata and on a reader that holds what `serialize` wrote, gives the metadata
-- back, and the reader then holds what follows it.
pub read_metadata-write_metadata :
    (m : ObjMetadata) (r : CrData) (rest : List ℕ)
    → AllFit m
    → Holds r ((write_metadata m empty).bytes ++ rest)
    → (r' : CrData) × (read_metadata fresh (metadata_flags m) r ≡ (some m, r')) × Holds r' rest
read_metadata-write_metadata m r rest fit =
    Restores-read (write_metadata m) (read_metadata fresh (metadata_flags m)) m r rest
      (write_metadata-Restores m fit)
