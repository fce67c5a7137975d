-- ===== src/Log/Stored.antt =====
-- How the directory of a log lies beside its segments.
use proglog.Base.{◌≡◌, All}
use proglog.Segment.Files.{stems, HasFiles}
use proglog.Log.{Log, sort}
use proglog.Log.Saved.{IsMapped, Rising, bases}
use proglog.Log.Reopened.{doubled}

-- The directory has the two files of each segment and no others, no two segments have one base, and
-- each index is mapped to the size that the configuration gives.
pub record Stored (l : Log) : Type 0 where
  pub names : sort (stems l.disk.files) ≡ doubled (bases l.segments)
  pub present : All (HasFiles l.disk.files) (bases l.segments)
  pub rising : Rising (bases l.segments)
  pub mapped : All IsMapped l.segments
