-- ===== src/Distributed/Bounds.antt =====
-- FirstIndex and LastIndex of Raft's log store (internal/log/distributed.go), and the store that
-- setupRaft makes.
use proglog.Base.{◌≡◌, ap, ◌∙◌, List, [], ◌++◌, arith, length}
use proglog.Base.Exec.{Result, ok}
use proglog.Api.{Libs, Reliable}
use proglog.Disk.{Disk}
use proglog.Segment.{Config}
use proglog.Segment.Create.{Works, IsSound}
use proglog.Log.{Log, new_log, default_bytes}
use proglog.Log.Bounds.{lowest-highest}
use proglog.Log.Create.{new_log-Holds}
use proglog.Distributed.LogStore.{
  RaftLog, Storable, first_index, last_index, store_logs, store_logs-Stored,
}

-- newLogStore, with the configuration that setupRaft gives it: Raft's indices start at one.
abbrev pub raft_config : Config → Config
raft_config c = record c { initial_offset = 1 }

unfoldable pub new_log_store : Libs → Disk → Config → Result (Unit {0}) × Log
new_log_store libs d c = new_log libs d (raft_config c)

module _ (libs : Libs) (reliable : Reliable libs) where
  -- A new store of Raft's log: LastIndex is zero, and after StoreLogs of entries that Marshal accepts,
  -- with the indices from one on, FirstIndex is one and LastIndex the number of entries.
  pub last_index-store_logs :
      (d : Disk) (c : Config) (es : List RaftLog)
      → Works d
      → d.files ≡ []
      → IsSound (record (raft_config c) {
        max_store_bytes = default_bytes c.max_store_bytes;
        max_index_bytes = default_bytes c.max_index_bytes;
      })
      → Storable libs 1 es
      → (last_index (new_log_store libs d c).1 ≡ ok 0)
        × (first_index (store_logs libs es (new_log_store libs d c).1).1 ≡ ok 1)
        × (last_index (store_logs libs es (new_log_store libs d c).1).1 ≡ ok (length es))
  unfolding last_index first_index new_log_store
  last_index-store_logs d c es works empty sound s =
      let (_, holds) =
        new_log-Holds libs reliable d (raft_config c) works empty sound (omega arith) in
      let (_, stored) =
        store_logs-Stored libs reliable es (new_log_store libs d c).1 1 [] holds s in
      let (_, none) = lowest-highest _ 1 [] holds in
      let (low, high) = lowest-highest _ 1 ([] ++ stored.added) stored.holds in
      (none, low, high ∙ ap ok (omega (arith, stored.count)))
