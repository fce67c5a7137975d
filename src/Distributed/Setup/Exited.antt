-- ===== src/Distributed/Setup/Exited.antt =====
-- Close of a DistributedLog (internal/log/distributed.go), the end of the process, and
-- NewDistributedLog in the next one.
use proglog.Base.{ℕ, ◌≡◌, refl, ap, ◌∙◌, List, [], ◌∷◌, some, arith}
use proglog.Base.Exec.{ok, Exec}
use proglog.Api.{Libs, Reliable}
use proglog.Disk.{Disk}
use proglog.Segment.{Config}
use proglog.Segment.Crashed.{Fails}
use proglog.Segment.Layout.{Payload}
use proglog.Log
use proglog.Log.{Log, new_log, default_bytes, with_defaults}
use proglog.Log.Refine.{Holds}
use proglog.Log.Stored.{Stored}
use proglog.Log.Killed.{killed, append-killed}
use proglog.Distributed.Bounds.{new_log_store, raft_config}
use proglog.Distributed.LogStore.{RaftLog, store_logs, to_record}
use proglog.Distributed.Setup.{Starting, close_log}

default_again : (n : ℕ) → default_bytes (default_bytes n) ≡ default_bytes n
default_again n = ground arith

pub new_log-with_defaults :
    (libs : Libs) (d : Disk) (c : Config) → new_log libs d (with_defaults c) ≡ new_log libs d c
unfolding new_log
new_log-with_defaults libs d c =
    rw (default_again c.max_store_bytes, default_again c.max_index_bytes) refl

store_logs-Fails :
    (libs : Libs) (e : RaftLog) (es : List RaftLog) (l : Log)
    → Fails (Log.append libs (some (to_record e)) l).0
    → Fails (store_logs libs (e ∷ es) l).0
unfolding store_logs
store_logs-Fails libs e es l (x, f) = (x, ground (arith, f))

-- Close closes the log of the records, but not Raft's own log, so that its directory is left as by a
-- process that is killed. In the next process NewDistributedLog opens it without an error, but no
-- StoreLogs of an entry succeeds any more.
pub store_logs-close_log :
    (libs : Libs) (reliable : Reliable libs) (E : Type 0) (raft_shutdown : Exec E (Unit {0}))
    (c : Config) (w : Starting E) (store : Log) (first : ℕ) (qs : List Payload) (e : RaftLog)
    (es : List RaftLog)
    → w.store ≡ some store
    → store.config ≡ with_defaults (raft_config c)
    → Holds store first qs
    → Stored store
    → ((close_log libs raft_shutdown w).1.store ≡ some store)
      × ((new_log_store libs (killed store.segments store.disk) c).0 ≡ ok tt)
      × Fails
          (store_logs libs (e ∷ es) (new_log_store libs (killed store.segments store.disk) c).1).0
unfolding new_log_store close_log
store_logs-close_log libs reliable E raft_shutdown c w store first qs e es is same h s =
    let (okay, fails) = append-killed libs reliable store first qs [] (some (to_record e)) h s in
    let again : new_log libs (killed store.segments store.disk) store.config
        ≡ new_log libs (killed store.segments store.disk) (raft_config c) =
      ap (new_log libs (killed store.segments store.disk)) same
      ∙ new_log-with_defaults libs (killed store.segments store.disk) (raft_config c) in
    (ground (arith, is), rw again at okay, store_logs-Fails libs e es _ (rw again at fails))
