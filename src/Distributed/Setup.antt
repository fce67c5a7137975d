-- ===== src/Distributed/Setup.antt =====
-- NewDistributedLog (internal/log/distributed.go): the log of the state machine, Raft's own log, and
-- Raft over them; and Config of internal/log/config.go.
pub mod Fresh
pub mod Exited
use proglog.Base.{
  ℕ, List, [], ◌∷◌, Option, none, some, Bool, true, false, not, ◌&&◌, ◌==◌, if◌then◌else◌,
}
use proglog.Base.Exec.{
  Error, Result, ok, err, Exec, pure, lift, gets, modify, zoom, ◌>>=◌, ◌>>◌, panic,
}
use proglog.Api.{Libs}
use proglog.Disk
use proglog.Disk.{Disk}
use proglog.Segment
use proglog.Log
use proglog.Log.{Log, new_log}
use proglog.Distributed.Bounds.{new_log_store}
use proglog.Distributed.Cluster.{Peer}
use Prim.Native.String.{String}

-- raft.Config: the fields that the code sets. A duration is its count of nanoseconds.
pub record RaftConfig : Type 0 where
  pub local_id : String
  pub heartbeat_timeout : ℕ
  pub election_timeout : ℕ
  pub leader_lease_timeout : ℕ
  pub commit_timeout : ℕ

-- Config: Raft's part, and the segments'.
pub record Config : Type 0 where
  pub raft : RaftConfig
  pub bind_addr : String
  pub bootstrap : Bool
  pub segment : Segment.Config

-- What Raft reads and writes: its own state of type `E`, the logStore, and the log of the fsm.
pub record Attached (E : Type 0) : Type 0 where
  pub raft : E
  pub store : Log
  pub log : Log

-- What the code calls of Raft: DefaultConfig, NewBoltStore, NewFileSnapshotStore with how many
-- snapshots it keeps, and, with the logStore and the fsm, NewRaft, HasExistingState and
-- BootstrapCluster. NewNetworkTransport never fails.
pub record RaftLibrary (E : Type 0) : Type 0 where
  pub default_config : RaftConfig
  pub new_bolt_store : Exec E (Unit {0})
  pub new_file_snapshot_store : ℕ → Exec E (Unit {0})
  pub new_raft : RaftConfig → Exec (Attached E) (Unit {0})
  pub has_existing_state : Exec (Attached E) Bool
  pub bootstrap_cluster : List Peer → Exec (Attached E) (Unit {0})

abbrev pub given : ℕ → ℕ → ℕ
given n other = if n == 0 then other else n

-- The configuration that setupRaft passes to NewRaft.
unfoldable pub raft_settings : RaftConfig → RaftConfig → RaftConfig
raft_settings default own = record {
  local_id = own.local_id;
  heartbeat_timeout = given own.heartbeat_timeout default.heartbeat_timeout;
  election_timeout = given own.election_timeout default.election_timeout;
  leader_lease_timeout = given own.leader_lease_timeout default.leader_lease_timeout;
  commit_timeout = given own.commit_timeout default.commit_timeout;
}

-- A server that starts: its two directories under the data directory, the two logs once they are
-- open, and Raft.
pub record Starting (E : Type 0) : Type 0 where
  pub log_dir : Disk
  pub raft_dir : Disk
  pub log : Option Log
  pub store : Option Log
  pub raft : E

-- The cluster of the first server.
abbrev pub this_server : Config → Peer
this_server c = record { id = c.raft.local_id; address = c.bind_addr }

-- Closing a log that is not there goes through a nil pointer.
abbrev pub close_started : Libs → Option Log → Result (Unit {0}) × Option Log
close_started libs none = (err panic, none)
close_started libs (some l) = let (r, m) = Log.close libs l in (r, some m)

module _ {E : Type 0} where
  abbrev pub on_log_dir {ℓ} : {A : Type ℓ} → Exec Disk A → Exec (Starting E) A
  on_log_dir = zoom (λ (w : Starting E). w.log_dir) (λ d w. record w { log_dir = d })

  abbrev pub on_raft_dir {ℓ} : {A : Type ℓ} → Exec Disk A → Exec (Starting E) A
  on_raft_dir = zoom (λ (w : Starting E). w.raft_dir) (λ d w. record w { raft_dir = d })

  abbrev pub on_raft {ℓ} : {A : Type ℓ} → Exec E A → Exec (Starting E) A
  on_raft = zoom (λ (w : Starting E). w.raft) (λ e w. record w { raft = e })

  abbrev pub attach {ℓ} :
      {A : Type ℓ} → Exec (Attached E) A → Option Log → Option Log → Exec (Starting E) A
  attach m (some l) (some s) w =
      let (r, a) = m (record { raft = w.raft; store = s; log = l }) in
      (r, record w { raft = a.raft; store = some a.store; log = some a.log })
  attach m _ _ w = (err panic, w)

  -- A call of Raft that is given the logStore and the fsm; both are there when setupRaft makes it.
  abbrev pub on_attached {ℓ} : {A : Type ℓ} → Exec (Attached E) A → Exec (Starting E) A
  on_attached m w = attach m w.log w.store w

  -- NewLog on a directory; the directory is the log's from then on.
  abbrev pub open_log : Libs → Segment.Config → Exec (Starting E) (Unit {0})
  open_log libs c w =
      let (r, l) = new_log libs w.log_dir c in (r, record w { log = some l; log_dir = l.disk })

  abbrev pub open_store : Libs → Segment.Config → Exec (Starting E) (Unit {0})
  open_store libs c w =
      let (r, l) = new_log_store libs w.raft_dir c in
      (r, record w { store = some l; raft_dir = l.disk })

  -- setupLog
  unfoldable pub setup_log : Libs → Config → Exec (Starting E) (Unit {0})
  setup_log libs c = do on_log_dir Disk.mkdir_all; open_log libs c.segment

  abbrev pub bootstrap_if : RaftLibrary E → Config → Bool → Exec (Starting E) (Unit {0})
  bootstrap_if lib c true = on_attached (lib.bootstrap_cluster (this_server c ∷ []))
  bootstrap_if lib c false = pure tt

  -- setupRaft
  unfoldable pub setup_raft : Libs → RaftLibrary E → Config → Exec (Starting E) (Unit {0})
  setup_raft libs lib c = do
    on_raft_dir Disk.mkdir_all
    open_store libs c.segment
    on_raft lib.new_bolt_store
    on_raft (lib.new_file_snapshot_store 1)
    on_attached (lib.new_raft (raft_settings lib.default_config c.raft))
    has_state ← on_attached lib.has_existing_state
    bootstrap_if lib c (c.bootstrap && not has_state)

  -- NewDistributedLog
  unfoldable pub new_distributed_log : Libs → RaftLibrary E → Config → Exec (Starting E) (Unit {0})
  new_distributed_log libs lib c = do setup_log libs c; setup_raft libs lib c

  -- (*DistributedLog).Close of what NewDistributedLog made, where `raft_shutdown` is Raft's Shutdown.
  unfoldable pub close_log : Libs → Exec E (Unit {0}) → Exec (Starting E) (Unit {0})
  close_log libs raft_shutdown = do
    on_raft raft_shutdown
    zoom (λ (w : Starting E). w.log) (λ l w. record w { log = l }) (close_started libs)
