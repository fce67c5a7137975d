-- ===== src/Examples/AgentRuns.antt =====
-- NewAgent on a new machine, and the end of its process, on the concrete libraries.
use proglog.Base.{ℕ, ◌≡◌, refl, List, [], ◌∷◌, some, arith, false, inl}
use proglog.Base.Exec.{ok, err, foreign, pure}
use proglog.Io
use proglog.Disk
use proglog.Store
use proglog.Index
use proglog.Segment
use proglog.Segment.{Config}
use proglog.Segment.Crashed.{Fails}
use proglog.Log
use proglog.Log.{Log}
use proglog.Log.Refine.{Holds, append-Holds}
use proglog.Log.Refine.Files.{append-Stored}
use proglog.Bytes.{put_uint64, put_uint32}
use proglog.Log.Stored.{Stored}
use proglog.Log.Killed.{killed}
use proglog.Log.Create.{new_log-Holds}
use proglog.Log.Create.Files.{new_log-Stored}
use proglog.Agent.{new_agent, shutdown}
use proglog.Agent.Compose.{World, Surroundings, parts}
use proglog.Agent.Fresh.{Ready, new_agent-Ready}
use proglog.Distributed.Bounds.{new_log_store, raft_config}
use proglog.Distributed.LogStore.{store_logs}
use proglog.Distributed.Cluster.{Peer}
use proglog.Agent.Stop.{running, shutdown-restart, shutdown-leave}
use proglog.Membership.Setup.{new_membership, setup_serf, leave}
use proglog.Agent.Setup.{log_config}
use proglog.Examples.Codec.{libs, reliable, encode_record}
use proglog.Examples.LogRuns.{disk, hello, payload}
use proglog.Examples.ClusterRuns.{
  entry, first_entry, first_entry-Storable, library-Begins, library, machine, agent_config,
}

-- The listener and the gRPC server take notes of nothing; serf counts its calls.
abbrev around : Surroundings (List Peer) (Unit {0}) ℕ
around = record {
  libs = libs;
  raft = library;
  net = record {
    split_host_port = λ a. ok "127.0.0.1";
    resolve_ip = λ a. ok "127.0.0.1";
    itoa = λ n. "8400";
  };
  outside = record {
    listen = λ a. pure tt;
    new_authorizer = λ m p. pure tt;
    new_grpc_server = λ b. pure tt;
    new_logger = pure tt;
  };
  serf = record {
    resolve_tcp_addr = λ a. ok ("127.0.0.1", 8401);
    create = λ c n. (ok tt, 1);
    join = λ as' n. (ok tt, 2);
    leave = pure tt;
  };
  leaders = "127.0.0.1:8400" ∷ [];
  meanwhile = λ d. record d { log_dir = disk };
  raft_shutdown = pure tt;
  graceful_stop = λ n. n;
}

abbrev world : World (List Peer) (Unit {0}) ℕ
world = record { starting = machine; outside = tt; serf = 0 }

new_agent-Ready_example :
    Ready around agent_config "127.0.0.1" "127.0.0.1" first_entry false world
      (new_agent (parts around agent_config) world)
unfolding new_membership setup_serf
new_agent-Ready_example =
    new_agent-Ready around reliable agent_config
      (record { bolt = λ e. refl; snapshots = λ e. refl })
      (record {
        listens = λ a n. refl;
        authorizes = λ m p n. refl;
        serves = λ b n. refl;
        logs = λ n. refl;
      })
      world "127.0.0.1" "127.0.0.1" first_entry false refl refl refl (refl, inl refl)
      (refl, inl refl) (library-Begins (log_config agent_config "127.0.0.1:8400"))
      first_entry-Storable refl

-- The configuration that the agent gives to its logs.
abbrev segments : Config
segments = record { max_store_bytes = 0; max_index_bytes = 0; initial_offset = 0 }

abbrev log : Log
log = (Log.append libs (some hello) (Log.new_log libs disk segments).1).1

abbrev store : Log
store = (new_log_store libs disk segments).1

first_log-Holds : Holds (Log.new_log libs disk segments).1 0 []
first_log-Holds =
    (new_log-Holds libs reliable disk segments (record { exists = refl; healthy = refl }) refl
      (omega arith) (omega arith)).1

log-Holds : Holds log 0 (payload 0 ∷ [])
unfolding encode_record put_uint64 put_uint32
log-Holds =
    (append-Holds libs reliable (Log.new_log libs disk segments).1 0 [] first_log-Holds hello
      (payload 0) refl (omega arith) (omega arith)).1

log-Stored : Stored log
unfolding encode_record put_uint64 put_uint32
log-Stored =
    append-Stored libs reliable (Log.new_log libs disk segments).1 0 [] first_log-Holds hello
      (payload 0) refl (omega arith) (omega arith)
      (new_log-Stored libs reliable disk segments (record { exists = refl; healthy = refl }) refl
        (omega arith))

store-Holds : Holds store 1 []
unfolding new_log_store
store-Holds =
    (new_log-Holds libs reliable disk (raft_config segments)
      (record { exists = refl; healthy = refl }) refl (omega arith) (omega arith)).1

store-Stored : Stored store
unfolding new_log_store
store-Stored =
    new_log-Stored libs reliable disk (raft_config segments)
      (record { exists = refl; healthy = refl }) refl (omega arith)

append-config : (l : Log) → (Log.append libs (some hello) l).1.config ≡ l.config
unfolding Log.append Log.new_segment
append-config l = ground arith

configured :
    (log.config ≡ Log.with_defaults segments)
    × (store.config ≡ Log.with_defaults (raft_config segments))
unfolding new_log_store Log.new_log Log.setup Log.open_all Log.sort Log.new_segment
    Segment.new_segment Disk.read_dir Disk.open_file Disk.find Store.new_store Index.new_index
    Io.truncate
configured = (append-config (Log.new_log libs disk segments).1, refl)

abbrev up : World (List Peer) (Unit {0}) ℕ
up = record world { starting = record machine { log = some log; store = some store } }

shutdown-restart_example :
    ((shutdown (parts around agent_config) (running up)).0 ≡ ok tt)
    × ((shut : Log) × ((shutdown (parts around agent_config) (running up)).1.service.starting.log
          ≡ some shut)
        × ((Log.new_log libs shut.disk segments).0 ≡ ok tt)
        × Holds (Log.new_log libs shut.disk segments).1 0 (payload 0 ∷ []))
    × ((shutdown (parts around agent_config) (running up)).1.service.starting.store ≡ some store)
    × ((new_log_store libs (killed store.segments store.disk) segments).0 ≡ ok tt)
    × Fails
        (store_logs libs
          (entry 1 ∷ [])
          (new_log_store libs (killed store.segments store.disk) segments).1).0
unfolding leave
shutdown-restart_example =
    shutdown-restart around reliable agent_config "" up log store 0 1 (payload 0 ∷ []) [] (entry 1)
      [] refl refl configured.0 configured.1 log-Holds log-Stored store-Holds store-Stored refl refl

-- serf does not get away.
abbrev caught : Surroundings (List Peer) (Unit {0}) ℕ
caught = record around { serf = record around.serf { leave = λ n. (err (foreign 9), n) } }

shutdown-leave_example :
    ((shutdown (parts caught agent_config) (running up)).0 ≡ err (foreign 9))
    × ((shutdown (parts caught agent_config) (running up)).1.service.starting ≡ up.starting)
    × ((shutdown (parts caught agent_config) (running up)).1.service.outside ≡ tt)
    × (shutdown (parts caught agent_config) (shutdown (parts caught agent_config) (running up)).1
        ≡ (ok tt, (shutdown (parts caught agent_config) (running up)).1))
unfolding leave
shutdown-leave_example = shutdown-leave caught agent_config up (foreign 9) refl
