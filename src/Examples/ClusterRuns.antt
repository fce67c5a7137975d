-- ===== src/Examples/ClusterRuns.antt =====
-- A server of the cluster, from its start to a client's calls, on the concrete libraries.
use proglog.Base.{ℕ, ◌≡◌, refl, List, [], ◌∷◌, some, none, arith, true, false, ◌⊎◌, inl}
use proglog.Base.Exec.{ok, err, panic, pure, Exec}
use proglog.Bytes.{put_uint64, put_uint32}
use proglog.Auth.{authorize}
use proglog.Log.{Log}
use proglog.Cli.{Config as AgentConfig}
use proglog.Tls.{is_set, setup_tls_config}
use proglog.Distributed.{Node, wait_for_leader}
use proglog.Distributed.Bounds.{new_log_store, last_index-store_logs}
use proglog.Distributed.LogStore.{RaftLog, to_record, Storable, store_logs, first_index, last_index}
use proglog.Distributed.Cluster.{Peer, Raft}
use proglog.Distributed.Setup.{Config, RaftConfig, RaftLibrary, Starting, new_distributed_log}
use proglog.Distributed.Setup.Fresh.{Started, Begins, handed, new_distributed_log-Started}
use proglog.Api.{ProduceResponse}
use proglog.Server.{Peer as Client, produce, consume, call, chains, authenticate, allow, subject}
use proglog.Server.OverCluster.{over_cluster, Serves, consume-produce-call}
use proglog.Server.Certificates.{verified, Named, authenticate-setup_tls_config}
use proglog.Agent.Setup.{until_timeout, wait_for_leader-until_timeout}
use proglog.Examples.Codec.{libs, reliable, encode_record}
use proglog.Examples.LogRuns.{disk, hello, payload, one, one-Holds}
use proglog.Examples.LogRuns.{config as log_config}
use proglog.Examples.ReplicaRuns.{codec, faithful, alone, commits}
use proglog.Examples.ServerRuns.{enforce}
use proglog.Examples.ServiceRuns.{certs, server_config, server_tls}
use Prim.Native.String.{String}

abbrev pub entry : ℕ → RaftLog
entry i = record {
  content = b'h' ∷ b'i' ∷ [];
  index = i;
  kind = 0;
  term = 1;
  extensions = [];
  appended_at = 0;
}

entries-Storable : Storable libs 1 (entry 1 ∷ entry 2 ∷ [])
unfolding encode_record put_uint64 put_uint32
entries-Storable = (
  refl,
  omega arith,
  (payload 1, refl, omega arith),
  omega arith,
  (refl, omega arith, (payload 2, refl, omega arith), omega arith, tt),
)

last_index-store_logs_example :
    (last_index (new_log_store libs disk log_config).1 ≡ ok 0)
    × (first_index
          (store_logs libs (entry 1 ∷ entry 2 ∷ []) (new_log_store libs disk log_config).1).1
        ≡ ok 1)
    × (last_index
          (store_logs libs (entry 1 ∷ entry 2 ∷ []) (new_log_store libs disk log_config).1).1
        ≡ ok 2)
last_index-store_logs_example =
    last_index-store_logs libs reliable disk log_config (entry 1 ∷ entry 2 ∷ [])
      (record { exists = refl; healthy = refl }) refl (omega arith) entries-Storable

abbrev timeouts : RaftConfig
timeouts = record {
  local_id = "";
  heartbeat_timeout = 1000;
  election_timeout = 1000;
  leader_lease_timeout = 500;
  commit_timeout = 50;
}

-- The entry that Raft stores first; its bytes stand for the configuration.
abbrev pub first_entry : RaftLog
first_entry = record (entry 1) { kind = 5 }

pub first_entry-Storable : Storable libs 1 (first_entry ∷ [])
unfolding encode_record put_uint64 put_uint32
first_entry-Storable = (
  refl,
  omega arith,
  (encode_record (record (to_record first_entry) { offset = 1 }), refl, omega arith),
  omega arith,
  tt,
)

-- Raft, by the servers that it was bootstrapped with.
abbrev pub library : RaftLibrary (List Peer)
library = record {
  default_config = timeouts;
  new_bolt_store = pure tt;
  new_file_snapshot_store = λ n. pure tt;
  new_raft = λ c. pure tt;
  has_existing_state = pure false;
  bootstrap_cluster = λ ps a.
      (ok tt, record a { raft = ps; store = (store_logs libs (first_entry ∷ []) a.store).1 });
}

abbrev cluster_config : Config
cluster_config = record {
  raft = record timeouts { local_id = "a" };
  bind_addr = "host:1";
  bootstrap = true;
  segment = log_config;
}

abbrev pub machine : Starting (List Peer)
machine = record {
  log_dir = record disk { exists = false };
  raft_dir = record disk { exists = false };
  log = none;
  store = none;
  raft = [];
}

pub library-Begins :
    (c : Config)
    → Begins libs
        (List Peer)
        library
        c
        first_entry
        (handed libs (List Peer) library c machine)
        false
library-Begins c = record {
  begins = refl;
  begun_store = refl;
  begun_log = refl;
  state = refl;
  asked_store = refl;
  asked_log = refl;
  bootstraps = λ e. refl;
  stores = λ e. refl;
  keeps = λ e. refl;
}

new_distributed_log-Started_example :
    Started libs
      (List Peer)
      library
      cluster_config
      first_entry
      5
      (handed libs (List Peer) library cluster_config machine)
      false
      (new_distributed_log libs library cluster_config machine)
new_distributed_log-Started_example =
    new_distributed_log-Started libs reliable (List Peer) library
      (record { bolt = λ e. refl; snapshots = λ e. refl }) cluster_config machine (omega arith)
      first_entry false (refl, inl refl) (refl, inl refl) (omega arith)
      (library-Begins cluster_config) first_entry-Storable

-- A cluster of one server: its state is its log.
abbrev node : Node Log
node = record { log_of = λ l. l; put_log = λ l s. l }

abbrev calls : Raft Log
calls = record {
  get_configuration = pure (record { id = "a"; address = "host:1" } ∷ []);
  remove_server = λ id. pure tt;
  add_voter = λ id addr. pure tt;
  leader = λ l. "host:1";
}

serves : Serves libs codec Log alone calls node enforce commits
unfolding commits
serves = record { same = λ s. refl; put = λ l s. refl }

-- A client with a verified certificate of this name.
abbrev root : Client
root = chains (("root" ∷ []) ∷ [])

root-authenticate : authenticate root ≡ ok (some "root")
unfolding authenticate
root-authenticate = refl

may :
    (action : String)
    → allow (over_cluster libs codec Log alone calls node enforce) (some "root") action ≡ ok tt
unfolding allow subject authorize
may action = refl

commits-Leads : commits.Leads one
unfolding commits
commits-Leads = tt

abbrev served : Exec Log ProduceResponse
served = call root (λ c.
    produce (over_cluster libs codec Log alone calls node enforce) c
      (record { value = some hello }))

consume-produce-call_example :
    ((served one).0 ≡ ok (record { offset = 6 }))
    × ((call root
          (λ c.
            consume
              (over_cluster libs codec Log alone calls node enforce)
              c
              (record { offset = 6 }))
          (served one).1).0
        ≡ ok (record { value = record hello { offset = 6 } }))
unfolding encode_record put_uint64 put_uint32
consume-produce-call_example =
    consume-produce-call libs codec Log alone calls node enforce reliable faithful commits serves
      root root (some "root") (some "root") one 5 (payload 5 ∷ []) hello (1 ∷ encode_record hello)
      (payload 6) root-authenticate root-authenticate (may "produce") (may "consume") commits-Leads
      one-Holds (omega arith) (omega arith) refl refl (omega arith) (omega arith)

authenticate-setup_tls_config_example :
    ((is_set server_config.ca_file ≡ true) × Named root)
    ⊎ ((is_set server_config.ca_file ≡ false) × (authenticate root ≡ err panic))
unfolding setup_tls_config
authenticate-setup_tls_config_example =
    authenticate-setup_tls_config ℕ ℕ certs server_config server_tls root refl refl
      (verified "root" [] [])

abbrev pub agent_config : AgentConfig ℕ ℕ
agent_config = record {
  server_tls_config = none;
  peer_tls_config = none;
  data_dir = "/tmp/proglog";
  bind_addr = "127.0.0.1:8401";
  rpc_port = 8400;
  node_name = "a";
  bootstrap = true;
  start_join_addrs = none;
  acl_model_file = "";
  acl_policy_file = "";
}

wait_for_leader-until_timeout_example :
    wait_for_leader (until_timeout ("" ∷ "host:1" ∷ [])) ≡ some (ok tt)
wait_for_leader-until_timeout_example = wait_for_leader-until_timeout ("" ∷ "host:1" ∷ [])
