-- ===== src/Agent/Setup.antt =====
-- The agent's own set-up functions (internal/agent/agent.go), over the components that they start.
use proglog.Base.{
  ℕ, List, [], ◌∷◌, Option, none, some, Bool, true, false, if◌then◌else◌, ◌≡◌, refl, ◌∙◌, ap, map,
  ◌++◌, arith, not, ◌||◌,
}
use proglog.Base.Exec.{Result, ok, err, Exec, pure, lift, modify, ◌>>=◌, ◌>>◌}
use proglog.Api.{Libs}
use proglog.Cli.{Config}
use proglog.Distributed.{Wake, tick, timed_out, wait_for_leader, not_elected}
use proglog.Distributed.Cluster.{Raft, join}
use proglog.Distributed.Cluster.Join.{join-joined}
use proglog.Distributed.Cluster.Members.{Configures, once, taken, has}
use proglog.Distributed.Setup.{
  Config as LogConfig, RaftLibrary, Starting, this_server, new_distributed_log,
}
use proglog.Membership.{Member}
use proglog.Membership.Setup.{Config as MembershipConfig, Serf, new_membership}
use text.Mathlib.Text.{◌==◌ as str_eq}
use text.Mathlib.TextPositions.{eq_refl}
use Prim.Native.String.{String, ◌++◌ as str_append}

-- net.SplitHostPort, net.ResolveTCPAddr (the IP as text), and a number as text.
pub record Addresses : Type 0 where
  pub split_host_port : String → Result String
  pub resolve_ip : String → Result String
  pub itoa : ℕ → String

-- fmt.Sprintf("%s:%d", host, port)
abbrev pub host_port : Addresses → String → ℕ → String
host_port net host port = str_append host (str_append ":" (net.itoa port))

-- What the agent starts, beside the log: net.Listen, auth.New with the names of its files,
-- NewGRPCServer with whether there are credentials, and zap.NewDevelopment.
pub record Outside (N : Type 0) : Type 0 where
  pub listen : String → Exec N (Unit {0})
  pub new_authorizer : String → String → Exec N (Unit {0})
  pub new_grpc_server : Bool → Exec N (Unit {0})
  pub new_logger : Exec N (Unit {0})

-- What WaitForLeader wakes up for until it gives up: a tick each second, with the leader there is.
abbrev pub until_timeout : List String → List Wake
until_timeout leaders = map tick leaders ++ (timed_out ∷ [])

-- What WaitForLeader returned; the time-out wakes it in the end, so that it returned something.
abbrev pub waited : {E : Type 0} → Option (Result (Unit {0})) → Exec (Starting E) (Unit {0})
waited none = lift (err not_elected)
waited (some r) = lift r

-- The wait of a server that bootstraps.
abbrev pub wait_if :
    {E : Type 0} → (Starting E → Starting E) → List String → Bool → Exec (Starting E) (Unit {0})
wait_if meanwhile leaders true =
    modify meanwhile >> waited (wait_for_leader (until_timeout leaders))
wait_if meanwhile leaders false = pure tt

abbrev pub is_some : {A : Type 0} → Option A → Bool
is_some none = false
is_some (some a) = true

-- setupLogger
unfoldable pub setup_logger : {N : Type 0} → Outside N → Exec N (Unit {0})
setup_logger out = out.new_logger

abbrev pub any_leader : List String → Bool
any_leader [] = false
any_leader (l ∷ ls) = not (str_eq l "") || any_leader ls

-- WaitForLeader returns, at the time-out at the latest: nil if a tick before it saw a leader, else
-- the error of the time-out.
pub wait_for_leader-until_timeout :
    (leaders : List String)
    → wait_for_leader (until_timeout leaders)
      ≡ some (if any_leader leaders then ok tt else err not_elected)
unfolding wait_for_leader
wait_for_leader-until_timeout [] = refl
wait_for_leader-until_timeout (l ∷ ls) = ground (arith, wait_for_leader-until_timeout ls)

once_alone : (id addr : String) → once id (record { id = id; address = addr } ∷ []) ≡ true
once_alone id addr = rw (eq_refl id) refl

taken_alone : (id addr : String) → taken id addr (record { id = id; address = addr } ∷ []) ≡ false
taken_alone id addr = rw (eq_refl id, eq_refl addr) refl

has_alone : (id addr : String) → has id addr (record { id = id; address = addr } ∷ []) ≡ true
has_alone id addr = rw (eq_refl id, eq_refl addr) refl

-- Join of the only server at its own address.
join_alone :
    (S : Type 0) (raft : Raft S) (configures : Configures S raft) (s : S) (id addr : String)
    → configures.view s ≡ record { id = id; address = addr } ∷ []
    → ((join raft id addr s).0 ≡ ok tt)
      × (configures.view (join raft id addr s).1 ≡ configures.view s)
join_alone S raft configures s id addr h =
    let (done, kept) =
      join-joined S raft configures id addr s (rw h (once_alone id addr))
        (rw h (taken_alone id addr)) in
    (done, kept ∙ rw (ap (has id addr) h ∙ has_alone id addr) refl)

module _ {C P : Type 0} where
  -- RPCAddr
  unfoldable pub rpc_addr : Addresses → Config C P → Result String
  rpc_addr net c = elim (net.split_host_port c.bind_addr) [
    | err e ↦ err e
    | ok host ↦ ok (host_port net host c.rpc_port)
  ]

  -- The log.Config of setupLog: what it does not set is zero.
  abbrev pub log_config : Config C P → String → LogConfig
  log_config c addr = record {
    raft = record {
      local_id = c.node_name;
      heartbeat_timeout = 0;
      election_timeout = 0;
      leader_lease_timeout = 0;
      commit_timeout = 0;
    };
    bind_addr = addr;
    bootstrap = c.bootstrap;
    segment = record { max_store_bytes = 0; max_index_bytes = 0; initial_offset = 0 };
  }

  -- The discovery.Config of setupMembership.
  abbrev pub membership_config : Config C P → String → MembershipConfig
  membership_config c addr = record {
    node_name = c.node_name;
    bind_addr = c.bind_addr;
    rpc_addr = addr;
    start_join_addrs = c.start_join_addrs;
  }

  -- setupMux
  unfoldable pub setup_mux : {N : Type 0} → Addresses → Outside N → Config C P → Exec N (Unit {0})
  setup_mux net out c = do
    ip ← lift (net.resolve_ip c.bind_addr)
    out.listen (host_port net ip c.rpc_port)

  -- setupLog, where WaitForLeader sees these leaders, or no leader, until it gives up, and `meanwhile`
  -- is what Raft's own goroutines do to the logs and to Raft until it returns. The listener
  -- that it takes from the multiplexer is in Distributed/StreamLayer.
  unfoldable pub setup_log :
      {E : Type 0}
      → Libs
      → RaftLibrary E
      → Addresses
      → List String
      → (Starting E → Starting E)
      → Config C P
      → Exec (Starting E) (Unit {0})
  setup_log libs lib net leaders meanwhile c = do
    addr ← lift (rpc_addr net c)
    new_distributed_log libs lib (log_config c addr)
    wait_if meanwhile leaders c.bootstrap

  -- setupServer; Serve runs on its own from there.
  unfoldable pub setup_server : {N : Type 0} → Outside N → Config C P → Exec N (Unit {0})
  setup_server out c = do
    out.new_authorizer c.acl_model_file c.acl_policy_file
    out.new_grpc_server (is_some c.server_tls_config)

  -- setupMembership
  unfoldable pub setup_membership :
      {S : Type 0} → Addresses → Serf S → Config C P → Exec S (Unit {0})
  setup_membership net serf c = do
    addr ← lift (rpc_addr net c)
    new_membership serf (membership_config c addr)

  -- The member that other agents see of this one.
  abbrev pub advertised : Config C P → String → Member
  advertised c addr = record {
    name = (membership_config c addr).node_name;
    rpc_addr = (membership_config c addr).rpc_addr;
  }

  -- Where the cluster has only the server that setupLog bootstrapped it with, Join of the member
  -- that setupMembership makes known of the same agent succeeds and leaves the servers as they are.
  pub join-advertised :
      (S : Type 0) (raft : Raft S) (configures : Configures S raft) (s : S) (c : Config C P)
      (addr : String)
      → configures.view s ≡ this_server (log_config c addr) ∷ []
      → ((join raft (advertised c addr).name (advertised c addr).rpc_addr s).0 ≡ ok tt)
        × (configures.view (join raft (advertised c addr).name (advertised c addr).rpc_addr s).1
            ≡ configures.view s)
  join-advertised S raft configures s c addr h = join_alone S raft configures s c.node_name addr h
