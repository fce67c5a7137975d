-- ===== src/Agent/Fresh.antt =====
-- NewAgent (internal/agent/agent.go) on a machine that has no data yet.
use proglog.Base.{
  if◌then◌else◌, [], ◌∷◌, ◌≡◌, refl, ap, some, Bool, true, not, ◌||◌, Bool-cases, inl, inr, arith,
}
use proglog.Base.Exec.{Result, ok}
use proglog.Api.{Reliable}
use proglog.Agent.{new_agent, run_each}
use proglog.Agent.Compose.{World, Surroundings, parts}
use proglog.Agent.Setup.{
  Outside, setup_logger, setup_mux, setup_log, setup_server, setup_membership, rpc_addr, host_port,
  log_config, membership_config, any_leader, is_some, until_timeout, wait_for_leader-until_timeout,
}
use proglog.Cli.{Config}
use proglog.Distributed.{wait_for_leader}
use proglog.Distributed.Setup.{Starting, new_distributed_log}
use proglog.Distributed.Setup.Fresh.{
  IsNew, Succeeds, Started, Begins, handed, new_distributed_log-Started,
}
use proglog.Distributed.LogStore.{RaftLog, Storable}
use proglog.Membership.Setup.{new_membership}
use Prim.Native.String.{String}

-- The calls that leave the process succeed.
pub record Answers (N : Type 0) (out : Outside N) : Type 0 where
  pub listens : (addr : String) (n : N) → (out.listen addr n).0 ≡ ok tt
  pub authorizes : (model policy : String) (n : N) → (out.new_authorizer model policy n).0 ≡ ok tt
  pub serves : (secure : Bool) (n : N) → (out.new_grpc_server secure n).0 ≡ ok tt
  pub logs : (n : N) → (out.new_logger n).0 ≡ ok tt

module _ {E N S C P : Type 0} (s : Surroundings E N S) (c : Config C P) where
  -- What lies outside after setupLogger and setupMux, and after setupServer.
  abbrev pub listening : String → N → N
  listening ip n = (s.outside.listen (host_port s.net ip c.rpc_port) (s.outside.new_logger n).1).1

  abbrev pub serving : N → N
  serving n =
      (s.outside.new_grpc_server (is_some c.server_tls_config)
        (s.outside.new_authorizer c.acl_model_file c.acl_policy_file n).1).1

  abbrev pub host_addr : String → String
  host_addr host = host_port s.net host c.rpc_port

  -- What has become of the logs and of Raft when setupLog returns.
  abbrev pub later : Starting E → Starting E
  later d = if c.bootstrap then s.meanwhile d else d

  -- The agent does not wait for a leader, or sees one in time.
  abbrev pub Elects : Type 0
  Elects = (not c.bootstrap || any_leader s.leaders) ≡ true

  module _ (answers : Answers N s.outside) (ip host : String)
      (resolves : s.net.resolve_ip c.bind_addr ≡ ok ip)
      (splits : s.net.split_host_port c.bind_addr ≡ ok host) where
    addressed : rpc_addr s.net c ≡ ok (host_addr host)
    unfolding rpc_addr
    addressed = ground (arith, splits)

    muxed :
        (n : N) → setup_mux s.net s.outside c (s.outside.new_logger n).1 ≡ (ok tt, listening ip n)
    unfolding setup_mux
    muxed n = ground (
      arith,
      resolves,
      answers.listens (host_port s.net ip c.rpc_port) (s.outside.new_logger n).1,
    )

    served : (n : N) → setup_server s.outside c n ≡ (ok tt, serving n)
    unfolding setup_server
    served n = ground (
      arith,
      answers.authorizes c.acl_model_file c.acl_policy_file n,
      answers.serves (is_some c.server_tls_config)
          (s.outside.new_authorizer c.acl_model_file c.acl_policy_file n).1,
    )

    joined :
        (x : S)
        → setup_membership s.net s.serf c x
          ≡ new_membership s.serf (membership_config c (host_addr host)) x
    unfolding setup_membership
    joined x = rw addressed refl

    logged :
        Elects
        → (w : Starting E)
        → (new_distributed_log s.libs s.raft (log_config c (host_addr host)) w).0 ≡ ok tt
        → setup_log s.libs s.raft s.net s.leaders s.meanwhile c w
          ≡ (ok tt, later (new_distributed_log s.libs s.raft (log_config c (host_addr host)) w).1)
    unfolding setup_log
    logged e w okay = elim (Bool-cases c.bootstrap) [
      | inl b ↦
          let seen : any_leader s.leaders ≡ true = ground (arith, b, e) in
          let woken : wait_for_leader (until_timeout s.leaders) ≡ some (ok tt) =
            ground (arith, wait_for_leader-until_timeout s.leaders, seen) in
          ground (arith, addressed, okay, b, woken)
      | inr b ↦ ground (arith, addressed, okay, b)
    ]

  -- What the agent has started: the logs and Raft at its address, and the rest.
  pub record Ready (ip host : String) (entry : RaftLog) (b : Bool) (w : World E N S)
      (out : Result (Unit {0}) × World E N S) : Type 0 where
    pub okay : out.0 ≡ ok tt
    pub opened : Starting E
    pub started :
        Started s.libs E s.raft
          (log_config c (host_addr host))
          entry
          0
          (handed s.libs E s.raft (log_config c (host_addr host)) w.starting)
          b
          (ok tt, opened)
    pub waits : out.1.starting ≡ later opened
    pub outside : out.1.outside ≡ serving (listening ip w.outside)
    pub serf : out.1.serf ≡ (new_membership s.serf (membership_config c (host_addr host)) w.serf).1

pair : {A B : Type 0} {x : A × B} {a : A} → x.0 ≡ a → x ≡ (a, x.1)
pair {x = x} e = ap (λ t. (t, x.1)) e

module _ {E N S C P : Type 0} (s : Surroundings E N S) (reliable : Reliable s.libs) (c : Config C P)
    (succeeds : Succeeds E s.raft) (answers : Answers N s.outside) where
  run_all :
      (w : World E N S) (ip host : String)
      → s.net.resolve_ip c.bind_addr ≡ ok ip
      → s.net.split_host_port c.bind_addr ≡ ok host
      → Elects s c
      → (d : Starting E)
      → new_distributed_log s.libs s.raft (log_config c (host_addr s c host)) w.starting
        ≡ (ok tt, d)
      → (x : S)
      → new_membership s.serf (membership_config c (host_addr s c host)) w.serf ≡ (ok tt, x)
      → new_agent (parts s c) w ≡ (
        ok tt,
        record {
          starting = later s c d;
          outside = serving s c (listening s c ip w.outside);
          serf = x;
        },
      )
  unfolding new_agent run_each setup_logger
  run_all w ip host resolves splits e d log x serf =
      let went : (new_distributed_log s.libs s.raft (log_config c (host_addr s c host))
            w.starting).0
          ≡ ok tt =
        ap (λ (t : Result (Unit {0}) × Starting E). t.0) log in
      ground (
        arith,
        answers.logs w.outside,
        muxed s c answers ip host resolves splits w.outside,
        logged s c answers ip host resolves splits e w.starting went,
        log,
        served s c answers ip host resolves splits (listening s c ip w.outside),
        joined s c answers ip host resolves splits w.serf,
        serf,
      )

  -- NewAgent on a machine with no data, where Raft finds no state of its own and no snapshot, and the
  -- calls of serf, the network and gRPC succeed: it succeeds. When NewDistributedLog
  -- returns in it, the log of records is empty and starts at zero. The cluster is bootstrapped, with this server at its RPC address as the only one, exactly if
  -- the configuration says so and Raft had no state: then Raft's own log, which starts at one, has the
  -- entry of that configuration and no other; else it is empty. After that NewAgent itself changes
  -- neither log, but Raft may while a leader is waited for. The server listens at the IP of the
  -- bind address with the RPC port, with credentials exactly if the configuration has TLS settings; and
  -- serf makes the agent known under its RPC address. Where it bootstraps, a leader must be seen before
  -- WaitForLeader gives up.
  pub new_agent-Ready :
      (w : World E N S) (ip host : String) (entry : RaftLog) (b : Bool)
      → s.net.resolve_ip c.bind_addr ≡ ok ip
      → s.net.split_host_port c.bind_addr ≡ ok host
      → Elects s c
      → IsNew w.starting.log_dir
      → IsNew w.starting.raft_dir
      → Begins s.libs E s.raft
          (log_config c (host_addr s c host))
          entry
          (handed s.libs E s.raft (log_config c (host_addr s c host)) w.starting)
          b
      → Storable s.libs 1 (entry ∷ [])
      → (new_membership s.serf (membership_config c (host_addr s c host)) w.serf).0 ≡ ok tt
      → Ready s c ip host entry b w (new_agent (parts s c) w)
  new_agent-Ready w ip host entry b resolves splits e new new' begins storable member =
      let started =
        new_distributed_log-Started s.libs reliable E s.raft succeeds
          (log_config c (host_addr s c host)) w.starting
          (record {
            store_room = omega arith;
            store_top = omega arith;
            index_room = omega arith;
            index_top = omega arith;
          })
          entry b new new' (omega arith) begins storable in
      let made = new_distributed_log s.libs s.raft (log_config c (host_addr s c host)) w.starting in
      let same : made ≡ (ok tt, made.1) = pair started.okay in
      rw (run_all w ip host resolves splits e made.1 same _ (pair member)) (record {
        okay = refl;
        opened = made.1;
        started = rw same at started;
        waits = refl;
        outside = refl;
        serf = refl;
      })
