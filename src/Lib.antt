-- ===== src/Lib.antt =====
-- proglog: a commit log on disk, replicated by Raft and served over gRPC.
--
-- The program's parts and the files that model them:
--   internal/log/store.go        Store      newStore, Append, Read, ReadAt, Close
--   internal/log/index.go        Index      newIndex, Read, Write, isMaxed, Close
--   internal/log/segment.go      Segment    a store with its index: Append, Read, IsMaxed, Remove, Close
--   internal/log/log.go          Log        a list of segments: NewLog, Append, Read, Reset, Remove,
--                                           Close, LowestOffset, HighestOffset; Truncate in Log/Truncate,
--                                           Reader, read to its end, in Log/Reader; Log/Machine: a log
--                                           that serves a sequence of calls
--   internal/log/distributed.go  Distributed  apply, Append, Read, Close, WaitForLeader and the state
--                                           machine; LogStore (Raft's own log; DeleteRange apart,
--                                           in DeleteRange), Bounds (newLogStore),
--                                           Replicas and Replay (Apply on several servers, and again
--                                           after a restart), Replicate (Append on a leader),
--                                           Persist (Snapshot, Persist), Snapshot (Restore), Cluster
--                                           (Join, Leave, GetServers), StreamLayer (Dial, Accept), Setup
--                                           (NewDistributedLog, setupLog, setupRaft)
--   internal/log/config.go       Segment.Config and Distributed/Setup.Config
--   internal/server/server.go    Server     Produce, Consume, both streams, authenticate, GetServers, and a
--                                           call behind the interceptor; Server/Build: NewGRPCServer
--   internal/auth/authorizer.go  Auth       Authorize
--   internal/loadbalance         Picker     Build, Pick, nextFollower; Resolver: ResolveNow, and Build
--                                           and Close in Resolver/Connect
--   internal/discovery           Membership eventHandler and the handler's calls; Membership/Setup:
--                                           NewMembership, setupSerf, Leave
--   internal/agent/agent.go      Agent      the order of NewAgent, serve and Shutdown; Agent/Setup: the
--                                           set-up functions and RPCAddr; Agent/Compose: both over one
--                                           state, with the logs, Raft and serf in it
--   internal/config/tls.go       Tls        SetupTLSConfig
--   internal/config/files.go     ConfigFiles  configFile and the names
--   cmd/proglog/main.go          Cli        setupConfig; Cli/Flags: main, setupFlags and run
--   cmd/getservers/main.go       GetServers  main
--   api/v1                       Api        the messages, and the codes of the errors
--   _httpLogServer/server        HttpLog    the first server: a log in memory behind HTTP; HttpLog/Session: the
--                                           requests of a client, as NewHTTPServer routes them
-- Io and Disk model *os.File, bufio.Writer and a directory of the standard library; Bytes the
-- big-endian numbers; Base the types, tests and list lemmas that all share.
--
-- A record's payload is the bytes that proto.Marshal makes of it. It lies in a segment's store behind
-- its length, and its offset and position lie in the index. The log's Append goes to the last segment,
-- and starts a new one when that is full. Raft hands committed commands to the state machine, which
-- appends them to the log; the server reads from it.
--
-- How code becomes definitions. A method that changes an object and may return an error is a function
-- from the state to a result and the new state (Base/Exec): what was changed before an error stays
-- changed. A run-time panic is the error `panic`. A uint64 is a natural number below 2 ^ 64, and sums
-- wrap. A file has the position of its handle, on which what Persist copies depends. A method that
-- holds its object's lock is one step; ConsumeStream, which does not, is a sequence of rounds between
-- which other calls may change the log (Server.Tick).
--
-- Layers. Each detailed component stands for an abstract value: a store for bytes (Store.Refine), an
-- index for a list of entries (Index.Refine), a segment and a log for a list of payloads and its first
-- offset (Segment.Refine, Log.Refine; Log.Chain says how the segments share the list). The server
-- needs of a log what Server.Stream calls Readable, and Server/OverLog gives it for this log;
-- Server/OverCluster puts the server on the replicated log, as the agent does.
--
-- Log/Machine/Spec says what the log as a whole is for, as a step relation on a list of records and its
-- first offset; Log/Machine/Refines is about each call, and Log/Machine/Runs about sequences of calls,
-- restarts among them. Truncate is the one call that the relation does not determine: it works by whole
-- segments. Log/Truncate/Removed and Log/Truncate/Stored are about the directory behind it.
-- HttpLog/Session says by a function what the first server is for.
--
-- A restart. Log/Saved says what Close leaves in the directory of a segment, Log/Files and Log/Stored
-- how the directory lies beside the segments, and Log/Reopened and Log/Restart what setup reads of it;
-- Log/Durable is what a client then finds.
-- Segment/Crashed, Log/Crashed and Log/Killed do the same for a process that ended without Close; there
-- the files are those that the kernel keeps: what was written, and the shared maps. Agent/Stop
-- takes both logs of an agent through Shutdown and the end of the process; Distributed/Setup/Exited is
-- the part of Raft's own log.
--
-- Bounds. The theorems on Append ask for offsets below 2 ^ 63 and payloads below 2 ^ 48 bytes, the
-- size of the address space. The turns of Restore are counted by the length of the snapshot: each
-- turn takes eight bytes of it at least. A copy of a store (Log/Reader) is counted by the store's size
-- and one: each turn takes a byte at least, or is the last.
--
-- Parameters. protobuf and the memory map (Api.Libs, Distributed.Codec), casbin (Auth.Enforce), Raft
-- (Distributed.RaftApply, Distributed.Cluster.Raft, Distributed.Setup.RaftLibrary), serf (the events and
-- Membership.Setup.Serf), viper and cobra (Cli.Viper, Cli.Flags.Command), the certificates (Tls.Certs),
-- the network (Agent.Setup.Addresses and Outside) and gRPC (Server.Build.Grpc, Resolver.Connect.Client,
-- GetServers.Client).
-- What is asked of them stands in Api.Reliable, Distributed.Replicas.Faithful,
-- Distributed.Replicate.Commits, Distributed.Cluster.Members.Configures,
-- Distributed.Setup.Fresh.Succeeds and Begins, Agent.Fresh.Answers, Server.OverCluster.Serves and
-- Server.Certificates.Shaken; the modules under Examples give each a concrete value and apply the
-- theorems to it.
--
-- Not modelled: the generated code of api/v1; internal/log/replicator.go, which is commented out;
-- _httpLogServer/cmd/server, which starts the server; the deployment files. Of NewDistributedLog, what
-- Raft's own goroutines do from NewRaft on (while a leader is waited for, Agent/Compose has it as a
-- parameter). Of Append of a log, the offset that it returns beside an
-- error of newSegment, which no caller reads. Of a closed index, that a use of its map faults. Of a
-- snapshot, what Append adds to the stores while Persist runs.
pub mod Agent
pub mod Api
pub mod Auth
pub mod Base
pub mod Bytes
pub mod Cli
pub mod ConfigFiles
pub mod Disk
pub mod Distributed
mod Examples
pub mod GetServers
pub mod HttpLog
pub mod Index
pub mod Io
pub mod Log
pub mod Membership
pub mod Picker
pub mod Resolver
pub mod Segment
pub mod Server
pub mod Store
pub mod Tls
