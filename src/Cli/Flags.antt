-- ===== src/Cli/Flags.antt =====
-- setupFlags, run and main of cmd/proglog/main.go.
use proglog.Base.{ℕ, List, [], ◌∷◌, Bool, false}
use proglog.Base.Exec.{Error, Result, ok, err, Exec, modify, ◌>>◌}
use proglog.Agent.{Parts, Agent, new_agent, on_service, shutdown}
use Prim.Native.String.{String}

-- A flag: its name, its default and its use.
pub data Flag : Type 0 where
  string_flag : String → String → String → Flag
  int_flag : String → ℕ → String → Flag
  string_slice_flag : String → List String → String → Flag
  bool_flag : String → Bool → String → Flag

-- The flags of setupFlags, for the name of the host and the directory `proglog` among the temporary
-- ones.
abbrev pub flags : String → String → List Flag
flags hostname data_dir =
    string_flag "config-file" "" "Path to config file."
    ∷ string_flag "data-dir" data_dir "Directory to store log and Raft data."
    ∷ string_flag "node-name" hostname "Unique server ID."
    ∷ string_flag "bind-addr" "127.0.0.1:8401" "Address to bind Serf on."
    ∷ int_flag "rpc-port" 8400 "Port for RPC clients (and Raft) connections."
    ∷ string_slice_flag "start-join-addrs" [] "Serf addresses to join."
    ∷ bool_flag "bootstrap" false "Bootstrap the cluster."
    ∷ string_flag "acl-model-file" "" "Path to ACL model."
    ∷ string_flag "acl-policy-file" "" "Path to ACL policy."
    ∷ string_flag "server-tls-cert-file" "" "Path to server tls cert."
    ∷ string_flag "server-tls-key-file" "" "Path to server tls key."
    ∷ string_flag "server-tls-ca-file" "" "Path to server certificate authority."
    ∷ string_flag "peer-tls-cert-file" "" "Path to peer tls cert."
    ∷ string_flag "peer-tls-key-file" "" "Path to peer tls key."
    ∷ string_flag "peer-tls-ca-file" "" "Path to peer certificate authority."
    ∷ []

-- os.Hostname, os.TempDir joined with a name, the flags of a command of cobra, and
-- viper.BindPFlags.
pub record Command (S : Type 0) : Type 0 where
  pub hostname : Result String
  pub in_temp_dir : String → String
  pub declare : List Flag → S → S
  pub bind_flags : Exec S (Unit {0})
  pub execute : Exec S (Unit {0})

-- How the process goes on: log.Fatal ends it.
pub data Process : Type 0 where
  returned : Result (Unit {0}) → Process
  fatal : Error → Process

-- setupFlags
unfoldable pub setup_flags : {S : Type 0} → Command S → S → Process × S
setup_flags cmd s = elim cmd.hostname [
  | err e ↦ (fatal e, s)
  | ok host ↦
      let (r, s') = cmd.bind_flags (cmd.declare (flags host (cmd.in_temp_dir "proglog")) s) in
      (returned r, s')
]

abbrev pub or_fatal : Result (Unit {0}) → Process
or_fatal (ok _) = returned (ok tt)
or_fatal (err e) = fatal e

abbrev pub execute_after : {S : Type 0} → Command S → Process × S → Process × S
execute_after cmd (fatal e, s) = (fatal e, s)
execute_after cmd (returned (err e), s) = (fatal e, s)
execute_after cmd (returned (ok _), s) = let (r, s') = cmd.execute s in (or_fatal r, s')

-- main
unfoldable pub main : {S : Type 0} → Command S → S → Process × S
main cmd s = execute_after cmd (setup_flags cmd s)

-- run: `serving` is what happens until the signal comes.
unfoldable pub run : {S : Type 0} → Parts S → (S → S) → Exec (Agent S) (Unit {0})
run parts serving = do on_service (new_agent parts); on_service (modify serving); shutdown parts
