-- ===== src/GetServers.antt =====
-- cmd/getservers/main.go: a tool that prints the servers of a cluster.
use proglog.Base.{◌≡◌, List, ◌∷◌, map, Option, none, some, true, false, arith}
use proglog.Base.Exec.{ok, Exec, pure, ◌>>=◌, ◌>>◌}
use proglog.Api.{Server}
use proglog.Distributed.Cluster.{Raft, join, get_servers}
use proglog.Distributed.Cluster.Listed.{lists, get_servers-join}
use proglog.Distributed.Cluster.Members.{Configures, once, taken}
use proglog.Server.{plain, call, authenticate}
use Prim.Native.String.{String, ◌++◌ as str_append}

-- grpc.NewClient without TLS, GetServers of the client that was made, and a server as "%v" shows it.
pub record Client (S : Type 0) : Type 0 where
  pub new_client : String → Exec S (Unit {0})
  pub get_servers : Exec S (List Server)
  pub show : Server → String

-- The flag `addr`.
abbrev pub service_address : Option String → String
service_address none = ":8400"
service_address (some addr) = addr

abbrev pub report : {S : Type 0} → Client S → List Server → List String
report client servers = "servers:" ∷ map (λ x. str_append "- " (client.show x)) servers

-- main: the lines that are printed; log.Fatal ends it with the error.
unfoldable pub main : {S : Type 0} → Client S → Option String → Exec S (List String)
main client addr = do
  client.new_client (service_address addr)
  servers ← client.get_servers
  pure (report client servers)

-- The tool's connection has no certificate, and GetServers asks for no right: on a server without
-- TLS that has just had a Join, at an address that no other server has, the report has the server.
main-join :
    (S : Type 0) (client : Client S) (addr : Option String) (raft : Raft S)
    (configures : Configures S raft) (id rpc_addr : String) (s : S)
    → ((t : S) → client.new_client (service_address addr) t ≡ (ok tt, t))
    → ((t : S) → client.get_servers t ≡ call plain (λ ctx. get_servers raft) t)
    → once id (configures.view s) ≡ true
    → taken id rpc_addr (configures.view s) ≡ false
    → (xs : List Server) × ((main client addr (join raft id rpc_addr s).1).0
        ≡ ok (report client xs))
      × (lists id rpc_addr xs ≡ true)
unfolding main call authenticate
main-join S client addr raft configures id rpc_addr s connects asks o t =
    let ((xs, shown, member), _, _) = get_servers-join S raft configures id rpc_addr s o t in
    let after = (join raft id rpc_addr s).1 in
    (xs, ground (arith, connects after, asks after, shown), member)
