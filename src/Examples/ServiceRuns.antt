-- ===== src/Examples/ServiceRuns.antt =====
-- The cluster's membership and the agent's parts, run on small concrete libraries.
use proglog.Base.{ℕ, ◌≡◌, refl, List, [], ◌∷◌, ◌++◌, none, some, Bool, true, false, All}
use proglog.Base.Exec.{Error, foreign, ok, err, Exec}
use proglog.Distributed.Cluster.{Peer, Raft, join, leave, get_servers}
use proglog.Distributed.Cluster.Listed.{lists, mentions, get_servers-join}
use proglog.Api.{Server}
use proglog.Distributed.Cluster.Members.{Configures, taken, without, joined}
use proglog.Distributed.Cluster.Join.{join-taken}
use proglog.Distributed.StreamLayer.{
  StreamLayer, Conn, plain, tls_client, tls_server, dial, accept, is_raft, accept-dial,
}
use proglog.Membership.{Member, Event, member_join, member_leave, Handler, World, event_handler}
use proglog.Membership.Calls.{run, calls, IsRemote, event_handler-calls}
use proglog.Tls.{TlsConfig, Tls, Certs}
use proglog.Cli.{Viper}
use Prim.Native.String.{String}

-- Raft on a leader, by its list of servers.
abbrev add_peer : Bool → String → String → Exec (List Peer) (Unit {0})
add_peer true id addr ps = (err (foreign 7), ps)
add_peer false id addr ps = (ok tt, joined id addr ps)

abbrev pub raft : Raft (List Peer)
raft = record {
  get_configuration = λ ps. (ok ps, ps);
  remove_server = λ id ps. (ok tt, without id ps);
  add_voter = λ id addr ps. add_peer (taken id addr ps) id addr ps;
  leader = λ ps. "";
}

unfoldable pub configures : Configures (List Peer) raft
configures = record {
  view = λ ps. ps;
  gets_view = λ ps. refl;
  removes = λ id ps. (refl, refl);
  adds = λ id addr ps a t. rw t (refl, refl);
  refuses = λ id addr ps t. rw t ((foreign 7, refl), refl);
}

abbrev first_peer : Peer
first_peer = record { id = "a"; address = "host:1" }

join-taken_example :
    ((e : Error) × ((join raft "b" "host:1" (first_peer ∷ [])).0 ≡ err e))
    × (taken "b" "host:1" (join raft "b" "host:1" (first_peer ∷ [])).1 ≡ true)
unfolding configures
join-taken_example = join-taken (List Peer) raft configures "b" "host:1" (first_peer ∷ []) refl refl

get_servers-join_example :
    ((xs : List Server) × ((get_servers raft (join raft "b" "host:2" (first_peer ∷ [])).1).0
        ≡ ok xs)
      × (lists "b" "host:2" xs ≡ true))
    × ((xs : List Server) × ((get_servers raft
            (leave raft "b" (join raft "b" "host:2" (first_peer ∷ [])).1).1).0
          ≡ ok xs)
        × (mentions "b" xs ≡ false))
    × ((leave raft "b" (join raft "b" "host:2" (first_peer ∷ [])).1).1 ≡ first_peer ∷ [])
unfolding configures
get_servers-join_example =
    get_servers-join (List Peer) raft configures "b" "host:2" (first_peer ∷ []) refl refl

abbrev new_conn : Conn
new_conn = record { incoming = []; outgoing = []; broken = none; wrap = plain }

abbrev layer : StreamLayer
layer = record { server_tls = true; peer_tls = true }

accept-dial_example :
    (is_raft (1 ∷ 9 ∷ []) ≡ true)
    × (accept layer (ok (record new_conn { incoming = 1 ∷ 9 ∷ [] }))
        ≡ ok (record new_conn { incoming = 9 ∷ []; wrap = tls_server }))
unfolding dial
accept-dial_example =
    accept-dial layer layer new_conn (record new_conn { incoming = 1 ∷ 9 ∷ [] })
      (record new_conn { outgoing = 1 ∷ []; wrap = tls_client }) (9 ∷ []) refl refl refl

abbrev handler : Handler (List String)
handler = record {
  join = λ name addr s. (ok tt, s ++ (name ∷ []));
  leave = λ name s. (err (foreign 8), s);
}

abbrev member : String → Member
member name = record { name = name; rpc_addr = "host:1" }

abbrev events : List Event
events = member_join (member "a" ∷ member "b" ∷ []) ∷ (member_leave (member "b" ∷ []) ∷ [])

abbrev idle : World (List String)
idle = record { state = []; logged = [] }

event_handler-calls_example :
    (event_handler handler "a" events idle ≡ run handler (calls "a" events) idle)
    × All (IsRemote "a") (calls "a" events)
event_handler-calls_example = event_handler-calls (List String) handler "a" events idle

abbrev pub certs : Certs ℕ ℕ
certs = record { load_key_pair = λ c k. ok 1; read_file = λ f. ok []; parse_pool = λ b. some 2 }

abbrev pub server_config : TlsConfig
server_config = record {
  cert_file = "server.pem";
  key_file = "server-key.pem";
  ca_file = "ca.pem";
  server_address = "127.0.0.1";
  server = true;
}

abbrev pub server_tls : Tls ℕ ℕ
server_tls = record {
  certificates = 1 ∷ [];
  client_cas = some 2;
  root_cas = none;
  require_client = true;
  server_name = "127.0.0.1";
}

abbrev flags : Viper
flags = record {
  get_string = λ name. "";
  get_int = λ name. 8400;
  get_bool = λ name. true;
  get_string_slice = λ name. none;
}
