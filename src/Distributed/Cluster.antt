-- ===== src/Distributed/Cluster.antt =====
-- Join, Leave and GetServers (internal/log/distributed.go): the servers of Raft's configuration.
pub mod Members
pub mod Join
pub mod Listed
use proglog.Base.{
  ℕ, ◌≡◌, refl, ◌∙◌, ap, List, [], ◌∷◌, ◌++◌, map, Bool, true, false, not, ◌&&◌, ◌||◌, arith,
  Bool-cases, inl, inr, if◌then◌else◌,
}
use proglog.Base.Exec.{Error, Result, ok, err, Exec, pure, gets, ◌>>=◌, ◌>>◌}
use proglog.Api.{Server}
use text.Mathlib.Text.{◌==◌ as str_eq}
use Prim.Native.String.{String}

-- raft.Server
pub record Peer : Type 0 where
  pub id : String
  pub address : String

-- The calls of a *raft.Raft, on the state of the cluster.
pub record Raft (S : Type 0) : Type 0 where
  pub get_configuration : Exec S (List Peer)
  pub remove_server : String → Exec S (Unit {0})
  pub add_voter : String → String → Exec S (Unit {0})
  pub leader : S → String

abbrev pub same_id : String → Peer → Bool
same_id id p = str_eq p.id id

abbrev pub same_address : String → Peer → Bool
same_address addr p = str_eq p.address addr

-- The loop of Join, and AddVoter behind it.
unfoldable pub join_each : {S : Type 0} → Raft S → String → String → List Peer → Exec S (Unit {0})
join_each raft id addr [] s = raft.add_voter id addr s
join_each raft id addr (p ∷ ps) s =
    let rest = join_each raft id addr ps in
    if same_id id p || same_address addr p
    then (if same_id id p && same_address addr p
        then (ok tt, s)
        else (raft.remove_server id >> rest) s)
    else rest s

-- Join
unfoldable pub join : {S : Type 0} → Raft S → String → String → Exec S (Unit {0})
join raft id addr = do servers ← raft.get_configuration; join_each raft id addr servers

-- Leave
unfoldable pub leave : {S : Type 0} → Raft S → String → Exec S (Unit {0})
leave raft id = raft.remove_server id

-- GetServers
unfoldable pub get_servers : {S : Type 0} → Raft S → Exec S (List Server)
get_servers raft = do
  servers ← raft.get_configuration
  leader ← gets raft.leader
  pure (
      map
        (λ (p : Peer). record {
          id = p.id;
          rpc_addr = p.address;
          is_leader = str_eq leader p.address;
        })
        servers)
