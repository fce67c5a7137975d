-- ===== src/Membership/Setup.antt =====
-- setupSerf and NewMembership (internal/discovery/membership.go).
use proglog.Base.{ℕ, List, Option, some, none}
use proglog.Base.Exec.{Result, Exec, pure, lift, ◌>>=◌, ◌>>◌}
use Prim.Native.String.{String}

-- Config; `start_join_addrs` is none where the slice is nil. `rpc_addr` is the tag of this name, the
-- only one that the agent sets.
pub record Config : Type 0 where
  pub node_name : String
  pub bind_addr : String
  pub rpc_addr : String
  pub start_join_addrs : Option (List String)

-- What of it goes into serf's configuration.
pub record SerfConfig : Type 0 where
  pub node_name : String
  pub rpc_addr : String
  pub ip : String
  pub port : ℕ

-- net.ResolveTCPAddr, and serf.Create, Join and Leave of what it made.
pub record Serf (S : Type 0) : Type 0 where
  pub resolve_tcp_addr : String → Result (String × ℕ)
  pub create : SerfConfig → Exec S (Unit {0})
  pub join : List String → Exec S (Unit {0})
  pub leave : Exec S (Unit {0})

abbrev pub serf_config : Config → String × ℕ → SerfConfig
serf_config c (ip, port) = record {
  node_name = c.node_name;
  rpc_addr = c.rpc_addr;
  ip = ip;
  port = port;
}

abbrev pub join_if : {S : Type 0} → Serf S → Option (List String) → Exec S (Unit {0})
join_if serf none = pure tt
join_if serf (some addrs) = serf.join addrs

-- setupSerf; eventHandler starts behind Create.
unfoldable pub setup_serf : {S : Type 0} → Serf S → Config → Exec S (Unit {0})
setup_serf serf c = do
  addr ← lift (serf.resolve_tcp_addr c.bind_addr)
  serf.create (serf_config c addr)
  join_if serf c.start_join_addrs

-- NewMembership
unfoldable pub new_membership : {S : Type 0} → Serf S → Config → Exec S (Unit {0})
new_membership serf c = setup_serf serf c

-- Leave
unfoldable pub leave : {S : Type 0} → Serf S → Exec S (Unit {0})
leave serf = serf.leave
