-- ===== src/Resolver/Connect.antt =====
-- Build and Close of internal/loadbalance/resolver.go: the resolver's own connection to a server.
use proglog.Base.{Bool}
use proglog.Base.Exec.{Error, Result, ok, err, Exec, modify, ◌>>◌}
use proglog.Resolver.{Conns, resolve_now}
use Prim.Native.String.{String, ◌++◌ as str_append}

-- Name, which is also what Scheme returns.
abbrev pub name : String
name = "proglog"

-- The text of the service configuration that Build has parsed.
abbrev pub service_config : String
service_config = str_append "{\"loadBalancingConfig\":[{\"" (str_append name "\":{}}]}")

-- What Build and Close call: ParseServiceConfig, Println, NewClient on an endpoint with whether there
-- are credentials, Close of the connection, and the logger.
pub record Client (S : Type 0) : Type 0 where
  pub parse_service_config : String → S → S
  pub print_line : String → S → S
  pub new_client : String → Bool → Exec S (Unit {0})
  pub close : Exec S (Unit {0})
  pub log_error : String → Error → S → S

-- Build, for a target with this endpoint.
unfoldable pub connect : {S : Type 0} → Client S → Conns S → String → Bool → Exec S (Unit {0})
connect client conns endpoint has_creds = do
  modify (client.parse_service_config service_config)
  modify (client.print_line endpoint)
  client.new_client endpoint has_creds
  modify (resolve_now conns)

abbrev pub after_close : {S : Type 0} → Client S → Result (Unit {0}) × S → S
after_close client (ok _, s) = s
after_close client (err e, s) = client.log_error "failed to close conn" e s

-- Close
unfoldable pub close : {S : Type 0} → Client S → S → S
close client s = after_close client (client.close s)
