-- ===== src/Server/Access.antt =====
-- What the authorizer decides, before the log is touched.
use proglog.Base.{◌≡◌, List, [], ◌∷◌, some, false, arith}
use proglog.Base.Exec.{Result, ok, err, permission_denied}
use proglog.Api.{ProduceRequest}
use proglog.Auth.{Enforce, authorize}
use proglog.Server.{
  Config, Round, End, failed, allow, subject, produce, produce_stream, produce_action,
  object_wildcard,
}
use Prim.Native.String.{String}

-- The server's configuration has internal/auth's authorizer over `enforce`.
abbrev pub UsesAcl : Config → Enforce → Type 0
UsesAcl config enforce =
    (name object action : String)
    → config.authorize name object action ≡ authorize enforce name object action

module _ (config : Config) (enforce : Enforce) (acl : UsesAcl config enforce) (name : String) where
  allow-denied :
      (action : String)
      → enforce name object_wildcard action ≡ ok false
      → allow config (some name) action ≡ err (permission_denied name action)
  unfolding allow subject authorize
  allow-denied action h = ground (arith, acl name object_wildcard action, h)

  -- How ProduceStream ends on the first round: with the error of the stream, or with that of Produce.
  abbrev pub refused : Result ProduceRequest → End
  refused (err e) = failed e
  refused (ok req) = failed (permission_denied name produce_action)

  -- A subject without the permission to produce cannot change the log: Produce answers
  -- PermissionDenied, and ProduceStream ends in its first round, whatever rounds would follow: at a
  -- message with that error, and where Recv fails with Recv's. It sends no response, and both leave
  -- the log as it is.
  pub produce-denied :
      (req : ProduceRequest) (t : Round) (ts : List Round) (l : config.Log)
      → enforce name object_wildcard produce_action ≡ ok false
      → (produce config (some name) req l ≡ (err (permission_denied name produce_action), l))
        × (produce_stream config (some name) (t ∷ ts) l
            ≡ record { end = refused t.received; sent = []; log = l })
  unfolding produce_stream produce
  produce-denied req t ts l h = ground (arith, allow-denied produce_action h)
