-- ===== src/Auth.antt =====
-- internal/auth/authorizer.go: access control by a casbin enforcer, which is a parameter.
use proglog.Base.{Bool, true, false}
use proglog.Base.Exec.{Result, ok, err, permission_denied}
use Prim.Native.String.{String}

-- casbin's Enforce: whether the subject may do the action on the object.
abbrev pub Enforce : Type 0
Enforce = String → String → String → Result Bool

abbrev pub decide : String → String → Result Bool → Result (Unit {0})
decide subject action (err e) = err e
decide subject action (ok false) = err (permission_denied subject action)
decide subject action (ok true) = ok tt

-- Authorize
unfoldable pub authorize : Enforce → String → String → String → Result (Unit {0})
authorize enforce subject object action = decide subject action (enforce subject object action)
