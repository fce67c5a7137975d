-- ===== src/Membership.antt =====
-- internal/discovery/membership.go: serf's events become calls of a handler.
pub mod Calls
pub mod Setup
use proglog.Base.{List, [], ◌∷◌, Bool, true, false, if◌then◌else◌, ◌==◌}
use proglog.Base.Exec.{Error, foreign, Result, ok, err, Exec}
use text.Mathlib.Text.{◌==◌ as str_eq}
use Prim.Native.String.{String}

-- serf.Member: the name, and the tag "rpc_addr".
pub record Member : Type 0 where
  pub name : String
  pub rpc_addr : String

-- serf.Event; `other` is an event of any other type.
pub data Event : Type 0 where
  member_join member_leave member_failed : List Member → Event
  other : Event

-- discovery.Handler
pub record Handler (S : Type 0) : Type 0 where
  pub join : String → String → Exec S (Unit {0})
  pub leave : String → Exec S (Unit {0})

-- The method of the logger that logError calls; `foreign 5` is raft.ErrNotLeader.
pub data Level : Type 0 where
  debug_level error_level : Level

abbrev pub level_of : Error → Level
level_of (foreign n) = if n == 5 then debug_level else error_level
level_of e = error_level

-- What logError writes of a failed call.
pub record Entry : Type 0 where
  pub level : Level
  pub error : Error
  pub message : String
  pub member : Member

pub record World (S : Type 0) : Type 0 where
  pub state : S
  pub logged : List Entry

-- The log, newest entry first.
abbrev pub log_error : {S : Type 0} → String → Member → List Entry → Result (Unit {0}) × S → World S
log_error message m es (ok _, s) = record { state = s; logged = es }
log_error message m es (err e, s) = record {
  state = s;
  logged = record { level = level_of e; error = e; message = message; member = m } ∷ es;
}

unfoldable pub handle_join : {S : Type 0} → Handler S → Member → World S → World S
handle_join handler m w =
    log_error "failed to join" m w.logged (handler.join m.name m.rpc_addr w.state)

unfoldable pub handle_leave : {S : Type 0} → Handler S → Member → World S → World S
handle_leave handler m w = log_error "failed to leave" m w.logged (handler.leave m.name w.state)

abbrev pub is_local : String → Member → Bool
is_local local m = str_eq local m.name

-- The loop over the members that join.
unfoldable pub join_members : {S : Type 0} → Handler S → String → List Member → World S → World S
join_members handler local [] w = w
join_members handler local (m ∷ ms) w =
    join_members handler local ms (if is_local local m then w else handle_join handler m w)

-- The loop over the members that leave. It returns from the whole handler at the local member:
-- the Boolean says whether it goes on.
unfoldable pub leave_members :
    {S : Type 0} → Handler S → String → List Member → World S → Bool × World S
leave_members handler local [] w = (true, w)
leave_members handler local (m ∷ ms) w =
    let rest = leave_members handler local ms (handle_leave handler m w) in
    if is_local local m then (false, w) else rest

abbrev pub go_on : {S : Type 0} → (World S → World S) → Bool × World S → World S
go_on rest (true, w) = rest w
go_on rest (false, w) = w

-- eventHandler, on the events that come in before the channel is closed.
unfoldable pub event_handler : {S : Type 0} → Handler S → String → List Event → World S → World S
event_handler handler local [] w = w
event_handler handler local (member_join ms ∷ es) w =
    event_handler handler local es (join_members handler local ms w)
event_handler handler local (member_leave ms ∷ es) w =
    go_on (event_handler handler local es) (leave_members handler local ms w)
event_handler handler local (member_failed ms ∷ es) w =
    go_on (event_handler handler local es) (leave_members handler local ms w)
event_handler handler local (other ∷ es) w = event_handler handler local es w
