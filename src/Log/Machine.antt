-- ===== src/Log/Machine.antt =====
-- A log (internal/log/log.go) that serves a sequence of calls, over restarts.
pub mod Spec
pub mod Reads
pub mod Decodes
pub mod Refines
pub mod Runs
use proglog.Base.{ℕ, List, [], ◌∷◌, some}
use proglog.Base.Exec.{Result, ok, err}
use proglog.Api.{Record, Libs}
use proglog.Log
use proglog.Log.{Log}
use proglog.Log.Truncate.{truncate}

-- The calls; `restarts` is Close and NewLog of the same directory, with the same configuration.
pub data Call : Type 0 where
  appends : Record → Call
  reads : ℕ → Call
  truncates : ℕ → Call
  lowest highest restarts : Call

-- What a call returns.
pub data Answer : Type 0 where
  offset : Result ℕ → Answer
  found : Result Record → Answer
  done : Result (Unit {0}) → Answer

-- NewLog is not reached where Close fails.
abbrev pub reopened : Libs → Log → Result (Unit {0}) × Log → Result (Unit {0}) × Log
reopened libs l (err e, m) = (err e, m)
reopened libs l (ok _, m) = Log.new_log libs m.disk l.config

unfoldable pub restart : Libs → Log → Result (Unit {0}) × Log
restart libs l = reopened libs l (Log.close libs l)

unfoldable pub step : Libs → Call → Log → Answer × Log
step libs (appends r) l = let (x, l') = Log.append libs (some r) l in (offset x, l')
step libs (reads off) l = let (x, l') = Log.read libs off l in (found x, l')
step libs (truncates low) l = let (x, l') = truncate libs low l in (done x, l')
step libs lowest l = (offset (Log.lowest_offset l), l)
step libs highest l = (offset (Log.highest_offset l), l)
step libs restarts l = let (x, l') = restart libs l in (done x, l')

unfoldable pub run : Libs → List Call → Log → List Answer × Log
run libs [] l = ([], l)
run libs (c ∷ cs) l = let (a, l') = step libs c l in let (as', m) = run libs cs l' in (a ∷ as', m)
