-- ===== src/Log/Truncate.antt =====
-- Truncate (internal/log/log.go): the segments whose records all lie at or below an offset go.
pub mod Removed
pub mod Stored
use proglog.Base.{ℕ, List, [], ◌∷◌, Option, none, some, Bool, leb, add64, if◌then◌else◌}
use proglog.Base.Exec.{Result, ok, err, Exec}
use proglog.Api.{Libs}
use proglog.Disk.{Disk}
use proglog.Segment
use proglog.Segment.{Segment, OnDisk}
use proglog.Log.{Log, Active, newest, detached}

-- Where the loop stands: the segments that it keeps, all segments of the list as they are now, and
-- the directory.
pub record Cut : Type 0 where
  pub kept : List Segment
  pub all : List Segment
  pub disk : Disk

abbrev pub goes : ℕ → Segment → Bool
goes lowest s = leb s.next_offset (add64 lowest 1)

abbrev pub dropping : Segment → Result (Unit {0}) × Cut → Result (Unit {0}) × Cut
dropping s (r, c) = (r, record c { all = s ∷ c.all })

abbrev pub keeping : Segment → Result (Unit {0}) × Cut → Result (Unit {0}) × Cut
keeping s (r, c) = (r, record c { kept = s ∷ c.kept; all = s ∷ c.all })

unfoldable pub truncate_each : Libs → ℕ → List Segment → Disk → Result (Unit {0}) × Cut
truncate_each libs lowest [] d = (ok tt, record { kept = []; all = []; disk = d })
truncate_each libs lowest (s ∷ ss) d =
    let (r, o) = Segment.remove libs (record { segment = s; disk = d }) in
    let dropped = dropping o.segment (truncate_each libs lowest ss o.disk) in
    let kept = keeping s (truncate_each libs lowest ss d) in
    if goes lowest s
    then elim r [
      | err e ↦ (err e, record { kept = []; all = o.segment ∷ ss; disk = o.disk })
      | ok _ ↦ dropped
    ]
    else kept

-- The active segment is still the object that it was: if the last segment left the list, it is
-- that segment, closed.
abbrev pub last_of : List Segment → Option Segment
last_of [] = none
last_of (s ∷ []) = some s
last_of (_ ∷ t ∷ ss) = last_of (t ∷ ss)

abbrev pub newest_after : ℕ → Option Segment → Active
newest_after lowest none = newest
newest_after lowest (some s) = if goes lowest s then detached s else newest

abbrev pub active_after : ℕ → List Segment → Active → Active
active_after lowest all newest = newest_after lowest (last_of all)
active_after lowest all other = other

abbrev pub finish : ℕ → Log → Result (Unit {0}) × Cut → Result (Unit {0}) × Log
finish lowest l (err e, c) = (err e, record l { segments = c.all; disk = c.disk })
finish lowest l (ok _, c) = (
  ok tt,
  record l { segments = c.kept; disk = c.disk; active = active_after lowest c.all l.active },
)

-- Truncate
unfoldable pub truncate : Libs → ℕ → Exec Log (Unit {0})
truncate libs lowest l = finish lowest l (truncate_each libs lowest l.segments l.disk)
