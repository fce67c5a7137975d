-- ===== src/Log.antt =====
-- internal/log/log.go: the log as a list of segments.
-- A method holds the lock from its start to its end, so it is one step on the log.
pub mod Chain
pub mod ReadBack
pub mod Grow
pub mod Refine
pub mod Create
pub mod Reset
pub mod Truncate
pub mod Shrinks
pub mod TruncateLaws
pub mod Truncated
pub mod Emptied
pub mod Saved
pub mod Files
pub mod Reopened
pub mod Stored
pub mod Restart
pub mod Durable
pub mod Crashed
pub mod Killed
pub mod AtEnd
pub mod Bounds
pub mod Machine
pub mod Reader
use proglog.Base.{
  ℕ, zero, suc, ◌+◌, ◌-◌, List, [], ◌∷◌, ◌++◌, map, Option, none, some, Bool, true, false, ltb, leb,
  ◌==◌, ◌&&◌, add64, if◌then◌else◌,
}
use proglog.Base.Exec.{
  Error, panic, offset_out_of_range, Result, ok, err, Exec, pure, raise, lift, gets, modify, zoom,
  ◌>>=◌, ◌>>◌,
}
use proglog.Api.{Record, Libs}
use proglog.Disk
use proglog.Disk.{Disk, Name}
use proglog.Segment
use proglog.Segment.{Segment, Config, OnDisk}

-- `activeSegment` points to the last of `segments`, to a segment that has left the list, or is nil.
pub data Active : Type 0 where
  unset newest : Active
  detached : Segment → Active

pub record Log : Type 0 where
  pub disk : Disk
  pub config : Config
  pub active : Active
  pub segments : List Segment

-- An action on the last segment of the list.
unfoldable pub on_last {ℓ} : {A : Type ℓ} → Exec Segment A → Exec (List Segment) A
on_last m [] = (err panic, [])
on_last m (s ∷ []) = let (r, s') = m s in (r, s' ∷ [])
on_last m (s ∷ t ∷ ss) = let (r, ss') = on_last m (t ∷ ss) in (r, s ∷ ss')

-- An action on the segment at a place.
unfoldable pub on_at {ℓ} : {A : Type ℓ} → ℕ → Exec Segment A → Exec (List Segment) A
on_at i m [] = (err panic, [])
on_at zero m (s ∷ ss) = let (r, s') = m s in (r, s' ∷ ss)
on_at (suc i) m (s ∷ ss) = let (r, ss') = on_at i m ss in (r, s ∷ ss')

abbrev pub on_segments {ℓ} : {A : Type ℓ} → Exec (List Segment) A → Exec Log A
on_segments = zoom (λ (l : Log). l.segments) (λ ss l. record l { segments = ss })

abbrev pub on_active_at {ℓ} : {A : Type ℓ} → Active → Exec Segment A → Exec Log A
on_active_at unset m l = (err panic, l)
on_active_at newest m l = on_segments (on_last m) l
on_active_at (detached s) m l = let (r, s') = m s in (r, record l { active = detached s' })

-- A use of l.activeSegment.
abbrev pub on_active {ℓ} : {A : Type ℓ} → Exec Segment A → Exec Log A
on_active m l = on_active_at l.active m l

-- (*Log).newSegment
unfoldable pub new_segment : Libs → ℕ → Exec Log (Unit {0})
new_segment libs off = do
  c ← gets (λ (l : Log). l.config)
  s ← zoom (λ (l : Log). l.disk) (λ d l. record l { disk = d }) (Segment.new_segment libs off c)
  modify (λ l. record l { segments = l.segments ++ (s ∷ []); active = newest })

-- sort.Slice on the offsets.
unfoldable pub insert_sorted : ℕ → List ℕ → List ℕ
insert_sorted a [] = a ∷ []
insert_sorted a (b ∷ bs) = if leb a b then a ∷ (b ∷ bs) else b ∷ insert_sorted a bs

unfoldable pub sort : List ℕ → List ℕ
sort [] = []
sort (a ∷ as') = insert_sorted a (sort as')

-- The loop over the sorted offsets of the files: each offset stands there twice, for the store and
-- for the index, and the second is skipped.
unfoldable pub open_all : Libs → List ℕ → Exec Log (Unit {0})
open_all libs [] = pure tt
open_all libs (b ∷ []) = new_segment libs b
open_all libs (b ∷ _ ∷ bs) = new_segment libs b >> open_all libs bs

abbrev pub open_initial : Libs → List Segment → Exec Log (Unit {0})
open_initial libs [] l = new_segment libs l.config.initial_offset l
open_initial libs (_ ∷ _) l = (ok tt, l)

-- setup
unfoldable pub setup : Libs → Exec Log (Unit {0})
setup libs = do
  files ← (λ (l : Log). (Disk.read_dir l.disk, l))
  open_all libs (sort (map (λ (n : Name). n.stem) files))
  segments ← gets (λ (l : Log). l.segments)
  open_initial libs segments

abbrev pub default_bytes : ℕ → ℕ
default_bytes n = if n == 0 then 1024 else n

abbrev pub with_defaults : Config → Config
with_defaults c = record c {
  max_store_bytes = default_bytes c.max_store_bytes;
  max_index_bytes = default_bytes c.max_index_bytes;
}

-- NewLog: the log is returned beside the error.
unfoldable pub new_log : Libs → Disk → Config → Result (Unit {0}) × Log
new_log libs d c =
    setup libs (record { disk = d; config = with_defaults c; active = unset; segments = [] })

-- Append; the offset that the code returns beside an error of newSegment is not kept: no caller reads
-- it.
unfoldable pub append : Libs → Option Record → Exec Log ℕ
append libs r = do
  off ← on_active (Segment.append libs r)
  maxed ← on_active (gets Segment.is_maxed)
  if maxed then (new_segment libs (add64 off 1) >> pure off) else pure off

abbrev pub covers : ℕ → Segment → Bool
covers off s = leb s.base_offset off && ltb off s.next_offset

-- The loop of Read: the last segment that has the offset.
unfoldable pub last_match : ℕ → List Segment → Option ℕ
last_match off [] = none
last_match off (s ∷ ss) = elim (last_match off ss) [
  | some i ↦ some (suc i)
  | none ↦ if covers off s then some 0 else none
]

-- Read; the second test of the code, `s.nextOffset <= off`, never holds of a segment that the loop
-- chose.
unfoldable pub read : Libs → ℕ → Exec Log Record
read libs off l = elim (last_match off l.segments) [
  | none ↦ (err (offset_out_of_range off), l)
  | some i ↦ on_segments (on_at i (Segment.read libs off)) l
]

pub record Segments : Type 0 where
  pub segments : List Segment
  pub disk : Disk

abbrev pub put_first {ℓ} : {A : Type ℓ} → Segment → Result A × Segments → Result A × Segments
put_first s (r, o) = (r, record o { segments = s ∷ o.segments })

-- The loop of Close.
unfoldable pub close_each : Libs → List Segment → Disk → Result (Unit {0}) × Segments
close_each libs [] d = (ok tt, record { segments = []; disk = d })
close_each libs (s ∷ ss) d =
    let (r, o) = Segment.close_files libs (record { segment = s; disk = d }) in
    let rest = put_first o.segment (close_each libs ss o.disk) in
    elim r [ err e ↦ (err e, record { segments = o.segment ∷ ss; disk = o.disk }) | ok _ ↦ rest ]

-- Close
unfoldable pub close : Libs → Exec Log (Unit {0})
close libs l =
    let (r, o) = close_each libs l.segments l.disk in
    (r, record l { segments = o.segments; disk = o.disk })

-- Remove
unfoldable pub remove : Libs → Exec Log (Unit {0})
remove libs = do
  close libs
  zoom (λ (l : Log). l.disk) (λ d l. record l { disk = d }) Disk.remove_all

-- Reset
unfoldable pub reset : Libs → Exec Log (Unit {0})
reset libs = do remove libs; setup libs

-- LowestOffset and HighestOffset
abbrev pub first_base : List Segment → Result ℕ
first_base [] = err panic
first_base (s ∷ _) = ok s.base_offset

unfoldable pub lowest_offset : Log → Result ℕ
lowest_offset l = first_base l.segments

unfoldable pub last_next : List Segment → Result ℕ
last_next [] = err panic
last_next (s ∷ []) = ok s.next_offset
last_next (s ∷ t ∷ ss) = last_next (t ∷ ss)

abbrev pub before : Result ℕ → Result ℕ
before (err e) = err e
before (ok off) = if off == 0 then ok 0 else ok (off - 1)

unfoldable pub highest_offset : Log → Result ℕ
highest_offset l = before (last_next l.segments)
