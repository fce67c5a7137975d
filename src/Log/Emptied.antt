-- ===== src/Log/Emptied.antt =====
-- Truncate at or above the last offset (internal/log/log.go): every segment goes, the active one too.
use proglog.Base.{
  ℕ, ◌+◌, ◌≤◌, ◌<◌, ◌^◌, ◌≡◌, refl, ap, List, [], ◌∷◌, arith, length, length-append, true,
}
use proglog.Base.Exec.{panic, ok, err}
use proglog.Api.{Libs}
use proglog.Segment.{Segment, Config}
use proglog.Segment.Layout.{Payload}
use proglog.Disk.{Disk}
use proglog.Log.{Log, lowest_offset, highest_offset, last_next}
use proglog.Log.Chain.{Chain, Link}
use proglog.Log.Refine.{Holds}
use proglog.Log.Truncate.{truncate, truncate_each, goes}
use proglog.Log.TruncateLaws.{goes_step}
use proglog.Log.Truncated.{finish-ok}

goes_below :
    (c : Config) (first lowest : ℕ) (s : Segment) (ps : List Payload)
    → Link c first s ps
    → lowest + 1 < 2 ^ 64
    → first + length ps ≤ lowest + 1
    → goes lowest s ≡ true
goes_below c first lowest s ps l small b = ground (arith, l.base, l.holds.next)

module _ (libs : Libs) (c : Config) (lowest : ℕ) (small : lowest + 1 < 2 ^ 64) where
  truncate_each_all :
      (first : ℕ) (ss : List Segment) (qs : List Payload) (d : Disk)
      → Chain c first ss qs
      → first + length qs ≤ lowest + 1
      → (truncate_each libs lowest ss d).0 ≡ ok tt
      → (truncate_each libs lowest ss d).1.kept ≡ []
  unfolding truncate_each
  truncate_each_all first [] qs d h b okay = refl
  truncate_each_all first (s ∷ ss) qs d (ps, rest, e, l, h) b okay =
      let n : length qs ≡ length ps + length rest =
        omega (arith, ap length e, length-append ps rest) in
      let (went, eq) =
        goes_step libs c lowest small s ss d (goes_below c first lowest s ps l small (omega arith))
          okay in
      rw eq (truncate_each_all (first + length ps) ss rest _ h (omega arith) went)

-- Truncate at or above the last offset, where it succeeds, leaves no segment, and then
-- LowestOffset and HighestOffset panic: they index the empty list.
pub truncate-empties :
    (libs : Libs) (l : Log) (first lowest : ℕ) (qs : List Payload)
    → Holds l first qs
    → lowest + 1 < 2 ^ 64
    → first + length qs ≤ lowest + 1
    → (truncate libs lowest l).0 ≡ ok tt
    → ((truncate libs lowest l).1.segments ≡ [])
      × (lowest_offset (truncate libs lowest l).1 ≡ err panic)
      × (highest_offset (truncate libs lowest l).1 ≡ err panic)
unfolding truncate lowest_offset highest_offset last_next
truncate-empties libs l first lowest qs h small b okay =
    let (went, eq) = finish-ok lowest l (truncate_each libs lowest l.segments l.disk) okay in
    let none =
      truncate_each_all libs l.config lowest small first l.segments qs l.disk h.chain b went in
    rw (eq, none) (refl, refl, refl)
