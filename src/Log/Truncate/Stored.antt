-- ===== src/Log/Truncate/Stored.antt =====
-- Truncate (internal/log/log.go) succeeds on a log with its files in the directory, and keeps the
-- directory in step with the segments.
use proglog.Base.{
  ℕ, ◌+◌, ◌<◌, ◌≤◌, ◌^◌, ◌≡◌, refl, ap, ◌∙◌, List, [], ◌∷◌, arith, length, All, true, false,
  Bool-cases, inl, inr,
}
use proglog.Base.Exec.{ok, err, panic}
use proglog.Api.{Libs, Reliable}
use proglog.Disk.{Disk}
use proglog.Segment
use proglog.Segment.{Segment, Config}
use proglog.Segment.Layout.{Payload}
use proglog.Segment.Create.{Works}
use proglog.Segment.Files.{stems, HasFiles}
use proglog.Log.{Log, sort, lowest_offset, highest_offset}
use proglog.Log.Chain.{Chain}
use proglog.Log.Refine.{Holds}
use proglog.Log.Saved.{IsMapped, Rising, bases}
use proglog.Log.Reopened.{doubled}
use proglog.Log.Stored.{Stored}
use proglog.Log.Truncate.{goes, truncate, truncate_each, active_after, dropping, keeping}
use proglog.Log.Truncate.Removed.{Gone, names-Gone, HasFiles-Gone, remove-Gone}
use proglog.Log.TruncateLaws.{keep_all}
use proglog.Log.Truncated.{Truncated, truncate-Holds, finish-ok}
use proglog.Log.Emptied.{truncate-empties}

-- The directory has the two files of each of these segments, and no others.
pub record Tidy (ss : List Segment) (d : Disk) : Type 0 where
  pub names : sort (stems d.files) ≡ doubled (bases ss)
  pub present : All (HasFiles d.files) (bases ss)
  pub rising : Rising (bases ss)
  pub mapped : All IsMapped ss

rest_present :
    (base : ℕ) (bs : List ℕ) (d e : Disk)
    → Gone base d e
    → All (λ x. base < x) bs
    → All (HasFiles d.files) bs
    → All (HasFiles e.files) bs
rest_present base [] d e g r h = tt
rest_present base (b ∷ bs) d e g (r, rs) (h, hs) =
    (HasFiles-Gone base b d e g (inr r) h, rest_present base bs d e g rs hs)

module _ (libs : Libs) (reliable : Reliable libs) (c : Config) (lowest : ℕ)
    (small : lowest + 1 < 2 ^ 64) where
  goes_next :
      (s : Segment) (ss : List Segment) (d : Disk)
      → goes lowest s ≡ true
      → (Segment.remove libs (record { segment = s; disk = d })).0 ≡ ok tt
      → truncate_each libs lowest (s ∷ ss) d
        ≡ dropping (Segment.remove libs (record { segment = s; disk = d })).1.segment (
            truncate_each libs lowest ss
              (Segment.remove libs (record { segment = s; disk = d })).1.disk)
  unfolding truncate_each
  goes_next s ss d g okay = ground (arith, g, okay)

  stays_next :
      (s : Segment) (ss : List Segment) (d : Disk)
      → goes lowest s ≡ false
      → truncate_each libs lowest (s ∷ ss) d ≡ keeping s (truncate_each libs lowest ss d)
  unfolding truncate_each
  stays_next s ss d g = ground (arith, g)

  truncate_each-Tidy :
      (first : ℕ) (ss : List Segment) (qs : List Payload) (d : Disk)
      → Chain c first ss qs
      → Works d
      → Tidy ss d
      → ((truncate_each libs lowest ss d).0 ≡ ok tt)
        × Tidy (truncate_each libs lowest ss d).1.kept (truncate_each libs lowest ss d).1.disk
  truncate_each-Tidy first [] qs d h w t = unfold truncate_each in (refl, t)
  truncate_each-Tidy first (s ∷ ss) qs d (ps, rest, e, l, h) w t =
      elim (Bool-cases (goes lowest s)) [
        | inl g ↦
            let (okay, gone) = remove-Gone s ps d w t.present.0 libs reliable l.holds in
            let left : Disk = (Segment.remove libs (record { segment = s; disk = d })).1.disk in
            rw (goes_next s ss d g okay) (
              truncate_each-Tidy (first + length ps) ss rest left h gone.works (record {
                names = names-Gone s.base_offset d left (doubled (bases ss)) gone t.names;
                present = rest_present s.base_offset (bases ss) d left gone t.rising.0 t.present.1;
                rising = t.rising.1;
                mapped = t.mapped.1;
              }))
        | inr g ↦
            let over : lowest + 1 < first + length ps = ground (arith, l.base, l.holds.next) in
            let (same, _) = keep_all libs c (first + length ps) lowest ss rest d h over in
            rw (stays_next s ss d g, same) (refl, t)
      ]

module _ (libs : Libs) (reliable : Reliable libs) (l : Log) (first lowest : ℕ) (qs : List Payload)
    (h : Holds l first qs) (stored : Stored l) (small : lowest + 1 < 2 ^ 64) where
  tidied :
      ((truncate_each libs lowest l.segments l.disk).0 ≡ ok tt)
      × Tidy
          (truncate_each libs lowest l.segments l.disk).1.kept
          (truncate_each libs lowest l.segments l.disk).1.disk
  tidied =
      truncate_each-Tidy libs reliable l.config lowest small first l.segments qs l.disk h.chain
        h.works
        (record {
          names = stored.names;
          present = stored.present;
          rising = stored.rising;
          mapped = stored.mapped;
        })

  truncate-ok : (truncate libs lowest l).0 ≡ ok tt
  unfolding truncate
  truncate-ok = rw (tidied.0) refl

  truncate-finished : truncate libs lowest l ≡ (
    ok tt,
    record l {
      segments = (truncate_each libs lowest l.segments l.disk).1.kept;
      disk = (truncate_each libs lowest l.segments l.disk).1.disk;
      active = active_after lowest (truncate_each libs lowest l.segments l.disk).1.all l.active;
    },
  )
  unfolding truncate
  truncate-finished =
      (finish-ok lowest l (truncate_each libs lowest l.segments l.disk) (truncate-ok)).1

  truncate-Stored : Stored (truncate libs lowest l).1
  truncate-Stored =
      let t = tidied.1 in
      rw truncate-finished
        (record { names = t.names; present = t.present; rising = t.rising; mapped = t.mapped })

  -- Truncate below the last offset, on a log in its invariant with its files in the directory,
  -- succeeds. It drops from the front records that all lie at or below the offset, keeps exactly
  -- the segments whose next offset is more than one above it, keeps the invariant, and leaves the
  -- two files of each segment in the directory, and no others.
  pub truncate-above :
      lowest + 1 < first + length qs
      → ((truncate libs lowest l).0 ≡ ok tt)
        × Truncated lowest first qs l (truncate libs lowest l).1
        × Stored (truncate libs lowest l).1
  truncate-above b =
      (truncate-ok, truncate-Holds libs l first lowest qs h small b truncate-ok, truncate-Stored)

  -- Truncate at or above the last offset, but below 2 ^ 64 - 1, on such a log, succeeds too, and
  -- leaves no segment, and no file. LowestOffset and HighestOffset then panic: they index the empty
  -- list.
  pub truncate-all :
      first + length qs ≤ lowest + 1
      → ((truncate libs lowest l).0 ≡ ok tt)
        × ((truncate libs lowest l).1.segments ≡ [])
        × (sort (stems (truncate libs lowest l).1.disk.files) ≡ [])
        × (lowest_offset (truncate libs lowest l).1 ≡ err panic)
        × (highest_offset (truncate libs lowest l).1 ≡ err panic)
  truncate-all b =
      let (empty, low, high) = truncate-empties libs l first lowest qs h small b truncate-ok in
      (truncate-ok, empty, truncate-Stored.names ∙ ap (λ ss. doubled (bases ss)) empty, low, high)
