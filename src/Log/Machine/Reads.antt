-- ===== src/Log/Machine/Reads.antt =====
-- Read keeps the directory in step with the segments (internal/log/log.go).
use proglog.Base.{
  ℕ, zero, suc, ◌≡◌, refl, ap, sym, ◌∙◌, List, [], ◌∷◌, Option, none, some, arith, length, All,
  sub64,
}
use proglog.Api.{Libs}
use proglog.Index
use proglog.Index.{Index}
use proglog.Segment
use proglog.Segment.{Segment, Config}
use proglog.Log.{Log, read, on_at, last_match}
use proglog.Log.Saved.{IsMapped, bases}
use proglog.Log.Stored.{Stored}

Index-read : (n : ℕ) (i : Index) → (Index.read n i).1 ≡ i
unfolding Index.read
Index-read n i = ground arith

Segment-read :
    (libs : Libs) (off : ℕ) (s : Segment)
    → ((Segment.read libs off s).1.base_offset ≡ s.base_offset)
      × ((Segment.read libs off s).1.index ≡ s.index)
      × ((Segment.read libs off s).1.config ≡ s.config)
unfolding Segment.read
Segment-read libs off s = ground (arith, Index-read (sub64 off s.base_offset) s.index)

on_at-bases :
    (libs : Libs) (off i : ℕ) (ss : List Segment)
    → bases (on_at i (Segment.read libs off) ss).1 ≡ bases ss
unfolding on_at
on_at-bases libs off i [] = refl
on_at-bases libs off zero (s ∷ ss) = ap (λ b. b ∷ bases ss) (Segment-read libs off s).0
on_at-bases libs off (suc i) (s ∷ ss) = ap (λ bs. s.base_offset ∷ bs) (on_at-bases libs off i ss)

on_at-IsMapped :
    (libs : Libs) (off i : ℕ) (ss : List Segment)
    → All IsMapped ss
    → All IsMapped (on_at i (Segment.read libs off) ss).1
unfolding on_at
on_at-IsMapped libs off i [] h = tt
on_at-IsMapped libs off zero (s ∷ ss) (h, hs) =
    let (_, index, config) = Segment-read libs off s in
    (
      ap (λ (x : Index). length x.mmap) index
          ∙ h
          ∙ ap (λ (c : Config). c.max_index_bytes) (sym config),
      hs,
    )
on_at-IsMapped libs off (suc i) (s ∷ ss) (h, hs) = (h, on_at-IsMapped libs off i ss hs)

matched :
    (libs : Libs) (off i : ℕ) (l : Log)
    → Stored l
    → Stored (record l { segments = (on_at i (Segment.read libs off) l.segments).1 })
matched libs off i l s =
    let same = on_at-bases libs off i l.segments in
    record {
      names = rw same s.names;
      present = rw same s.present;
      rising = rw same s.rising;
      mapped = on_at-IsMapped libs off i l.segments s.mapped;
    }

by_match :
    (libs : Libs) (off : ℕ) (l : Log) (m : Option ℕ)
    → last_match off l.segments ≡ m
    → Stored l
    → Stored (read libs off l).1
unfolding read
by_match libs off l none e s = rw (e, read) s
by_match libs off l (some i) e s = rw (e, read) (matched libs off i l s)

pub read-Stored : (libs : Libs) (off : ℕ) (l : Log) → Stored l → Stored (read libs off l).1
read-Stored libs off l s = by_match libs off l (last_match off l.segments) refl s
