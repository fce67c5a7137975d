-- ===== src/Log/Refine/AtEnd.antt =====
-- Append leaves the stores' files at their ends (internal/log/log.go).
use proglog.Base.{ℕ, ◌+◌, ◌<◌, ◌^◌, ◌≡◌, List, some, length, Bool, true, false}
use proglog.Base.Exec.{ok, gets}
use proglog.Api.{Record, Libs, Reliable}
use proglog.Io.Position.{IsAtEnd}
use proglog.Segment
use proglog.Segment.{Segment}
use proglog.Segment.Layout.{Payload, All_snoc}
use proglog.Segment.Create.{fresh, fresh-IsAtEnd}
use proglog.Log.{Log, append, on_last}
use proglog.Log.Grow.{ask_last}
use proglog.Log.AtEnd.{AllAtEnd, on_last-AllAtEnd}
use proglog.Log.Refine.{Holds, grown, grown-room, kept, rotated, next, append-kept, append-rotated}

module _ (libs : Libs) (reliable : Reliable libs) (l : Log) (first : ℕ) (qs : List Payload)
    (h : Holds l first qs) (r : Record) (p : Payload)
    (m : libs.marshal (record r { offset = first + length qs }) ≡ ok p) (small : length p < 2 ^ 48)
    (top : first + length qs + 1 < 2 ^ 63) (ends : AllAtEnd l.segments) where
  after : List Segment
  after = grown libs reliable l first qs h r p m small top

  after-AllAtEnd : AllAtEnd after
  unfolding after grown
  after-AllAtEnd = on_last-AllAtEnd libs (some r) l.segments ends

  rotated-AllAtEnd : AllAtEnd (rotated libs reliable l first qs h r p m small top).segments
  unfolding rotated after
  rotated-AllAtEnd =
      All_snoc (λ (s : Segment). IsAtEnd s.store.buf.file) after
        (fresh libs reliable (next libs reliable l first qs h r p m small top + 1) l.config h.sound)
        after-AllAtEnd
        (fresh-IsAtEnd libs reliable (next libs reliable l first qs h r p m small top + 1) l.config
          h.sound)

  AllAtEnd-split :
      (b : Bool)
      → on_last (gets Segment.is_maxed) after ≡ (ok b, after)
      → AllAtEnd (append libs (some r) l).1.segments
  unfolding after kept
  AllAtEnd-split true e =
      rw (append-rotated libs reliable l first qs h r p m small top e) rotated-AllAtEnd
  AllAtEnd-split false e =
      rw (append-kept libs reliable l first qs h r p m small top e) after-AllAtEnd

  -- Append of a record that Marshal accepts, on a log in its invariant whose files stand at their
  -- ends, leaves them there.
  pub append-AllAtEnd : AllAtEnd (append libs (some r) l).1.segments
  append-AllAtEnd =
      let (b, e, f) =
        ask_last after (unfold after in grown-room libs reliable l first qs h r p m small top) in
      AllAtEnd-split b e
