-- ===== src/Distributed/Persist/Nothing.antt =====
-- What Persist (internal/log/distributed.go) writes of a log that only Append has written to.
use proglog.Base.{ℕ, ◌+◌, ◌≡◌, refl, List, [], ◌∷◌, ◌++◌, ◌<◌, ◌^◌, some, none, arith, length, drop}
use proglog.Base.Exec.{ok}
use proglog.Io.Position.{IsAtEnd}
use proglog.Segment.{Segment, Config}
use proglog.Segment.Layout.{Payload}
use proglog.Api.{Record, Libs, Reliable}
use proglog.Log.{Log, append}
use proglog.Log.Chain.{Chain}
use proglog.Log.Refine.{Holds, append-Holds}
use proglog.Log.Refine.AtEnd.{append-AllAtEnd}
use proglog.Log.Reader.{Sink, closed}
use proglog.Log.AtEnd.{AllAtEnd}
use proglog.Distributed.Persist.{Passing, write_to, copy_files, Saving, persist}

drop-length : (xs : List ℕ) → drop (length xs) xs ≡ []
drop-length [] = refl
drop-length (x ∷ xs) = drop-length xs

write_to-IsAtEnd : (c : Passing) → c.file.fault ≡ none → IsAtEnd c.file → write_to c ≡ (ok tt, c)
unfolding write_to
write_to-IsAtEnd c h e = rw (h, e, drop-length c.file.bytes) refl

copy_files-AllAtEnd :
    (c : Config) (first : ℕ) (ss : List Segment) (qs : List Payload) (k : Sink)
    → Chain c first ss qs
    → AllAtEnd ss
    → copy_files ss k ≡ (ok tt, record { segments = ss; sink = k })
unfolding copy_files
copy_files-AllAtEnd c first [] qs k h e = refl
copy_files-AllAtEnd c first (s ∷ ss) qs k (ps, rest, _, l, h) (e, es) =
    let passed =
      write_to-IsAtEnd (record { file = s.store.buf.file; sink = k }) l.holds.store.wrote.healthy
        e in
    ground (arith, passed, copy_files-AllAtEnd c (first + length ps) ss rest k h es)

-- Persist of a log in its invariant whose files stand at their ends, to a sink that takes the
-- writes: it succeeds, and closes the sink, without a byte of the log.
persist-AllAtEnd :
    (w : Saving) (first : ℕ) (qs : List Payload)
    → Holds w.log first qs
    → AllAtEnd w.log.segments
    → w.sink.fault ≡ none
    → persist w ≡ (ok tt, record w { sink = record w.sink { end = closed } })
unfolding persist
persist-AllAtEnd w first qs h e f =
    rw (copy_files-AllAtEnd w.log.config first w.log.segments qs w.sink h.chain e, f) refl

-- A snapshot misses what was appended. Append of a record that Marshal accepts, with a payload
-- below 2 ^ 48 bytes and an offset below 2 ^ 63, to a log in its invariant whose files stand at
-- their ends, succeeds; Persist of a snapshot that is then taken, to a sink that takes the writes,
-- succeeds too, and closes the sink without having written a byte.
pub persist-append :
    (libs : Libs) (reliable : Reliable libs) (l : Log) (first : ℕ) (qs : List Payload) (r : Record)
    (p : Payload) (k : Sink)
    → Holds l first qs
    → AllAtEnd l.segments
    → libs.marshal (record r { offset = first + length qs }) ≡ ok p
    → length p < 2 ^ 48
    → first + length qs + 1 < 2 ^ 63
    → k.fault ≡ none
    → ((append libs (some r) l).0 ≡ ok (first + length qs))
      × (persist (record { log = (append libs (some r) l).1; sink = k })
          ≡ (ok tt, record { log = (append libs (some r) l).1; sink = record k { end = closed } }))
persist-append libs reliable l first qs r p k h e m small top f =
    let (okay, holds) = append-Holds libs reliable l first qs h r p m small top in
    let ends = append-AllAtEnd libs reliable l first qs h r p m small top e in
    (
      okay,
      persist-AllAtEnd (record { log = (append libs (some r) l).1; sink = k }) first
          (qs ++ (p ∷ [])) holds ends f,
    )
