-- ===== src/Examples/RestartRuns.antt =====
-- The log of internal/log over Close and NewLog, and its snapshots, run on the concrete libraries.
use proglog.Base.{◌≡◌, refl, List, [], ◌∷◌, ◌++◌, some, none, arith, length, ◌+◌, ◌<◌, ◌^◌}
use proglog.Base.Exec.{ok}
use proglog.Bytes.{put_uint64, put_uint32}
use proglog.Segment.Layout.{Payload}
use proglog.Log
use proglog.Log.{Log}
use proglog.Log.Refine.{Holds, append-Holds}
use proglog.Log.Refine.Files.{append-Stored}
use proglog.Log.Create.Files.{new_log-Stored}
use proglog.Log.Stored.{Stored}
use proglog.Log.Restart.{new_log-close}
use proglog.Segment.Crashed.{Fails}
use proglog.Log.Crashed.{appended}
use proglog.Log.Killed.{killed, append-killed}
use proglog.Log.Durable.{read-new_log}
use proglog.Log.Create.Files.{new_log-AllAtEnd}
use proglog.Log.AtEnd.{AllAtEnd}
use proglog.Log.Reader.{copy_all, closed}
use proglog.Log.Reader.Drained.{Drained, copy_all-Drained}
use proglog.Distributed.Persist.{persist}
use proglog.Distributed.Persist.Nothing.{persist-append}
use proglog.Log.Reader.{Sink, writing}
use proglog.Examples.Codec.{libs, reliable, encode_record}
use proglog.Examples.LogRuns.{
  config, disk, hello, payload, start, start-Holds, one, one-Holds, four, four-Holds,
}

abbrev empty_sink : Sink
empty_sink = record { written = []; fault = none; end = writing }

start-Stored : Stored start
start-Stored =
    new_log-Stored libs reliable disk config (record { exists = refl; healthy = refl }) refl
      (omega arith)

abbrev push : Log → Log
push l = (Log.append libs (some hello) l).1

-- A further record, in step with the directory.
push-Holds :
    (l : Log) (qs : List Payload) (p : Payload)
    → Holds l 5 qs × Stored l
    → libs.marshal (record hello { offset = 5 + length qs }) ≡ ok p
    → length p < 2 ^ 48
    → 5 + length qs + 1 < 2 ^ 63
    → Holds (push l) 5 (qs ++ (p ∷ [])) × Stored (push l)
push-Holds l qs p (h, s) m small top = (
  (append-Holds libs reliable l 5 qs h hello p m small top).1,
  append-Stored libs reliable l 5 qs h hello p m small top s,
)

one-Stored : Stored one
unfolding encode_record put_uint64 put_uint32
one-Stored =
    (push-Holds start [] (payload 5) (start-Holds, start-Stored) refl (omega arith) (omega arith)).1

-- Four records lie in two segments.
pub four-Stored : Stored four
unfolding encode_record put_uint64 put_uint32
four-Stored =
    let two =
      push-Holds one (payload 5 ∷ []) (payload 6) (one-Holds, one-Stored) refl (omega arith)
        (omega arith) in
    let three =
      push-Holds (push one) (payload 5 ∷ payload 6 ∷ []) (payload 7) two refl (omega arith)
        (omega arith) in
    (push-Holds (push (push one)) (payload 5 ∷ payload 6 ∷ payload 7 ∷ []) (payload 8) three refl
      (omega arith) (omega arith)).1

new_log-close_example :
    ((Log.close libs four).0 ≡ ok tt)
    × ((Log.new_log libs (Log.close libs four).1.disk four.config).0 ≡ ok tt)
    × Holds
        (Log.new_log libs (Log.close libs four).1.disk four.config).1
        5
        (payload 5 ∷ payload 6 ∷ payload 7 ∷ payload 8 ∷ [])
    × Stored (Log.new_log libs (Log.close libs four).1.disk four.config).1
new_log-close_example =
    new_log-close libs reliable four 5 (payload 5 ∷ payload 6 ∷ payload 7 ∷ payload 8 ∷ [])
      four-Holds four-Stored

read-new_log_example :
    ((Log.close libs (push one)).0 ≡ ok tt)
    × ((Log.read libs 6 (Log.new_log libs (Log.close libs (push one)).1.disk (push one).config).1).0
        ≡ ok (record hello { offset = 6 }))
unfolding encode_record put_uint64 put_uint32
read-new_log_example =
    read-new_log libs reliable one 5 (payload 5 ∷ []) hello (payload 6) one-Holds one-Stored refl
      (omega arith) (omega arith) (omega arith)

start-AllAtEnd : AllAtEnd start.segments
start-AllAtEnd =
    new_log-AllAtEnd libs reliable disk config (record { exists = refl; healthy = refl }) refl
      (omega arith)

persist-append_example :
    ((Log.append libs (some hello) start).0 ≡ ok 5)
    × (persist (record { log = one; sink = empty_sink })
        ≡ (ok tt, record { log = one; sink = record empty_sink { end = closed } }))
unfolding encode_record put_uint64 put_uint32
persist-append_example =
    persist-append libs reliable start 5 [] hello (payload 5) empty_sink start-Holds start-AllAtEnd
      refl (omega arith) (omega arith) refl

copy_all-Drained_example :
    Drained four.config 5 four.segments
      (payload 5 ∷ payload 6 ∷ payload 7 ∷ payload 8 ∷ [])
      empty_sink
      (copy_all four.segments empty_sink)
copy_all-Drained_example =
    copy_all-Drained four.config 5 four.segments
      (payload 5 ∷ payload 6 ∷ payload 7 ∷ payload 8 ∷ []) empty_sink four-Holds.chain refl

append-killed_example :
    ((Log.new_log libs (killed four.segments four.disk) four.config).0 ≡ ok tt)
    × Fails
        (Log.append libs (some hello) (
          appended libs
            (some hello ∷ [])
            (Log.new_log libs (killed four.segments four.disk) four.config).1)).0
append-killed_example =
    append-killed libs reliable four 5 (payload 5 ∷ payload 6 ∷ payload 7 ∷ payload 8 ∷ [])
      (some hello ∷ []) (some hello) four-Holds four-Stored
