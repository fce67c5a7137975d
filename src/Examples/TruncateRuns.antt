-- ===== src/Examples/TruncateRuns.antt =====
-- Truncate of a log and of Raft's log, and a log over a sequence of calls, on the concrete libraries.
use proglog.Base.{ℕ, ◌≡◌, ◌≤◌, ◌⊎◌, refl, List, [], ◌∷◌, arith}
use proglog.Base.Exec.{ok, err, panic, offset_out_of_range}
use proglog.Bytes.{put_uint64, put_uint32}
use proglog.Segment.Files.{stems}
use proglog.Segment.Layout.{Payload}
use proglog.Log
use proglog.Log.{Log}
use proglog.Log.Stored.{Stored}
use proglog.Log.Truncate.{truncate}
use proglog.Log.Truncated.{Truncated}
use proglog.Log.Truncate.Stored.{truncate-above, truncate-all}
use proglog.Log.Machine.{Call, appends, reads, truncates, lowest, highest, restarts, run}
use proglog.Log.Machine.Runs.{Served, run-Moves}
use proglog.Distributed.LogStore.{RaftLog, get_log, first_index, last_index, delete_range}
use proglog.Distributed.DeleteRange.{get_log-delete_range, get_log-delete_range_all}
use proglog.Examples.Codec.{libs, reliable, encode_record}
use proglog.Examples.LogRuns.{config, disk, hello, payload, four, four-Holds}
use proglog.Examples.RestartRuns.{four-Stored}

abbrev payloads : List Payload
payloads = payload 5 ∷ payload 6 ∷ payload 7 ∷ payload 8 ∷ []

truncate-above_example :
    ((truncate libs 7 four).0 ≡ ok tt)
    × Truncated 7 5 payloads four (truncate libs 7 four).1
    × Stored (truncate libs 7 four).1
truncate-above_example =
    truncate-above libs reliable four 5 7 payloads four-Holds four-Stored (omega arith)
      (omega arith)

truncate-all_example :
    ((truncate libs 8 four).0 ≡ ok tt)
    × ((truncate libs 8 four).1.segments ≡ [])
    × (Log.sort (stems (truncate libs 8 four).1.disk.files) ≡ [])
    × (Log.lowest_offset (truncate libs 8 four).1 ≡ err panic)
    × (Log.highest_offset (truncate libs 8 four).1 ≡ err panic)
truncate-all_example =
    truncate-all libs reliable four 5 8 payloads four-Holds four-Stored (omega arith) (omega arith)

abbrev out : RaftLog
out = record { content = []; index = 0; kind = 0; term = 0; extensions = []; appended_at = 0 }

get_log-delete_range_example :
    ((delete_range libs 5 7 four).0 ≡ ok tt)
    × ((get_log libs 8 out (delete_range libs 5 7 four).1).0 ≡ (get_log libs 8 out four).0)
    × (last_index (delete_range libs 5 7 four).1 ≡ last_index four)
    × ((low : ℕ) × (first_index (delete_range libs 5 7 four).1 ≡ ok low) × ((low ≤ 8) ⊎ (low ≡ 5)))
get_log-delete_range_example =
    get_log-delete_range libs reliable four 5 5 7 payloads four-Holds four-Stored (omega arith) 8
      out (omega arith) (omega arith)

-- The range of the last entry alone: the first one is gone too.
get_log-delete_range_all_example :
    ((delete_range libs 8 8 four).0 ≡ ok tt)
    × ((get_log libs 5 out (delete_range libs 8 8 four).1).0 ≡ err (offset_out_of_range 5))
    × (first_index (delete_range libs 8 8 four).1 ≡ err panic)
    × (last_index (delete_range libs 8 8 four).1 ≡ err panic)
get_log-delete_range_all_example =
    get_log-delete_range_all libs reliable four 5 8 8 payloads four-Holds four-Stored (omega arith)
      5 out (omega arith)

abbrev script : List Call
script =
    appends hello
    ∷ reads 5
    ∷ restarts
    ∷ appends hello
    ∷ lowest
    ∷ truncates 5
    ∷ reads 4
    ∷ highest
    ∷ []

run-Moves_example :
    ((Log.new_log libs disk config).0 ≡ ok tt)
    × Served libs
        (record { first = 5; records = [] })
        script
        (run libs script (Log.new_log libs disk config).1)
unfolding encode_record put_uint64 put_uint32
run-Moves_example =
    run-Moves libs reliable disk config script (record { exists = refl; healthy = refl }) refl
      (omega arith) (omega arith)
      (
        (payload 5, refl, omega arith),
        omega arith,
        omega arith,
        ((payload 6, refl, omega arith), omega arith, omega arith, (omega arith, omega arith, tt)),
      )
