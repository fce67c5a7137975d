-- ===== src/Examples/LogRuns.antt =====
-- The log of internal/log, run on the concrete libraries.
use proglog.Base.{ℕ, ◌≡◌, refl, [], ◌∷◌, some, none, arith, length, true}
use proglog.Base.Exec.{ok}
use proglog.Bytes.{put_uint64, put_uint32, get_be}
use proglog.Api.{Record}
use proglog.Io
use proglog.Io.{opened}
use proglog.Disk
use proglog.Disk.{Disk}
use proglog.Store
use proglog.Store.{Store}
use proglog.Index
use proglog.Segment
use proglog.Segment.{Config}
use proglog.Log
use proglog.Log.{Log}
use proglog.Log.Refine.{Holds, append-Holds}
use proglog.Log.Create.{new_log-Holds, read-append}
use proglog.Segment.Layout.{Payload}
use proglog.Base.{get_elem?, zero, suc}
use proglog.Examples.Codec.{decode-encode, libs, reliable, encode_record, decode_record}

abbrev pub config : Config
config = record { max_store_bytes = 64; max_index_bytes = 36; initial_offset = 5 }

abbrev pub disk : Disk
disk = record { exists = true; fault = none; files = [] }

abbrev pub hello : Record
hello = record { value = b'h' ∷ b'i' ∷ []; offset = 0; term = 1; kind = 0 }

abbrev pub start : Log
start = (Log.new_log libs disk config).1

pub start-Holds : Holds start 5 []
start-Holds =
    (new_log-Holds libs reliable disk config (record { exists = refl; healthy = refl }) refl
      (omega arith) (omega arith)).1

abbrev pub payload : ℕ → Payload
payload off = encode_record (record hello { offset = off })

append-Holds_example :
    ((Log.append libs (some hello) start).0 ≡ ok 5)
    × Holds (Log.append libs (some hello) start).1 5 (payload 5 ∷ [])
unfolding encode_record put_uint64 put_uint32
append-Holds_example =
    append-Holds libs reliable start 5 [] start-Holds hello (payload 5) refl (omega arith)
      (omega arith)

abbrev pub one : Log
one = (Log.append libs (some hello) start).1

pub one-Holds : Holds one 5 (payload 5 ∷ [])
unfolding encode_record put_uint64 put_uint32
one-Holds =
    (append-Holds libs reliable start 5 [] start-Holds hello (payload 5) refl (omega arith)
      (omega arith)).1

read-append_example :
    ((Log.append libs (some hello) one).0 ≡ ok 6)
    × ((Log.read libs 6 (Log.append libs (some hello) one).1).0 ≡ ok (record hello { offset = 6 }))
unfolding encode_record put_uint64 put_uint32
read-append_example =
    read-append libs reliable one 5 (payload 5 ∷ []) hello (payload 6) 1 one-Holds refl
      (omega arith) (omega arith) (omega arith)

-- Four records make a second segment, and each is read back.
abbrev push : Log → Log
push l = (Log.append libs (some hello) l).1

abbrev pub four : Log
four = push (push (push one))

read-four :
    (length four.segments ≡ 2)
    × ((Log.read libs 5 four).0 ≡ ok (record hello { offset = 5 }))
    × ((Log.read libs 8 four).0 ≡ ok (record hello { offset = 8 }))
    × (Log.highest_offset four ≡ ok 8)
unfolding Log.append Log.read Log.new_log Log.setup Log.open_all Log.sort Log.new_segment
    Log.on_last Log.on_at Log.last_match Log.highest_offset Log.last_next Segment.new_segment
    Segment.append Segment.read Segment.is_maxed Store.append Store.read Store.new_store Index.read
    Index.write Index.is_maxed Index.new_index Index.slice Index.put_slice Io.write Io.write_over
    Io.write_out Io.write_rest Io.flush Io.read_at Io.truncate Io.stat Disk.open_file Disk.find
    Disk.update Disk.write_back Disk.read_dir encode_record decode_record put_uint64 put_uint32
    get_be
read-four = (refl, refl, refl, refl)

pub decode_payload :
    (k : ℕ) (p : Payload)
    → get_elem? (payload 5 ∷ []) k ≡ some p
    → (r : Record) × (libs.unmarshal p ≡ ok r)
decode_payload zero p g =
    let e : payload 5 ≡ p = cc in
    (
      record hello { offset = 5 },
      rw (← e) (decode-encode (record hello { offset = 5 }) (omega arith)),
    )
decode_payload (suc k) p g = cc

pub four-Holds : Holds four 5 (payload 5 ∷ payload 6 ∷ payload 7 ∷ payload 8 ∷ [])
unfolding encode_record put_uint64 put_uint32
four-Holds =
    let two =
      append-Holds libs reliable one 5 (payload 5 ∷ []) one-Holds hello (payload 6) refl
        (omega arith) (omega arith) in
    let three =
      append-Holds libs reliable (push one) 5 (payload 5 ∷ payload 6 ∷ []) two.1 hello (payload 7)
        refl (omega arith) (omega arith) in
    (append-Holds libs reliable (push (push one)) 5 (payload 5 ∷ payload 6 ∷ payload 7 ∷ []) three.1
      hello (payload 8) refl (omega arith) (omega arith)).1
