-- ===== src/Examples/ReplicaRuns.antt =====
-- Raft's state machine and log store (internal/log/distributed.go), on the concrete libraries.
use proglog.Base.{ℕ, ◌≡◌, ◌≢◌, refl, List, [], ◌∷◌, some, none, Option, arith, ap, ◌++◌, ◌⊎◌, ◌<◌}
use proglog.Base.Exec.{Result, ok, err}
use proglog.Bytes.{put_uint64, put_uint32}
use proglog.Api.{Record, ProduceRequest}
use proglog.Log
use proglog.Log.{Log, highest_offset}
use proglog.Log.Stored.{Stored}
use proglog.Log.Create.Files.{new_log-Stored}
use proglog.Distributed.Replay.{applied, opened_again, apply_all-opened_again}
use proglog.Log.Refine.{Holds}
use proglog.Log.Create.{new_log-Holds}
use proglog.Segment.{Config}
use proglog.Server.OverLog.{record_at}
use proglog.Distributed
use proglog.Distributed.{Codec, RaftApply, Response, fsm_apply, append_request_type}
use proglog.Distributed.Replicas.{
  Faithful, Commands, done, then_append, apply_all, offsets, replicas_agree, replica_lags,
}
use proglog.Distributed.Replicate.{Commits, append-replicated}
use proglog.Distributed.LogStore.{RaftLog, Storable, store_logs, get_log, get_log-store_logs}
use proglog.Distributed.Snapshot.{restore, restore-ne-ok}
use proglog.Examples.Codec.{libs, reliable, encode_record, decode_record, decode-encode}
use proglog.Examples.LogRuns.{config, disk, start, start-Holds, one, one-Holds, hello, payload}

-- A request is its record's bytes behind a one, or nothing.
abbrev request_bytes : Option Record → List ℕ
request_bytes none = []
request_bytes (some r) = 1 ∷ encode_record r

abbrev request_of : Result Record → Result ProduceRequest
request_of (err e) = err e
request_of (ok r) = ok (record { value = some r })

abbrev parse_request : List ℕ → Result ProduceRequest
parse_request [] = ok (record { value = none })
parse_request (_ ∷ b) = request_of (decode_record b)

abbrev pub codec : Codec
codec = record {
  marshal_request = λ q. ok (request_bytes q.value);
  unmarshal_request = parse_request;
}

pub faithful : Faithful codec
faithful = record {
  unmarshal-marshal = λ r b fits m.
      let e : 1 ∷ encode_record r ≡ b = cc in rw (← e) (ap request_of (decode-encode r fits));
}

abbrev hello_command : List ℕ
hello_command = append_request_type ∷ 1 ∷ encode_record hello

two-Commands :
    Commands libs codec 5 (hello_command ∷ hello_command ∷ []) (payload 5 ∷ payload 6 ∷ [])
unfolding encode_record put_uint64 put_uint32
two-Commands =
    then_append 5 hello (1 ∷ encode_record hello) (payload 5) _ _ (omega arith) refl refl
      (omega arith) (omega arith)
      (then_append 6 hello (1 ∷ encode_record hello) (payload 6) _ _ (omega arith) refl refl
        (omega arith) (omega arith) (done 7))

-- A second server, whose segments are larger.
abbrev wide : Config
wide = record { max_store_bytes = 1024; max_index_bytes = 120; initial_offset = 5 }

wide_start-Holds : Holds (Log.new_log libs disk wide).1 5 []
wide_start-Holds =
    (new_log-Holds libs reliable disk wide (record { exists = refl; healthy = refl }) refl
      (omega arith) (omega arith)).1

replicas_agree_example :
    ((apply_all libs codec (hello_command ∷ hello_command ∷ []) start).0
      ≡ (apply_all libs codec
          (hello_command ∷ hello_command ∷ [])
          (Log.new_log libs disk wide).1).0)
    × (record_at libs (apply_all libs codec (hello_command ∷ hello_command ∷ []) start).1 6
        ≡ record_at libs
            (apply_all libs codec
              (hello_command ∷ hello_command ∷ [])
              (Log.new_log libs disk wide).1).1
            6)
replicas_agree_example =
    replicas_agree libs reliable codec faithful start (Log.new_log libs disk wide).1 5 []
      (hello_command ∷ hello_command ∷ []) (payload 5 ∷ payload 6 ∷ []) 6 start-Holds
      wide_start-Holds two-Commands

-- The second server has applied the first command only.
replica_lags_example :
    ((rs : List Response) × (more : List Response) × ((apply_all libs codec
          (hello_command ∷ [])
          (Log.new_log libs disk wide).1).0
        ≡ ok rs)
      × ((apply_all libs codec (hello_command ∷ hello_command ∷ []) start).0 ≡ ok (rs ++ more)))
    × ((record_at libs
            (apply_all libs codec (hello_command ∷ []) (Log.new_log libs disk wide).1).1
            5
          ≡ none)
        ⊎ ((5 < 6)
            × (record_at libs
                  (apply_all libs codec (hello_command ∷ []) (Log.new_log libs disk wide).1).1
                  5
                ≡ record_at libs
                    (apply_all libs codec (hello_command ∷ hello_command ∷ []) start).1
                    5)))
replica_lags_example =
    replica_lags libs reliable codec faithful start (Log.new_log libs disk wide).1 5 []
      (hello_command ∷ []) (hello_command ∷ []) (payload 5 ∷ payload 6 ∷ []) 5 start-Holds
      wide_start-Holds two-Commands

start-Stored : Stored start
start-Stored =
    new_log-Stored libs reliable disk config (record { exists = refl; healthy = refl }) refl
      (omega arith)

replayed-Commands :
    Commands libs codec 7 (hello_command ∷ hello_command ∷ []) (payload 7 ∷ payload 8 ∷ [])
unfolding encode_record put_uint64 put_uint32
replayed-Commands =
    then_append 7 hello (1 ∷ encode_record hello) (payload 7) _ _ (omega arith) refl refl
      (omega arith) (omega arith)
      (then_append 8 hello (1 ∷ encode_record hello) (payload 8) _ _ (omega arith) refl refl
        (omega arith) (omega arith) (done 9))

abbrev both : List (List ℕ)
both = hello_command ∷ hello_command ∷ []

-- Two commands, and the same two again after a restart: four records.
apply_all-opened_again_example :
    (highest_offset (applied libs codec both start) ≡ ok 6)
    × ((opened_again libs (applied libs codec both start)).0 ≡ ok tt)
    × Holds (opened_again libs (applied libs codec both start)).1 5 (payload 5 ∷ payload 6 ∷ [])
    × ((apply_all libs codec both (opened_again libs (applied libs codec both start)).1).0
        ≡ ok (offsets 7 (payload 7 ∷ payload 8 ∷ [])))
    × Holds
        (applied libs codec both (opened_again libs (applied libs codec both start)).1)
        5
        (payload 5 ∷ payload 6 ∷ payload 7 ∷ payload 8 ∷ [])
    × (highest_offset
          (applied libs codec both (opened_again libs (applied libs codec both start)).1)
        ≡ ok 8)
apply_all-opened_again_example =
    apply_all-opened_again libs reliable codec faithful start 5 both (payload 5 ∷ payload 6 ∷ [])
      (payload 7 ∷ payload 8 ∷ []) start-Holds start-Stored two-Commands replayed-Commands

-- A cluster of one server: Raft applies each command to it at once.
abbrev pub alone : RaftApply Log
alone b l = fsm_apply libs codec b l

unfoldable pub commits : Commits libs codec Log alone
commits = record { Leads = λ l. Unit {0}; log_of = λ l. l; answers = λ b l u. (refl, refl) }

append-replicated_example :
    ((Distributed.append codec alone (some hello) one).0 ≡ ok 6)
    × Holds (Distributed.append codec alone (some hello) one).1 5 (payload 5 ∷ payload 6 ∷ [])
unfolding encode_record put_uint64 put_uint32 commits
append-replicated_example =
    append-replicated libs reliable codec faithful Log alone commits one 5 (payload 5 ∷ []) hello
      (1 ∷ encode_record hello) (payload 6) tt one-Holds (omega arith) refl refl (omega arith)
      (omega arith)

abbrev entry : ℕ → RaftLog
entry i = record {
  content = b'h' ∷ b'i' ∷ [];
  index = i;
  kind = 0;
  term = 1;
  extensions = [];
  appended_at = 0;
}

-- An entry with extensions, which are not stored.
abbrev extended : RaftLog
extended = record (entry 7) { extensions = 9 ∷ [] }

two_entries : Storable libs 6 (entry 6 ∷ extended ∷ [])
unfolding encode_record put_uint64 put_uint32
two_entries = (
  refl,
  omega arith,
  (payload 6, refl, omega arith),
  omega arith,
  (refl, omega arith, (payload 7, refl, omega arith), omega arith, tt),
)

get_log-store_logs_example :
    ((store_logs libs (entry 6 ∷ extended ∷ []) one).0 ≡ ok tt)
    × ((get_log libs 7 (entry 0) (store_logs libs (entry 6 ∷ extended ∷ []) one).1).0
        ≡ ok (entry 7))
get_log-store_logs_example =
    get_log-store_logs libs reliable one 5 (payload 5 ∷ []) (entry 6 ∷ extended ∷ []) 1 extended
      (entry 0) one-Holds two_entries refl (omega arith)

restore-ne-ok_example : (restore libs (1 ∷ []) one).0 ≢ ok tt
restore-ne-ok_example = restore-ne-ok libs (1 ∷ []) one (λ e. cc)
