-- ===== src/Distributed.antt =====
-- internal/log/distributed.go: the log that Raft replicates. The Raft library is a parameter; the
-- state machine that it drives, the store in which it keeps its own log, and the changes of the
-- cluster are modelled.
pub mod LogStore
pub mod DeleteRange
pub mod Bounds
pub mod Setup
pub mod Replicas
pub mod Replay
pub mod Replicate
pub mod StreamLayer
pub mod Snapshot
pub mod Persist
pub mod Cluster
use proglog.Base.{
  ℕ, zero, suc, ◌≡◌, List, [], ◌∷◌, Option, none, some, Bool, true, false, ◌==◌, if◌then◌else◌,
}
use proglog.Base.Exec.{
  Error, panic, Result, ok, err, Exec, pure, raise, zoom, foreign, lift, gets, modify, ◌>>=◌, ◌>>◌,
}
use proglog.Api.{Record, ProduceRequest, ProduceResponse, Libs}
use text.Mathlib.Text.{◌==◌ as str_eq}
use Prim.Native.String.{String}
use proglog.Log
use proglog.Log.{Log}

-- proto.Marshal and proto.Unmarshal at the one type of command.
pub record Codec : Type 0 where
  pub marshal_request : ProduceRequest → Result (List ℕ)
  pub unmarshal_request : List ℕ → Result ProduceRequest

abbrev pub append_request_type : ℕ
append_request_type = 0

-- What (*fsm).Apply returns as an interface{}: nil, an error, or a response.
pub data Response : Type 0 where
  nothing : Response
  failure : Error → Response
  produced : ProduceResponse → Response

-- A panic of Append passes through Apply; an error becomes its response.
abbrev pub respond : Result ℕ × Log → Result Response × Log
respond (ok off, l) = (ok (produced (record { offset = off })), l)
respond (err panic, l) = (err panic, l)
respond (err e, l) = (ok (failure e), l)

-- (*fsm).applyAppend
unfoldable pub apply_append : Libs → Codec → List ℕ → Exec Log Response
apply_append libs codec b l = elim (codec.unmarshal_request b) [
  | err e ↦ (ok (failure e), l)
  | ok req ↦ respond (Log.append libs req.value l)
]

-- (*fsm).Apply; indexing an empty command panics.
unfoldable pub fsm_apply : Libs → Codec → List ℕ → Exec Log Response
fsm_apply libs codec [] l = (err panic, l)
fsm_apply libs codec (kind ∷ b) l =
    if kind == append_request_type then apply_append libs codec b l else (ok nothing, l)

-- The bytes of a command: the type, then the request.
abbrev pub with_type : Result (List ℕ) → Result (List ℕ)
with_type (err e) = err e
with_type (ok b) = ok (append_request_type ∷ b)

abbrev pub command : Codec → ProduceRequest → Result (List ℕ)
command codec req = with_type (codec.marshal_request req)

-- raft.Apply and its future: the error, or what the state machine returned. `S` is the state of
-- the cluster.
abbrev pub RaftApply : Type 0 → Type 0
RaftApply S = List ℕ → Exec S Response

-- A response that is an error is returned as the error.
abbrev pub unwrap {ℓ} : {S : Type ℓ} → Response → Exec S Response
unwrap (failure e) = raise e
unwrap other = pure other

-- (*DistributedLog).apply
unfoldable pub apply : {S : Type 0} → Codec → RaftApply S → ProduceRequest → Exec S Response
apply codec raft req = do b ← lift (command codec req); res ← raft b; unwrap res

-- The type assertion of Append panics on a response of another type.
abbrev pub produced_offset {ℓ} : {S : Type ℓ} → Response → Exec S ℕ
produced_offset (produced res) = pure res.offset
produced_offset other = raise panic

-- (*DistributedLog).Append
unfoldable pub append : {S : Type 0} → Codec → RaftApply S → Option Record → Exec S ℕ
append codec raft r = do res ← apply codec raft (record { value = r }); produced_offset res

-- Where a server's own log lies in the state of the cluster.
pub record Node (S : Type 0) : Type 0 where
  pub log_of : S → Log
  pub put_log : Log → S → S

-- (*DistributedLog).Read: the server's own log.
unfoldable pub read : {S : Type 0} → Libs → Node S → ℕ → Exec S Record
read libs node offset = zoom node.log_of node.put_log (Log.read libs offset)

-- (*DistributedLog).Close: the log stays open where Raft's shutdown fails.
unfoldable pub close : {S : Type 0} → Libs → Node S → Exec S (Unit {0}) → Exec S (Unit {0})
close libs node shutdown = do shutdown; zoom node.log_of node.put_log (Log.close libs)

-- What the loop of WaitForLeader wakes up for: the time-out, or a tick, with what raft.Leader says.
pub data Wake : Type 0 where
  timed_out : Wake
  tick : String → Wake

-- The error that fmt.Errorf makes of the time-out.
abbrev pub not_elected : Error
not_elected = foreign 4

-- (*DistributedLog).WaitForLeader, on what it wakes up for; `none` where it still waits.
unfoldable pub wait_for_leader : List Wake → Option (Result (Unit {0}))
wait_for_leader [] = none
wait_for_leader (timed_out ∷ ws) = some (err not_elected)
wait_for_leader (tick leader ∷ ws) =
    let rest = wait_for_leader ws in if str_eq leader "" then rest else some (ok tt)
