-- ===== src/Distributed/Replicate.antt =====
-- Append of the replicated log (internal/log/distributed.go), over what Raft promises its leader.
use proglog.Base.{ℕ, ◌+◌, ◌<◌, ◌^◌, ◌≡◌, refl, ◌∙◌, ap, List, [], ◌∷◌, ◌++◌, some, arith, length}
use proglog.Base.Exec.{Result, ok}
use proglog.Api.{Record, Libs, Reliable, Fits}
use proglog.Segment.Layout.{Payload}
use proglog.Log
use proglog.Log.{Log}
use proglog.Log.Refine.{Holds, append-Holds}
use proglog.Distributed.{
  Codec, RaftApply, Response, produced, fsm_apply, apply, append, append_request_type,
}
use proglog.Distributed.Replicas.{Faithful, fsm_apply-append, respond-ok}

-- The future of raft.Apply on a leader with a quorum: the command was committed and applied to the
-- server's log, and the response is what the state machine returned.
pub record Commits (libs : Libs) (codec : Codec) (S : Type 0) (raft : RaftApply S) : Type 1 where
  pub Leads : S → Type 0
  pub log_of : S → Log
  pub answers :
      (b : List ℕ) (s : S)
      → Leads s
      → ((raft b s).0 ≡ (fsm_apply libs codec b (log_of s)).0)
        × (log_of (raft b s).1 ≡ (fsm_apply libs codec b (log_of s)).1)

module _ (libs : Libs) (reliable : Reliable libs) (codec : Codec) (faithful : Faithful codec)
    (S : Type 0) (raft : RaftApply S) (commits : Commits libs codec S raft) where
  append_answered :
      (r : Record) (b : List ℕ) (s : S) (off : ℕ)
      → codec.marshal_request (record { value = some r }) ≡ ok b
      → (raft (append_request_type ∷ b) s).0 ≡ ok (produced (record { offset = off }))
      → append codec raft (some r) s ≡ (ok off, (raft (append_request_type ∷ b) s).1)
  unfolding append apply
  append_answered r b s off m e = ground (arith, m, e)

  -- Append of a record that Marshal accepts, on a leader whose commands Raft commits, returns the
  -- offset behind the last record of the server's log, and the log then has the record there.
  pub append-replicated :
      (s : S) (first : ℕ) (qs : List Payload) (r : Record) (b : List ℕ) (p : Payload)
      → commits.Leads s
      → Holds (commits.log_of s) first qs
      → Fits r
      → codec.marshal_request (record { value = some r }) ≡ ok b
      → libs.marshal (record r { offset = first + length qs }) ≡ ok p
      → length p < 2 ^ 48
      → first + length qs + 1 < 2 ^ 63
      → ((append codec raft (some r) s).0 ≡ ok (first + length qs))
        × Holds (commits.log_of (append codec raft (some r) s).1) first (qs ++ (p ∷ []))
  append-replicated s first qs r b p leads h fits m m' small top =
      let (result, holds) =
        append-Holds libs reliable (commits.log_of s) first qs h r p m' small top in
      let (response, log) = commits.answers (append_request_type ∷ b) s leads in
      let ran =
        fsm_apply-append libs reliable codec faithful r b (commits.log_of s) fits m
        ∙ respond-ok libs reliable codec faithful (first + length qs)
            (Log.append libs (some r) (commits.log_of s)) result in
      rw
        (append_answered r b s (first + length qs) m
          (response ∙ ap (λ (x : Result Response × Log). x.0) ran))
        (refl, rw (log ∙ ap (λ (x : Result Response × Log). x.1) ran) holds)
