-- ===== src/Distributed/Replay.antt =====
-- A server that starts again: NewDistributedLog (internal/log/distributed.go) opens the log that it
-- left, and Raft hands the committed commands behind the last snapshot to the state machine again.
use proglog.Base.{
  ℕ, suc, ◌+◌, ◌-◌, ◌≡◌, refl, ap, ◌∙◌, List, [], ◌∷◌, ◌++◌, some, arith, length, length-append,
}
use proglog.Base.Exec.{Result, ok}
use proglog.Api.{Libs, Reliable}
use proglog.Segment.Layout.{Payload}
use proglog.Log
use proglog.Log.{Log, highest_offset}
use proglog.Log.Bounds.{lowest-highest}
use proglog.Log.Refine.{Holds, append-Holds}
use proglog.Log.Refine.Files.{append-Stored}
use proglog.Log.Restart.{new_log-close}
use proglog.Log.Stored.{Stored}
use proglog.Distributed.{Codec, append_request_type}
use proglog.Distributed.Replicas.{
  Faithful, Commands, done, then_append, apply_all, apply_all-Holds, offsets, fsm_apply-append,
  respond-ok, apply_step,
}

-- What a server has after the commands, and after it was closed and opened again.
abbrev pub applied : Libs → Codec → List (List ℕ) → Log → Log
applied libs codec bs l = (apply_all libs codec bs l).1

abbrev pub opened_again : Libs → Log → Result (Unit {0}) × Log
opened_again libs l = Log.new_log libs (Log.close libs l).1.disk l.config

module _ (libs : Libs) (reliable : Reliable libs) (codec : Codec) (faithful : Faithful codec) where
  apply_all-Stored :
      (l : Log) (first : ℕ) (qs : List Payload) (bs : List (List ℕ)) (ps : List Payload)
      → Holds l first qs
      → Commands libs codec (first + length qs) bs ps
      → Stored l
      → Stored (apply_all libs codec bs l).1
  unfolding apply_all
  apply_all-Stored l first qs [] ps h (done next) d = d
  apply_all-Stored l first qs (_ ∷ bs) [] h s d = elim s [ ]
  apply_all-Stored l first qs (_ ∷ bs) (_ ∷ ps) h (then_append _ r b p _ _ fits m m' small top rest)
        d =
      let (result, holds) = append-Holds libs reliable l first qs h r p m' small top in
      let stored = append-Stored libs reliable l first qs h r p m' small top d in
      let count : first + length (qs ++ (p ∷ [])) ≡ first + length qs + 1 =
        omega (arith, length-append qs (p ∷ [])) in
      let (okay, _) =
        apply_all-Holds libs reliable codec faithful (Log.append libs (some r) l).1 first
          (qs ++ (p ∷ [])) bs ps holds (rw count rest) in
      let all =
        apply_all-Stored (Log.append libs (some r) l).1 first (qs ++ (p ∷ [])) bs ps holds
          (rw count rest) stored in
      let step =
        fsm_apply-append libs reliable codec faithful r b l fits m
        ∙ respond-ok libs reliable codec faithful (first + length qs) (Log.append libs (some r) l)
            result in
      rw
        (apply_step libs reliable codec faithful (append_request_type ∷ b) bs l _ _
          (offsets (first + length qs + 1) ps) step (rw count at okay))
        all

  Commands-length :
      (next : ℕ) (bs : List (List ℕ)) (ps : List Payload)
      → Commands libs codec next bs ps
      → length ps ≡ length bs
  Commands-length next [] ps (done _) = refl
  Commands-length next (_ ∷ bs) [] s = elim s [ ]
  Commands-length next (_ ∷ bs) (_ ∷ ps) (then_append _ r b p _ _ fits m m' small top rest) =
      ap suc (Commands-length (next + 1) bs ps rest)

  -- A server with an empty log has applied commands, each to append a record that Marshal accepts, and
  -- closes its log. NewLog of the next process succeeds, and its log has all their records. Where Raft, as it has no
  -- snapshot, then hands it the same commands again, it takes none of them as known: it appends each
  -- record a second time, at a further offset, and in the end its log has twice the records that
  -- that of a server has which went on.
  pub apply_all-opened_again :
      (l : Log) (first : ℕ) (bs : List (List ℕ)) (ps more : List Payload)
      → Holds l first []
      → Stored l
      → Commands libs codec first bs ps
      → Commands libs codec (first + length bs) bs more
      → (highest_offset (applied libs codec bs l) ≡ ok (first + length bs - 1))
        × ((opened_again libs (applied libs codec bs l)).0 ≡ ok tt)
        × Holds (opened_again libs (applied libs codec bs l)).1 first ps
        × ((apply_all libs codec bs (opened_again libs (applied libs codec bs l)).1).0
            ≡ ok (offsets (first + length bs) more))
        × Holds
            (applied libs codec bs (opened_again libs (applied libs codec bs l)).1)
            first
            (ps ++ more)
        × (highest_offset (applied libs codec bs (opened_again libs (applied libs codec bs l)).1)
            ≡ ok (first + length bs + length bs - 1))
  apply_all-opened_again l first bs ps more h d s s' =
      let at : first ≡ first + 0 = omega arith in
      let size : length ps ≡ length bs = Commands-length first bs ps s in
      let size' : length more ≡ length bs = Commands-length (first + length bs) bs more s' in
      let sent : Commands libs codec (first + 0) bs ps = rw at at s in
      let (_, holds) = apply_all-Holds libs reliable codec faithful l first [] bs ps h sent in
      let stored = apply_all-Stored l first [] bs ps h sent d in
      let (_, opens, again, _) =
        new_log-close libs reliable (applied libs codec bs l) first ps holds stored in
      let (answers, twice) =
        apply_all-Holds libs reliable codec faithful (opened_again libs (applied libs codec bs l)).1
          first ps bs more again (rw (← size) at s') in
      let count : length (ps ++ more) ≡ length bs + length bs =
        omega (arith, length-append ps more, size, size') in
      (
        (lowest-highest (applied libs codec bs l) first ps holds).1
            ∙ ap (λ n. ok (first + n - 1)) size,
        opens,
        again,
        answers ∙ ap (λ n. ok (offsets (first + n) more)) size,
        twice,
        (lowest-highest (applied libs codec bs (opened_again libs (applied libs codec bs l)).1)
              first (ps ++ more) twice).1
            ∙ ap (λ n. ok (n - 1)) (omega (arith, count)),
      )
