-- ===== src/Distributed/Replicas.antt =====
-- The state machine that Raft drives (internal/log/distributed.go): the servers of a cluster apply
-- the same commands, each to its own log.
use proglog.Base.{
  ℕ, suc, ap, none, ◌⊎◌, ◌+◌, ◌<◌, ◌^◌, ◌≡◌, refl, sym, ◌∙◌, List, [], ◌∷◌, ◌++◌, some, arith,
  length, length-append, append_assoc, append-nil,
}
use proglog.Base.Exec.{Result, ok, err, Exec, pure, ◌>>=◌}
use proglog.Api.{Record, Libs, Reliable, Fits}
use proglog.Segment.Layout.{Payload}
use proglog.Log
use proglog.Log.{Log}
use proglog.Log.Refine.{Holds, append-Holds}
use proglog.Server.OverLog.{record_at, record_at-Holds, record_at-ahead}
use proglog.Distributed.{
  Codec, Response, produced, fsm_apply, apply_append, append_request_type, respond,
}

-- Unmarshal reads what Marshal wrote.
pub record Faithful (codec : Codec) : Type 0 where
  pub unmarshal-marshal :
      (r : Record) (b : List ℕ)
      → Fits r
      → codec.marshal_request (record { value = some r }) ≡ ok b
      → codec.unmarshal_request b ≡ ok (record { value = some r })

-- Raft gives each server the committed commands in order.
unfoldable pub apply_all : Libs → Codec → List (List ℕ) → Exec Log (List Response)
apply_all libs codec [] = pure []
apply_all libs codec (b ∷ bs) = do
  r ← fsm_apply libs codec b
  rs ← apply_all libs codec bs
  pure (r ∷ rs)

-- The commands are those of records that Marshal accepts, behind the offset `next`.
pub data Commands (libs : Libs) (codec : Codec) : ℕ → List (List ℕ) → List Payload → Type 0 where
  done : (next : ℕ) → Commands libs codec next [] []
  then_append :
      (next : ℕ) (r : Record) (b p : List ℕ) (bs : List (List ℕ)) (ps : List Payload)
      → Fits r
      → codec.marshal_request (record { value = some r }) ≡ ok b
      → libs.marshal (record r { offset = next }) ≡ ok p
      → length p < 2 ^ 48
      → next + 1 < 2 ^ 63
      → Commands libs codec (next + 1) bs ps
      → Commands libs codec next ((append_request_type ∷ b) ∷ bs) (p ∷ ps)

abbrev pub offsets : ℕ → List Payload → List Response
offsets next [] = []
offsets next (p ∷ ps) = produced (record { offset = next }) ∷ offsets (next + 1) ps

-- The commands of a prefix are those of a prefix of the payloads.
Commands-split :
    {libs : Libs} {codec : Codec} (next : ℕ) (bs cs : List (List ℕ)) (ps : List Payload)
    → Commands libs codec next (bs ++ cs) ps
    → (now : List Payload) × (later : List Payload) × (ps ≡ now ++ later)
      × (length now ≡ length bs)
      × Commands libs codec next bs now
Commands-split next [] cs ps s = ([], ps, refl, refl, done next)
Commands-split next (_ ∷ bs) cs [] s = elim s [ ]
Commands-split next (_ ∷ bs) cs (_ ∷ ps) (then_append _ r b p _ _ fits m m' small top rest) =
    let (now, later, e, count, sent) = Commands-split (next + 1) bs cs ps rest in
    (
      p ∷ now,
      later,
      ap (λ t. p ∷ t) e,
      ap suc count,
      then_append next r b p bs now fits m m' small top sent,
    )

offsets-append :
    (next : ℕ) (ps qs : List Payload)
    → offsets next (ps ++ qs) ≡ offsets next ps ++ offsets (next + length ps) qs
offsets-append next [] qs = let e : next + 0 ≡ next = omega arith in rw e refl
offsets-append next (p ∷ ps) qs =
    let e : next + suc (length ps) ≡ next + 1 + length ps = omega arith in
    rw e (ap (λ t. produced (record { offset = next }) ∷ t) (offsets-append (next + 1) ps qs))

module _ (libs : Libs) (reliable : Reliable libs) (codec : Codec) (faithful : Faithful codec) where
  -- The command of a request runs Append of its record.
  pub fsm_apply-append :
      (r : Record) (b : List ℕ) (l : Log)
      → Fits r
      → codec.marshal_request (record { value = some r }) ≡ ok b
      → fsm_apply libs codec (append_request_type ∷ b) l ≡ respond (Log.append libs (some r) l)
  unfolding fsm_apply apply_append
  fsm_apply-append r b l fits m = ground (arith, faithful.unmarshal-marshal r b fits m)

  pub respond-ok :
      (off : ℕ) (x : Result ℕ × Log)
      → x.0 ≡ ok off
      → respond x ≡ (ok (produced (record { offset = off })), x.1)
  respond-ok off (ok n, l) e = let same : n ≡ off = cc in rw same
  respond-ok off (err a, l) e = cc

  pub apply_step :
      (b : List ℕ) (bs : List (List ℕ)) (l l' : Log) (r : Response) (rs : List Response)
      → fsm_apply libs codec b l ≡ (ok r, l')
      → (apply_all libs codec bs l').0 ≡ ok rs
      → apply_all libs codec (b ∷ bs) l ≡ (ok (r ∷ rs), (apply_all libs codec bs l').1)
  unfolding apply_all
  apply_step b bs l l' r rs e f = ground (arith, e, f)

  -- A server applies committed commands without an error, answers each with the next offset, and its
  -- log then has the records of all commands, in their order, behind those it had.
  pub apply_all-Holds :
      (l : Log) (first : ℕ) (qs : List Payload) (bs : List (List ℕ)) (ps : List Payload)
      → Holds l first qs
      → Commands libs codec (first + length qs) bs ps
      → ((apply_all libs codec bs l).0 ≡ ok (offsets (first + length qs) ps))
        × Holds (apply_all libs codec bs l).1 first (qs ++ ps)
  unfolding apply_all
  apply_all-Holds l first qs [] ps h (done next) = (refl, rw append-nil h)
  apply_all-Holds l first qs (_ ∷ bs) [] h s = elim s [ ]
  apply_all-Holds l first qs (_ ∷ bs) (_ ∷ ps) h
        (then_append _ r b p _ _ fits m m' small top rest) =
      let (result, holds) = append-Holds libs reliable l first qs h r p m' small top in
      let count : first + length (qs ++ (p ∷ [])) ≡ first + length qs + 1 =
        omega (arith, length-append qs (p ∷ [])) in
      let (okay, all) =
        apply_all-Holds (Log.append libs (some r) l).1 first (qs ++ (p ∷ [])) bs ps holds
          (rw count rest) in
      let step =
        fsm_apply-append r b l fits m
        ∙ respond-ok (first + length qs) (Log.append libs (some r) l) result in
      rw
        (apply_step (append_request_type ∷ b) bs l _ _ (offsets (first + length qs + 1) ps) step
          (rw count at okay))
        (refl, rw append_assoc at all)

  -- Two servers whose logs have the same records answer the same commands, each to append a record
  -- that Marshal accepts, with the same offsets, and then show the same record at every offset,
  -- also where their segments differ.
  pub replicas_agree :
      (l m : Log) (first : ℕ) (qs : List Payload) (bs : List (List ℕ)) (ps : List Payload) (off : ℕ)
      → Holds l first qs
      → Holds m first qs
      → Commands libs codec (first + length qs) bs ps
      → ((apply_all libs codec bs l).0 ≡ (apply_all libs codec bs m).0)
        × (record_at libs (apply_all libs codec bs l).1 off
            ≡ record_at libs (apply_all libs codec bs m).1 off)
  replicas_agree l m first qs bs ps off h k s =
      let (x, hx) = apply_all-Holds l first qs bs ps h s in
      let (y, hy) = apply_all-Holds m first qs bs ps k s in
      (x ∙ sym y, record_at-Holds libs _ _ first (qs ++ ps) off hx hy)

  -- A server that has applied fewer of the committed commands than another, from logs with the same
  -- records, answers those it has applied as the other does. At every offset it shows nothing yet, or
  -- the same record as the other, and from the offset of its next command on it shows nothing.
  pub replica_lags :
      (l m : Log) (first : ℕ) (qs : List Payload) (bs cs : List (List ℕ)) (ps : List Payload)
      (off : ℕ)
      → Holds l first qs
      → Holds m first qs
      → Commands libs codec (first + length qs) (bs ++ cs) ps
      → ((rs : List Response) × (more : List Response) × ((apply_all libs codec bs m).0 ≡ ok rs)
          × ((apply_all libs codec (bs ++ cs) l).0 ≡ ok (rs ++ more)))
        × ((record_at libs (apply_all libs codec bs m).1 off ≡ none)
            ⊎ ((off < first + length qs + length bs)
                × (record_at libs (apply_all libs codec bs m).1 off
                    ≡ record_at libs (apply_all libs codec (bs ++ cs) l).1 off)))
  replica_lags l m first qs bs cs ps off h k s =
      let (now, later, e, count, sent) = Commands-split (first + length qs) bs cs ps s in
      let (x, hx) = apply_all-Holds l first qs (bs ++ cs) ps h s in
      let (y, hy) = apply_all-Holds m first qs bs now k sent in
      let size : first + length (qs ++ now) ≡ first + length qs + length bs =
        omega (arith, length-append qs now) in
      (
        (
          offsets (first + length qs) now,
          offsets (first + length qs + length now) later,
          y,
          x
              ∙ ap (λ t. ok (offsets (first + length qs) t)) e
              ∙ ap ok (offsets-append (first + length qs) now later),
        ),
        rw size at (
            record_at-ahead libs _ _ first (qs ++ now) later off (rw (e, ← append_assoc) at hx) hy),
      )
