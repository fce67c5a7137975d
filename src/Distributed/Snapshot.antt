-- ===== src/Distributed/Snapshot.antt =====
-- Restore of the state machine (internal/log/distributed.go): the frames of a snapshot go into a log
-- that was reset.
use proglog.Base.{
  ℕ, zero, suc, ◌≢◌, refl, List, [], ◌∷◌, some, Bool, true, false, if◌then◌else◌, length, take,
  drop, ltb, is_negative, Bool-cases, inl, inr,
}
use proglog.Base.Exec.{
  panic, eof, unexpected_eof, Result, ok, err, Exec, pure, raise, lift, modify, ◌>>=◌, ◌>>◌,
  continue,
}
use proglog.Bytes.{get_be}
use proglog.Api.{Record, Libs}
use proglog.Log
use proglog.Log.{Log}
use proglog.Log.Reset.{reset-ne-ok}

-- io.CopyN copies nothing where int64(size) is negative.
abbrev pub copied : ℕ → ℕ
copied size = if is_negative size then 0 else size

abbrev pub size_of : List ℕ → ℕ
size_of b = copied (get_be (take 8 b))

-- The first record sets the initial offset of the log, and resets it.
abbrev pub restart : Libs → Bool → Record → Exec Log (Unit {0})
restart libs false r = pure tt
restart libs true r = do
  modify (λ (l : Log). record l { config = record l.config { initial_offset = r.offset } })
  Log.reset libs

-- One turn of the loop on the bytes that are left, of which there is one: `io.ReadFull` of the
-- length, `io.CopyN` of the record, and Append of it.
unfoldable pub restore_record : Libs → Bool → List ℕ → Exec Log (Unit {0})
restore_record libs first b =
    if ltb (length b) 8
    then raise unexpected_eof
    else if ltb (length (drop 8 b)) (size_of b)
    then raise eof
    else do
      r ← lift (libs.unmarshal (take (size_of b) (drop 8 b)))
      restart libs first r
      Log.append libs (some r)
      pure tt

-- The loop; a turn takes eight bytes at least, so that the length of the snapshot is fuel enough.
unfoldable pub restore_loop : Libs → ℕ → Bool → List ℕ → Exec Log (Unit {0})
restore_loop libs zero first b = raise panic
restore_loop libs (suc n) first [] = pure tt
restore_loop libs (suc n) first (x ∷ b) = do
  restore_record libs first (x ∷ b)
  restore_loop libs n false (drop (size_of (x ∷ b)) (drop 8 (x ∷ b)))

-- Restore
unfoldable pub restore : Libs → List ℕ → Exec Log (Unit {0})
restore libs b = restore_loop libs (suc (length b)) true b

abbrev Fails : Result (Unit {0}) × Log → Type 0
Fails x = x.0 ≢ ok tt

after_restart :
    (libs : Libs) (r : Record) (x : Result (Unit {0}) × Log)
    → Fails x
    → Fails (continue x.0 (λ _. Log.append libs (some r) >> pure tt) x.1)
after_restart libs r (ok tt, l) f e = f refl
after_restart libs r (err a, l) f e = cc

after_unmarshal :
    (libs : Libs) (u : Result Record) (l : Log)
    → Fails (continue u (λ r. do restart libs true r; Log.append libs (some r); pure tt) l)
after_unmarshal libs (ok r) l = after_restart libs r (restart libs true r l) (reset-ne-ok libs _)
after_unmarshal libs (err a) l = λ e. cc

restore_record-ne-ok : (libs : Libs) (b : List ℕ) (l : Log) → Fails (restore_record libs true b l)
unfolding restore_record
restore_record-ne-ok libs b l = elim (Bool-cases (ltb (length b) 8)) [
  | inl e ↦ rw e (λ h. cc)
  | inr e ↦ elim (Bool-cases (ltb (length (drop 8 b)) (size_of b))) [
    | inl f ↦ rw (e, f) (λ h. cc)
    | inr f ↦ rw (e, f) (after_unmarshal libs (libs.unmarshal (take (size_of b) (drop 8 b))) l)
  ]
]

then_rest :
    (x : Result (Unit {0}) × Log) (k : Unit {0} → Exec Log (Unit {0}))
    → Fails x
    → Fails (continue x.0 k x.1)
then_rest (ok tt, l) k f e = f refl
then_rest (err a, l) k f e = cc

-- Restore of a snapshot with a record in it, or with any byte, fails on every log: it has to reset
-- the log first.
pub restore-ne-ok : (libs : Libs) (b : List ℕ) (l : Log) → b ≢ [] → (restore libs b l).0 ≢ ok tt
unfolding restore restore_loop
restore-ne-ok libs [] l h = absurd (h refl)
restore-ne-ok libs (x ∷ b) l h =
    then_rest (restore_record libs true (x ∷ b) l) _ (restore_record-ne-ok libs (x ∷ b) l)
