-- ===== src/Log/Reset.antt =====
-- Reset (internal/log/log.go): Remove deletes the directory, and setup then reads it.
use proglog.Base.{◌≡◌, ◌≢◌, refl, false, arith, inl, inr, ◌⊎◌}
use proglog.Base.Exec.{Error, not_exist, Result, ok, err}
use proglog.Api.{Libs}
use proglog.Disk
use proglog.Disk.{Disk}
use proglog.Log.{Log, close, remove, reset, setup}

remove_all_gone : (d : Disk) → (Disk.remove_all d).0 ≡ ok tt → (Disk.remove_all d).1.exists ≡ false
unfolding Disk.remove_all
remove_all_gone d e = ground arith

remove_gone :
    (libs : Libs) (l : Log) → (remove libs l).0 ≡ ok tt → (remove libs l).1.disk.exists ≡ false
unfolding remove
remove_gone libs l e = ground (arith, remove_all_gone (close libs l).1.disk)

setup_gone : (libs : Libs) (l : Log) → l.disk.exists ≡ false → setup libs l ≡ (err not_exist, l)
unfolding setup Disk.read_dir
setup_gone libs l e = ground arith

-- Where Remove succeeds, the directory is gone and setup cannot read it: Reset returns that error,
-- and leaves the log with the segments that were closed.
reset_gone :
    (libs : Libs) (l : Log)
    → (remove libs l).0 ≡ ok tt
    → reset libs l ≡ (err not_exist, (remove libs l).1)
unfolding reset
reset_gone libs l e = ground (arith, e, setup_gone libs (remove libs l).1 (remove_gone libs l e))

reset_stops :
    (libs : Libs) (l : Log) (e : Error)
    → (remove libs l).0 ≡ err e
    → reset libs l ≡ (err e, (remove libs l).1)
unfolding reset
reset_stops libs l e h = ground (arith, h)

Result-cases : (r : Result (Unit {0})) → (r ≡ ok tt) ⊎ ((e : Error) × (r ≡ err e))
Result-cases (ok tt) = inl refl
Result-cases (err e) = inr (e, refl)

-- Reset fails on every log, whatever its directory and its segments.
pub reset-ne-ok : (libs : Libs) (l : Log) → (reset libs l).0 ≢ ok tt
reset-ne-ok libs l h = elim (Result-cases (remove libs l).0) [
  | inl e ↦ cc (reset_gone libs l e)
  | inr (e, f) ↦ cc (reset_stops libs l e f)
]
