-- ===== src/Log/Truncated.antt =====
-- Truncate keeps the log's invariant while a record lies above the offset.
use proglog.Base.{
  ℕ, ◌+◌, ◌≤◌, ◌<◌, ◌^◌, ◌≡◌, refl, ap, List, [], ◌++◌, arith, length, length-append, inl, inr, ◌⊎◌,
}
use proglog.Base.Exec.{Result, ok, err}
use proglog.Api.{Libs}
use proglog.Segment.Layout.{Payload}
use proglog.Log.{Log}
use proglog.Log.Refine.{Holds}
use proglog.Log.Truncate.{Cut, truncate, truncate_each, finish, active_after}
use proglog.Log.TruncateLaws.{truncate_each-Suffix, above}

-- What is left of the log after a Truncate: the records behind `dropped`, none of which lay above
-- the offset; and the segments with a record above the offset are those that are left.
pub record Truncated (lowest first : ℕ) (qs : List Payload) (l l' : Log) : Type 0 where
  pub dropped : List Payload
  pub left : List Payload
  pub split : qs ≡ dropped ++ left
  pub low : (first + length dropped ≤ lowest + 1) ⊎ (dropped ≡ [])
  pub exact : l'.segments ≡ above lowest l.segments
  pub holds : Holds l' (first + length dropped) left

pub finish-ok :
    (lowest : ℕ) (l : Log) (x : Result (Unit {0}) × Cut)
    → (finish lowest l x).0 ≡ ok tt
    → (x.0 ≡ ok tt)
      × (finish lowest l x ≡ (
        ok tt,
        record l {
          segments = x.1.kept;
          disk = x.1.disk;
          active = active_after lowest x.1.all l.active;
        },
      ))
finish-ok lowest l (err e, c) h = cc
finish-ok lowest l (ok tt, c) h = (refl, refl)

-- Truncate, where it succeeds and a record lies above the offset, drops from the front records
-- that all lie at or below the offset, keeps exactly the segments whose next offset is more than
-- one above it, and keeps the invariant: the active segment is still the last one.
pub truncate-Holds :
    (libs : Libs) (l : Log) (first lowest : ℕ) (qs : List Payload)
    → Holds l first qs
    → lowest + 1 < 2 ^ 64
    → lowest + 1 < first + length qs
    → (truncate libs lowest l).0 ≡ ok tt
    → Truncated lowest first qs l (truncate libs lowest l).1
unfolding truncate
truncate-Holds libs l first lowest qs h small b okay =
    let (went, eq) = finish-ok lowest l (truncate_each libs lowest l.segments l.disk) okay in
    let f =
      truncate_each-Suffix libs l.config lowest small first l.segments qs l.disk h.chain h.room b
        went in
    let count : length qs ≡ length f.dropped + length f.left =
      omega (arith, ap length f.split, length-append f.dropped f.left) in
    rw eq (record {
      dropped = f.dropped;
      left = f.left;
      split = f.split;
      low = elim f.low [ inl e ↦ inr e | inr k ↦ inl k ];
      exact = f.exact;
      holds = record {
        active = rw (h.active) f.last;
        chain = f.chain;
        room = f.room;
        sound = h.sound;
        works = f.disk.works h.works;
        absent = λ base k.
            let a = h.absent base (omega (arith, count)) in
            (f.disk.absent _ a.0, f.disk.absent _ a.1);
      };
    })
