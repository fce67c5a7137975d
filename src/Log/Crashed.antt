-- ===== src/Log/Crashed.antt =====
-- NewLog on the directory of a log that was not closed (internal/log/log.go).
use proglog.Base.{
  ℕ, ◌≡◌, refl, ap, ◌∙◌, List, [], ◌∷◌, ◌++◌, Option, Bool, true, false, arith, length, All,
}
use proglog.Base.Exec.{ok}
use proglog.Api.{Record, Libs, Reliable}
use proglog.Disk
use proglog.Disk.{Disk}
use proglog.Segment
use proglog.Segment.{Segment, Config, store_name, index_name}
use proglog.Segment.Create.{Works, IsSound}
use proglog.Segment.Files.{stems, write_back-IsPresent}
use proglog.Segment.Crashed.{
  IsLeft, update-IsSized, full_segment, new_segment-full_segment, full_segment-is_maxed, Fails,
  append-Fails,
}
use proglog.Index
use proglog.Log.{Log, newest, append, new_log, new_segment, open_all, open_initial, sort, on_last}
use proglog.Log.Reopened.{doubled}
use proglog.Log.Restart.{blank, new_log-setup, setup-open_all}

abbrev pub last_full : List Segment → Bool
last_full [] = false
last_full (s ∷ []) = Index.is_maxed s.index
last_full (s ∷ t ∷ ss) = last_full (t ∷ ss)

-- The active segment is the last one, and its index is full.
abbrev pub IsStuck : Log → Type 0
IsStuck l = (l.active ≡ newest) × (last_full l.segments ≡ true)

last_full-snoc :
    (ss : List Segment) (s : Segment) → last_full (ss ++ (s ∷ [])) ≡ Index.is_maxed s.index
last_full-snoc [] s = refl
last_full-snoc (t ∷ []) s = refl
last_full-snoc (t ∷ u ∷ ss) s = last_full-snoc (u ∷ ss) s

last_full-cons : (s : Segment) (ss : List Segment) → last_full ss ≡ true → last_full (s ∷ ss) ≡ true
last_full-cons s [] h = absurd cc
last_full-cons s (t ∷ ss) h = h

on_last-Fails :
    (libs : Libs) (r : Option Record) (ss : List Segment)
    → last_full ss ≡ true
    → Fails (on_last (Segment.append libs r) ss).0
      × (last_full (on_last (Segment.append libs r) ss).1 ≡ true)
unfolding on_last
on_last-Fails libs r [] h = absurd cc
on_last-Fails libs r (s ∷ []) h =
    let (fails, kept) = append-Fails libs r s h in (fails, ap Index.is_maxed kept ∙ h)
on_last-Fails libs r (s ∷ t ∷ ss) h =
    let (fails, full) = on_last-Fails libs r (t ∷ ss) h in
    (fails, last_full-cons s (on_last (Segment.append libs r) (t ∷ ss)).1 full)

append-IsStuck :
    (libs : Libs) (r : Option Record) (l : Log)
    → IsStuck l
    → Fails (append libs r l).0 × IsStuck (append libs r l).1
unfolding append
append-IsStuck libs r l (a, full) =
    let ((e, fails), still) = on_last-Fails libs r l.segments full in
    ((e, rw (a, fails) refl), (ground (arith, a, fails), ground (arith, a, fails, still)))

-- What a log is after calls of Append.
abbrev pub appended : Libs → List (Option Record) → Log → Log
appended libs [] l = l
appended libs (r ∷ rs) l = appended libs rs (append libs r l).1

appended-IsStuck :
    (libs : Libs) (rs : List (Option Record)) (l : Log) → IsStuck l → IsStuck (appended libs rs l)
appended-IsStuck libs [] l h = h
appended-IsStuck libs (r ∷ rs) l h =
    appended-IsStuck libs rs (append libs r l).1 (append-IsStuck libs r l h).1

write_back-IsLeft :
    (k b a : ℕ) (ix : List ℕ) (d : Disk)
    → length ix ≡ k
    → IsLeft k d.files a
    → IsLeft k (Disk.write_back (index_name b) ix d).files a
unfolding Disk.write_back
write_back-IsLeft k b a ix d e (s, i) = (
  write_back-IsPresent (store_name a) (index_name b) ix d s,
  update-IsSized k (index_name a) (index_name b) ix d.files e i,
)

all-IsLeft :
    (k b : ℕ) (ix : List ℕ) (d : Disk) (bs : List ℕ)
    → length ix ≡ k
    → All (IsLeft k d.files) bs
    → All (IsLeft k (Disk.write_back (index_name b) ix d).files) bs
all-IsLeft k b ix d [] e h = tt
all-IsLeft k b ix d (a ∷ bs) e (h, hs) =
    (write_back-IsLeft k b a ix d e h, all-IsLeft k b ix d bs e hs)

module _ (libs : Libs) (reliable : Reliable libs) (c : Config) (sound : IsSound c) where
  -- What a new segment on such files leaves of the log.
  record Step (b : ℕ) (bs : List ℕ) (l : Log) : Type 0 where
    pub next : Log
    pub gives : new_segment libs b l ≡ (ok tt, next)
    pub stuck : IsStuck next
    pub works : Works next.disk
    pub config : next.config ≡ c
    pub left : All (IsLeft c.max_index_bytes next.disk.files) bs

  new_segment-Step :
      (b : ℕ) (bs : List ℕ) (l : Log)
      → Works l.disk
      → l.config ≡ c
      → All (IsLeft c.max_index_bytes l.disk.files) (b ∷ bs)
      → Step b bs l
  unfolding new_segment Disk.write_back
  new_segment-Step b bs l w e (((held, s), (ix, i, sized)), left) =
      let made : Segment = full_segment libs reliable c sound.index_top b held ix sized in
      let step =
        new_segment-full_segment libs reliable c sound.index_top b held ix sized l.disk w s i in
      record {
        next = record {
          disk = Disk.write_back (index_name b) ix l.disk;
          config = l.config;
          active = newest;
          segments = l.segments ++ (made ∷ []);
        };
        gives = ground (arith, e, step);
        stuck = (
          refl,
          last_full-snoc l.segments made
              ∙ full_segment-is_maxed libs reliable c sound.index_top b held ix sized,
        );
        works = record { exists = w.exists; healthy = w.healthy };
        config = e;
        left = all-IsLeft c.max_index_bytes b ix l.disk bs sized left;
      }

  open_all-IsStuck :
      (bs : List ℕ) (l : Log)
      → Works l.disk
      → l.config ≡ c
      → All (IsLeft c.max_index_bytes l.disk.files) bs
      → IsStuck l
      → ((open_all libs (doubled bs) l).0 ≡ ok tt) × IsStuck (open_all libs (doubled bs) l).1
  unfolding open_all
  open_all-IsStuck [] l w e left stuck = (refl, stuck)
  open_all-IsStuck (b ∷ bs) l w e left stuck =
      let step = new_segment-Step b bs l w e left in
      rw (step.gives) (open_all-IsStuck bs step.next step.works step.config step.left step.stuck)

  IsStuck-open_initial :
      (ss : List Segment) (l : Log) → last_full ss ≡ true → open_initial libs ss l ≡ (ok tt, l)
  IsStuck-open_initial [] l h = absurd cc
  IsStuck-open_initial (s ∷ ss) l h = refl

  open_all-first :
      (b : ℕ) (bs : List ℕ) (l : Log)
      → Works l.disk
      → l.config ≡ c
      → All (IsLeft c.max_index_bytes l.disk.files) (b ∷ bs)
      → ((open_all libs (doubled (b ∷ bs)) l).0 ≡ ok tt)
        × IsStuck (open_all libs (doubled (b ∷ bs)) l).1
  unfolding open_all
  open_all-first b bs l w e left =
      let step = new_segment-Step b bs l w e left in
      rw (step.gives) (open_all-IsStuck bs step.next step.works step.config step.left step.stuck)

  -- setup from there.
  setup-IsStuck :
      (b : ℕ) (bs : List ℕ) (d : Disk)
      → Works d
      → sort (stems d.files) ≡ doubled (b ∷ bs)
      → All (IsLeft c.max_index_bytes d.files) (b ∷ bs)
      → ((new_log libs d c).0 ≡ ok tt) × IsStuck (new_log libs d c).1
  setup-IsStuck b bs d w names left =
      let (okay, stuck) = open_all-first b bs (blank c d) w refl left in
      let opened : Log = (open_all libs (doubled (b ∷ bs)) (blank c d)).1 in
      rw
        (new_log-setup libs d c sound
          ∙ setup-open_all libs (blank c d) (b ∷ bs) w names okay
              (IsStuck-open_initial opened.segments opened stuck.1))
        (refl, stuck)

  -- A crash. Where a process ends without Close, the index of every segment still has the size of its
  -- map. NewLog on such a directory, with the two files of one segment at least and no others,
  -- succeeds; but no Append to the log ever succeeds, whatever is tried and however often.
  pub append-crashed :
      (b : ℕ) (bs : List ℕ) (d : Disk) (rs : List (Option Record)) (r : Option Record)
      → Works d
      → sort (stems d.files) ≡ doubled (b ∷ bs)
      → All (IsLeft c.max_index_bytes d.files) (b ∷ bs)
      → ((new_log libs d c).0 ≡ ok tt)
        × Fails (append libs r (appended libs rs (new_log libs d c).1)).0
  append-crashed b bs d rs r w names left =
      let (okay, stuck) = setup-IsStuck b bs d w names left in
      (okay, (append-IsStuck libs r _ (appended-IsStuck libs rs _ stuck)).0)
