-- ===== src/Log/Reopened.antt =====
-- setup (internal/log/log.go) on the directory that a closed log left.
use proglog.Base.{
  ℕ, ◌+◌, ◌<◌, ◌≡◌, refl, ap, sym, ◌∙◌, List, [], ◌∷◌, ◌++◌, arith, length, All, append-nil,
  append_assoc, inr,
}
use proglog.Base.Exec.{ok}
use proglog.Api.{Libs, Reliable}
use proglog.Disk
use proglog.Disk.{Disk, Name}
use proglog.Segment.{Segment, Config, index_name}
use proglog.Segment.Layout.{Payload}
use proglog.Segment.Create.{Works, IsSound}
use proglog.Segment.Reopen.{
  Part, IsSaved, again, index_bytes, new_segment-again, again-Holds, again-base, again-config,
  again-is_maxed, again-mmap,
}
use proglog.Segment.Files.{stems, IsPresent}
use proglog.Log.{Log, Active, newest, new_segment, open_all}
use proglog.Log.Chain.{Link, Chain, HasRoom}
use proglog.Log.Shrinks.{Shrinks, Shrinks-refl, Shrinks-trans}
use proglog.Log.Saved.{Piece, Pieces, HasRoomLast, IsMapped, Rising, bases, piece_bases}
use proglog.Log.Files.{AllSaved, Touches-IsSaved, index-Touches}

-- Every number twice: a segment has two files.
abbrev pub doubled : List ℕ → List ℕ
doubled [] = []
doubled (b ∷ bs) = b ∷ b ∷ doubled bs

abbrev pub active_over : List Piece → Active → Active
active_over [] a = a
active_over (_ ∷ _) a = newest

stays_newest : (xs : List Piece) → active_over xs newest ≡ newest
stays_newest [] = refl
stays_newest (x ∷ xs) = refl

pub active_over-HasRoomLast :
    (c : Config) (xs : List Piece) (a : Active) → HasRoomLast c xs → active_over xs a ≡ newest
active_over-HasRoomLast c [] a h = absurd h
active_over-HasRoomLast c (x ∷ xs) a h = refl

-- What the loop of setup makes of the pieces.
pub record Opened (c : Config) (first : ℕ) (xs : List Piece) (qs : List Payload) (l l' : Log)
    : Type 0 where
  pub added : List Segment
  pub segments : l'.segments ≡ l.segments ++ added
  pub chain : Chain c first added qs
  pub same : bases added ≡ piece_bases xs
  pub mapped : All IsMapped added
  pub room : HasRoomLast c xs → HasRoom added
  pub active : l'.active ≡ active_over xs l.active
  pub config : l'.config ≡ l.config
  pub names : stems l'.disk.files ≡ stems l.disk.files
  pub shrinks : Shrinks l.disk l'.disk
  pub keeps : (n : Name) → IsPresent n l.disk.files → IsPresent n l'.disk.files

index-AllSaved :
    (b : ℕ) (bytes : List ℕ) (xs : List Piece) (d : Disk)
    → All (λ x. b < x) (piece_bases xs)
    → AllSaved xs d
    → AllSaved xs (Disk.write_back (index_name b) bytes d)
index-AllSaved b bytes [] d r h = tt
index-AllSaved b bytes ((x, ps) ∷ xs) d r h = (
  Touches-IsSaved b x ps d _ (index-Touches b bytes d) (inr r.0) h.0,
  index-AllSaved b bytes xs d r.1 h.1,
)

module _ (libs : Libs) (reliable : Reliable libs) (c : Config) (sound : IsSound c) where
  segment_of : (b : ℕ) (ps : List Payload) → Part c b ps → Segment
  segment_of b ps part = again libs reliable c sound b ps part

  disk_of : (b : ℕ) (ps : List Payload) → Part c b ps → Disk → Disk
  disk_of b ps part d =
      Disk.write_back (index_name b) (index_bytes libs reliable c sound b ps part) d

  opened_one : (b : ℕ) (ps : List Payload) → Part c b ps → Log → Log
  opened_one b ps part l = record l {
    segments = l.segments ++ (segment_of b ps part ∷ []);
    active = newest;
    disk = disk_of b ps part l.disk;
  }

  new_segment-opened :
      (b : ℕ) (ps : List Payload) (part : Part c b ps) (l : Log)
      → l.config ≡ c
      → Works l.disk
      → IsSaved b ps l.disk
      → new_segment libs b l ≡ (ok tt, opened_one b ps part l)
  unfolding new_segment opened_one segment_of disk_of
  new_segment-opened b ps part l e w s =
      ground (arith, e, new_segment-again libs reliable c sound b ps part l.disk w s)

  segment-Link :
      (first b : ℕ) (ps : List Payload) (part : Part c b ps)
      → b ≡ first
      → Link c first (segment_of b ps part) ps
  unfolding segment_of
  segment-Link first b ps part e = record {
    holds = again-Holds libs reliable c sound b ps part;
    base = again-base libs reliable c sound b ps part ∙ e;
    config = again-config libs reliable c sound b ps part;
  }

  segment-base :
      (b : ℕ) (ps : List Payload) (part : Part c b ps) → (segment_of b ps part).base_offset ≡ b
  unfolding segment_of
  segment-base b ps part = again-base libs reliable c sound b ps part

  segment-IsMapped :
      (b : ℕ) (ps : List Payload) (part : Part c b ps) → IsMapped (segment_of b ps part)
  unfolding segment_of
  segment-IsMapped b ps part =
      again-mmap libs reliable c sound b ps part
      ∙ ap (λ (k : Config). k.max_index_bytes) (sym (again-config libs reliable c sound b ps part))

  room_cons :
      (b : ℕ) (ps : List Payload) (part : Part c b ps) (xs : List Piece) (ss : List Segment)
      → bases ss ≡ piece_bases xs
      → (HasRoomLast c xs → HasRoom ss)
      → HasRoomLast c ((b, ps) ∷ xs)
      → HasRoom (segment_of b ps part ∷ ss)
  unfolding segment_of
  room_cons b ps part [] [] e f r = again-is_maxed libs reliable c sound b ps part r.0 r.1
  room_cons b ps part [] (s ∷ ss) e f r = cc
  room_cons b ps part (x ∷ xs) [] e f r = cc
  room_cons b ps part (x ∷ xs) (s ∷ ss) e f r = f r

  open_step :
      (b : ℕ) (bs : List ℕ) (l l' : Log)
      → new_segment libs b l ≡ (ok tt, l')
      → open_all libs (b ∷ b ∷ bs) l ≡ open_all libs bs l'
  unfolding open_all
  open_step b bs l l' e = rw e refl

  Opened-cons :
      (first b : ℕ) (ps later qs : List Payload) (part : Part c b ps) (xs : List Piece) (l l' : Log)
      → qs ≡ ps ++ later
      → b ≡ first
      → Opened c (first + length ps) xs later (opened_one b ps part l) l'
      → Opened c first ((b, ps) ∷ xs) qs l l'
  unfolding opened_one disk_of
  Opened-cons first b ps later qs part xs l l' e at o = record {
    added = segment_of b ps part ∷ o.added;
    segments = o.segments ∙ append_assoc l.segments (segment_of b ps part ∷ []) o.added;
    chain = (ps, later, e, segment-Link first b ps part at, o.chain);
    same = ground (arith, segment-base b ps part, o.same);
    mapped = (segment-IsMapped b ps part, o.mapped);
    room = room_cons b ps part xs o.added o.same o.room;
    active = o.active ∙ stays_newest xs;
    config = o.config;
    names = o.names ∙ (index-Touches b (index_bytes libs reliable c sound b ps part) l.disk).names;
    shrinks =
        Shrinks-trans l.disk (disk_of b ps part l.disk) _
          (index-Touches b (index_bytes libs reliable c sound b ps part) l.disk).shrinks o.shrinks;
    keeps = λ n h.
        o.keeps n
          ((index-Touches b (index_bytes libs reliable c sound b ps part) l.disk).keeps n h);
  }

  -- The loop of setup on the files of the pieces opens them all.
  pub open_all-Opened :
      (first : ℕ) (xs : List Piece) (qs : List Payload) (l : Log)
      → Pieces c first xs qs
      → Rising (piece_bases xs)
      → AllSaved xs l.disk
      → Works l.disk
      → l.config ≡ c
      → ((open_all libs (doubled (piece_bases xs)) l).0 ≡ ok tt)
        × Opened c first xs qs l (open_all libs (doubled (piece_bases xs)) l).1
  unfolding open_all
  open_all-Opened first [] qs l h r s w e = (
    refl,
    record {
      added = [];
      segments = sym (append-nil l.segments);
      chain = h;
      same = refl;
      mapped = tt;
      room = λ x. x;
      active = refl;
      config = refl;
      names = refl;
      shrinks = Shrinks-refl l.disk;
      keeps = λ n h. h;
    },
  )
  open_all-Opened first ((b, ps) ∷ xs) qs l (later, q, at, part, h) r s w e =
      let now : Log = opened_one b ps part l in
      let shrunk = (index-Touches b (index_bytes libs reliable c sound b ps part) l.disk).shrinks in
      let (okay, o) =
        open_all-Opened (first + length ps) xs later now h r.1
          (unfold opened_one disk_of in
            index-AllSaved b (index_bytes libs reliable c sound b ps part) xs l.disk r.0 s.1)
          (unfold opened_one disk_of in shrunk.works w) (unfold opened_one in e) in
      rw (open_step b (doubled (piece_bases xs)) l now (new_segment-opened b ps part l e w s.0))
        (okay, Opened-cons first b ps later qs part xs l _ q at o)
