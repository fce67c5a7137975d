-- ===== src/Log/Refine/Files.antt =====
-- Append keeps the directory in step with the segments (internal/log/log.go).
use proglog.Base.{
  ℕ, ◌+◌, ◌≤◌, ◌<◌, ◌^◌, ◌≡◌, refl, sym, ap, ◌∙◌, List, [], ◌∷◌, ◌++◌, some, arith, length,
  length-append, true, false, Bool, All,
}
use proglog.Base.Exec.{ok, gets}
use proglog.Api.{Record, Libs, Reliable}
use proglog.Disk.{Disk}
use proglog.Segment
use proglog.Segment.{Segment, Config}
use proglog.Segment.Layout.{Payload, All_snoc}
use proglog.Segment.Files.{stems, HasFiles}
use proglog.Segment.Create.{
  fresh, disk_with, fresh-base, fresh-config, fresh-mmap, disk_with-stems, disk_with-IsPresent,
  disk_with-HasFiles,
}
use proglog.Log.{Log, append, on_last, sort, insert_sorted}
use proglog.Log.Chain.{Chain}
use proglog.Log.Grow.{grow, ask_last}
use proglog.Log.Saved.{IsMapped, Rising, bases}
use proglog.Log.Files.{All-HasFiles}
use proglog.Log.Reopened.{doubled}
use proglog.Log.Stored.{Stored}
use proglog.Log.Refine.{Holds, grown, grown-room, kept, rotated, next, append-kept, append-rotated}

-- The bases of a chain are at most the next offset.
Chain-below :
    (c : Config) (first : ℕ) (ss : List Segment) (qs : List Payload)
    → Chain c first ss qs
    → All (λ b. b < first + length qs + 1) (bases ss)
Chain-below c first [] qs h = tt
Chain-below c first (s ∷ ss) qs (ps, rest, e, l, h) =
    let n : length qs ≡ length ps + length rest =
      omega (arith, ap length e, length-append ps rest) in
    (
      omega (arith, l.base),
      below_more (bases ss) (first + length ps + length rest + 1) (first + length qs + 1)
          (omega arith) (Chain-below c (first + length ps) ss rest h),
    )
  where
    below_more : (bs : List ℕ) (m n : ℕ) → m ≤ n → All (λ b. b < m) bs → All (λ b. b < n) bs
    below_more [] m n e a = tt
    below_more (b ∷ bs) m n e a = (omega (arith, a.0), below_more bs m n e a.1)

insert_last :
    (b : ℕ) (bs : List ℕ)
    → All (λ x. x < b) bs
    → insert_sorted b (insert_sorted b (doubled bs)) ≡ doubled (bs ++ (b ∷ []))
unfolding insert_sorted
insert_last b [] h = ground arith
insert_last b (x ∷ bs) h = ground (arith, h.0, insert_last b bs h.1)

Rising-snoc : (b : ℕ) (bs : List ℕ) → All (λ x. x < b) bs → Rising bs → Rising (bs ++ (b ∷ []))
Rising-snoc b [] h r = (tt, tt)
Rising-snoc b (x ∷ bs) h r = (All_snoc (λ y. x < y) bs b r.0 h.0, Rising-snoc b bs h.1 r.1)

bases-append :
    (ss : List Segment) (s : Segment) → bases (ss ++ (s ∷ [])) ≡ bases ss ++ (s.base_offset ∷ [])
bases-append [] s = refl
bases-append (t ∷ ss) s = ap (λ bs. t.base_offset ∷ bs) (bases-append ss s)

module _ (libs : Libs) (reliable : Reliable libs) (l : Log) (first : ℕ) (qs : List Payload)
    (h : Holds l first qs) (r : Record) (p : Payload)
    (m : libs.marshal (record r { offset = first + length qs }) ≡ ok p) (small : length p < 2 ^ 48)
    (top : first + length qs + 1 < 2 ^ 63) (stored : Stored l) where
  after : List Segment
  after = grown libs reliable l first qs h r p m small top

  base : ℕ
  base = next libs reliable l first qs h r p m small top + 1

  after-same : bases after ≡ bases l.segments
  unfolding after grown
  after-same =
      (grow libs l.config h.sound r p (first + length qs) m small top first l.segments qs h.chain
        h.room refl).same

  after-IsMapped : All IsMapped after
  unfolding after grown
  after-IsMapped =
      (grow libs l.config h.sound r p (first + length qs) m small top first l.segments qs h.chain
          h.room refl).mapped
        stored.mapped

  below : All (λ b. b < base) (bases after)
  unfolding base next
  below = rw after-same (Chain-below l.config first l.segments qs h.chain)

  kept-Stored : Stored (kept libs reliable l first qs h r p m small top)
  unfolding kept after
  kept-Stored = record {
    names = rw after-same stored.names;
    present = rw after-same stored.present;
    rising = rw after-same stored.rising;
    mapped = after-IsMapped;
  }

  newer : Segment
  newer = fresh libs reliable base l.config h.sound

  newer-base : newer.base_offset ≡ base
  unfolding newer
  newer-base = fresh-base libs reliable base l.config h.sound

  more-bases : bases (after ++ (newer ∷ [])) ≡ bases after ++ (base ∷ [])
  more-bases = bases-append after newer ∙ ap (λ b. bases after ++ (b ∷ [])) newer-base

  more : Disk
  more = disk_with libs reliable base l.config h.sound l.disk

  more-names : sort (stems more.files) ≡ doubled (bases after ++ (base ∷ []))
  unfolding more sort
  more-names =
      rw (disk_with-stems libs reliable base l.config h.sound l.disk, stored.names, sym after-same)
        (insert_last base (bases after) below)

  more-present : All (HasFiles more.files) (bases after ++ (base ∷ []))
  unfolding more
  more-present =
      All_snoc (HasFiles more.files) (bases after) base
        (All-HasFiles (bases after) l.disk more
          (disk_with-IsPresent libs reliable base l.config h.sound l.disk)
          (rw after-same stored.present))
        (disk_with-HasFiles libs reliable base l.config h.sound l.disk)

  newer-IsMapped : IsMapped newer
  unfolding newer
  newer-IsMapped =
      fresh-mmap libs reliable base l.config h.sound
      ∙ ap (λ (k : Config). k.max_index_bytes)
          (sym (fresh-config libs reliable base l.config h.sound))

  rotated-Stored : Stored (rotated libs reliable l first qs h r p m small top)
  unfolding rotated after newer more base
  rotated-Stored = record {
    names = rw more-bases more-names;
    present = rw more-bases more-present;
    rising = rw more-bases (Rising-snoc base (bases after) below (rw after-same stored.rising));
    mapped = All_snoc IsMapped after newer after-IsMapped newer-IsMapped;
  }

  Stored-split :
      (b : Bool)
      → on_last (gets Segment.is_maxed) after ≡ (ok b, after)
      → Stored (append libs (some r) l).1
  unfolding after
  Stored-split true e =
      rw (append-rotated libs reliable l first qs h r p m small top e) rotated-Stored
  Stored-split false e = rw (append-kept libs reliable l first qs h r p m small top e) kept-Stored

  -- Append of a record that Marshal accepts, on a log in its invariant, keeps the directory in step
  -- with the segments: it adds the two files of a segment where it starts one, and no others.
  pub append-Stored : Stored (append libs (some r) l).1
  append-Stored =
      let (b, e, f) =
        ask_last after (unfold after in grown-room libs reliable l first qs h r p m small top) in
      Stored-split b e
