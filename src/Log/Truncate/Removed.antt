-- ===== src/Log/Truncate/Removed.antt =====
-- Remove of a segment (internal/log/segment.go) takes its two files out of the directory, and no
-- others.
use proglog.Base.{
  ℕ, ◌<◌, ◌≡◌, refl, ap, sym, ◌∙◌, List, [], ◌∷◌, some, arith, false, ◌==◌, if◌then◌else◌, ◌⊎◌, inl,
  inr, Bool-cases,
}
use proglog.Base.Exec.{ok}
use proglog.Api.{Libs, Reliable}
use proglog.Disk
use proglog.Disk.{Disk, Name, Files}
use proglog.Index.Entries.{encode}
use proglog.Segment
use proglog.Segment.{Segment, store_name, index_name}
use proglog.Segment.Layout.{Payload, frames, entries}
use proglog.Segment.Refine.{Holds}
use proglog.Segment.Create.{Works}
use proglog.Segment.Files.{
  stems, IsPresent, HasFiles, write_back-stems, write_back-IsPresent, find-write_back_other,
}
use proglog.Segment.Reopen.{close_files-saves}
use proglog.Log.{sort, insert_sorted}

insert_sorted_comm :
    (a b : ℕ) (xs : List ℕ)
    → insert_sorted a (insert_sorted b xs) ≡ insert_sorted b (insert_sorted a xs)
unfolding insert_sorted
insert_sorted_comm a b [] = ground arith
insert_sorted_comm a b (c ∷ xs) = ground (arith, insert_sorted_comm a b xs)

-- The list without the first `a`.
abbrev without_first : ℕ → List ℕ → List ℕ
without_first a [] = []
without_first a (b ∷ bs) = let rest = without_first a bs in if b == a then bs else b ∷ rest

without_first-insert_sorted : (a : ℕ) (xs : List ℕ) → without_first a (insert_sorted a xs) ≡ xs
unfolding insert_sorted
without_first-insert_sorted a [] = ground arith
without_first-insert_sorted a (b ∷ xs) = ground (arith, without_first-insert_sorted a xs)

-- A file that is deleted takes its number out of the sorted numbers.
sort-delete :
    (n : Name) (fs : Files)
    → IsPresent n fs
    → sort (stems fs) ≡ insert_sorted n.stem (sort (stems (Disk.delete n fs)))
unfolding Disk.find Disk.delete sort
sort-delete n [] (b, h) = cc
sort-delete n ((m, c) ∷ fs) (b, h) = elim (Bool-cases (Disk.same_name m n)) [
  | inl e ↦ ground (arith, e)
  | inr e ↦
      let there : Disk.find n fs ≡ some b = unfold Disk.find in ground (arith, e, h) in
      ground (
        arith,
        e,
        sort-delete n fs (b, there),
        insert_sorted_comm m.stem n.stem (sort (stems (Disk.delete n fs))),
      )
]

find-delete_other :
    (n m : Name) (fs : Files)
    → Disk.same_name m n ≡ false
    → Disk.find n (Disk.delete m fs) ≡ Disk.find n fs
unfolding Disk.find Disk.delete
find-delete_other n m [] h = refl
find-delete_other n m ((k, a) ∷ fs) h = ground (arith, find-delete_other n m fs h)

-- What os.Remove of a file that is there does.
record Deleted (n : Name) (d e : Disk) : Type 0 where
  pub names : sort (stems d.files) ≡ insert_sorted n.stem (sort (stems e.files))
  pub others : (m : Name) → Disk.same_name n m ≡ false → Disk.find m e.files ≡ Disk.find m d.files
  pub works : Works e

remove-Deleted :
    (n : Name) (d : Disk)
    → Works d
    → IsPresent n d.files
    → ((Disk.remove n d).0 ≡ ok tt) × Deleted n d (Disk.remove n d).1
unfolding Disk.remove
remove-Deleted n d w (b, h) = (
  ground (arith, w.exists, w.healthy, h),
  record {
    names = ground (arith, w.exists, w.healthy, h, sort-delete n d.files (b, h));
    others = λ m o. ground (arith, w.exists, w.healthy, h, find-delete_other m n d.files o);
    works = record {
      exists = ground (arith, w.exists, w.healthy, h);
      healthy = ground (arith, w.exists, w.healthy, h);
    };
  },
)

-- What Remove of a segment does to the directory.
pub record Gone (base : ℕ) (d e : Disk) : Type 0 where
  pub names : sort (stems d.files) ≡ insert_sorted base (insert_sorted base (sort (stems e.files)))
  pub others :
      (n : Name) → (n.stem < base) ⊎ (base < n.stem) → Disk.find n e.files ≡ Disk.find n d.files
  pub works : Works e

-- The numbers that are left, where those of the segment came first.
pub names-Gone :
    (base : ℕ) (d e : Disk) (rest : List ℕ)
    → Gone base d e
    → sort (stems d.files) ≡ base ∷ base ∷ rest
    → sort (stems e.files) ≡ rest
names-Gone base d e rest g h =
    let once : without_first base (base ∷ base ∷ rest) ≡ base ∷ rest = ground arith in
    let twice : without_first base (base ∷ rest) ≡ rest = ground arith in
    sym (without_first-insert_sorted base (sort (stems e.files)))
    ∙ ap (without_first base) (
        sym (without_first-insert_sorted base (insert_sorted base (sort (stems e.files))))
        ∙ ap (without_first base) (sym g.names ∙ h)
        ∙ once)
    ∙ twice

pub HasFiles-Gone :
    (base b : ℕ) (d e : Disk)
    → Gone base d e
    → (b < base) ⊎ (base < b)
    → HasFiles d.files b
    → HasFiles e.files b
HasFiles-Gone base b d e g o ((x, s), (y, i)) =
    ((x, g.others (store_name b) o ∙ s), (y, g.others (index_name b) o ∙ i))

closed_disk : Segment → List Payload → Disk → Disk
closed_disk s ps d =
    Disk.write_back (store_name s.base_offset) (frames ps)
      (Disk.write_back (index_name s.base_offset) (encode (entries 0 0 ps)) d)

module _ (s : Segment) (ps : List Payload) (d : Disk) (w : Works d)
    (files : HasFiles d.files s.base_offset) where
  base : ℕ
  base = s.base_offset

  shut : Disk
  shut = closed_disk s ps d

  shut-Works : Works shut
  unfolding shut closed_disk Disk.write_back
  shut-Works = record { exists = w.exists; healthy = w.healthy }

  shut-IsPresent : (n : Name) → IsPresent n d.files → IsPresent n shut.files
  unfolding shut closed_disk
  shut-IsPresent n h =
      write_back-IsPresent n (store_name s.base_offset) (frames ps) _
        (write_back-IsPresent n (index_name s.base_offset) (encode (entries 0 0 ps)) d h)

  shut-stems : stems shut.files ≡ stems d.files
  unfolding shut closed_disk
  shut-stems = write_back-stems _ _ _ ∙ write_back-stems _ _ _

  shut-others :
      (n : Name) → (n.stem < base) ⊎ (base < n.stem) → Disk.find n shut.files ≡ Disk.find n d.files
  unfolding shut closed_disk base
  shut-others n o =
      find-write_back_other n (store_name s.base_offset) (frames ps) _ (ground (arith, o))
      ∙ find-write_back_other n (index_name s.base_offset) (encode (entries 0 0 ps)) d
          (ground (arith, o))

  without_index : Disk
  without_index = (Disk.remove (index_name base) shut).1

  without_both : Disk
  without_both = (Disk.remove (store_name base) without_index).1

  index_taken_out :
      ((Disk.remove (index_name base) shut).0 ≡ ok tt)
      × Deleted (index_name base) shut without_index
  unfolding without_index base
  index_taken_out =
      remove-Deleted (index_name s.base_offset) shut shut-Works
        (shut-IsPresent (index_name s.base_offset) files.1)

  store_there : IsPresent (store_name base) without_index.files
  unfolding base
  store_there =
      let (b, h) = shut-IsPresent (store_name s.base_offset) files.0 in
      (b, index_taken_out.1.others (store_name s.base_offset) (ground arith) ∙ h)

  store_taken_out :
      ((Disk.remove (store_name base) without_index).0 ≡ ok tt)
      × Deleted (store_name base) without_index without_both
  unfolding without_both
  store_taken_out =
      remove-Deleted (store_name base) without_index index_taken_out.1.works store_there

  without_both-Gone : Gone base d without_both
  without_both-Gone = record {
    names =
        ap sort (sym shut-stems)
        ∙ index_taken_out.1.names
        ∙ ap (insert_sorted base) store_taken_out.1.names;
    others = λ n o.
        store_taken_out.1.others n (ground (arith, o))
        ∙ index_taken_out.1.others n (ground (arith, o))
        ∙ shut-others n o;
    works = store_taken_out.1.works;
  }

  remove-without_both :
      (libs : Libs) (reliable : Reliable libs)
      → Holds s ps
      → ((Segment.remove libs (record { segment = s; disk = d })).0 ≡ ok tt)
        × ((Segment.remove libs (record { segment = s; disk = d })).1.disk ≡ without_both)
  unfolding Segment.remove without_both without_index shut closed_disk base
  remove-without_both libs reliable h =
      let (okay, disk, same) = close_files-saves libs reliable s ps d h in
      let shut_disk : (Segment.close_files libs (record { segment = s; disk = d })).1.disk ≡ shut =
        unfold shut closed_disk in disk in
      let index = index_taken_out.0 in
      let store = store_taken_out.0 in ground (arith, okay, disk, same, index, store)

  -- Remove of a segment in its invariant, with its two files in the directory, succeeds, and takes
  -- them out.
  pub remove-Gone :
      (libs : Libs) (reliable : Reliable libs)
      → Holds s ps
      → ((Segment.remove libs (record { segment = s; disk = d })).0 ≡ ok tt)
        × Gone s.base_offset d (Segment.remove libs (record { segment = s; disk = d })).1.disk
  unfolding base
  remove-Gone libs reliable h =
      let (okay, disk) = remove-without_both libs reliable h in (okay, rw disk without_both-Gone)
