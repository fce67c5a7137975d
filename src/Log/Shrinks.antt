-- ===== src/Log/Shrinks.antt =====
-- Removing the files of a segment brings no file of the directory up.
use proglog.Base.{ℕ, ◌≡◌, refl, List, [], ◌∷◌, none, arith}
use proglog.Base.Exec.{Result, ok, err, Exec, continue}
use proglog.Api.{Libs}
use proglog.Disk
use proglog.Disk.{Disk, Name, Files}
use proglog.Segment
use proglog.Segment.{Segment, Config, OnDisk, store_name, index_name}
use proglog.Segment.Create.{Works, find-update-none}

find-delete-none :
    (n m : Name) (fs : Files) → Disk.find n fs ≡ none → Disk.find n (Disk.delete m fs) ≡ none
unfolding Disk.find Disk.delete
find-delete-none n m [] h = refl
find-delete-none n m ((k, c) ∷ fs) h = ground (arith, find-delete-none n m fs)

-- What a step on the directory may change: no file comes up, and the directory stays.
pub record Shrinks (d e : Disk) : Type 0 where
  pub works : Works d → Works e
  pub absent : (n : Name) → Disk.find n d.files ≡ none → Disk.find n e.files ≡ none

pub write_back-Shrinks : (n : Name) (b : List ℕ) (d : Disk) → Shrinks d (Disk.write_back n b d)
unfolding Disk.write_back
write_back-Shrinks n b d = record {
  works = λ w. record { exists = w.exists; healthy = w.healthy };
  absent = λ m h. find-update-none m n b d.files h;
}

remove-Shrinks : (n : Name) (d : Disk) → Shrinks d (Disk.remove n d).1
unfolding Disk.remove
remove-Shrinks n d = record {
  works = λ w. record { exists = ground (arith, w.exists); healthy = ground (arith, w.healthy) };
  absent = λ m h. ground (arith, find-delete-none m n d.files h);
}

pub Shrinks-trans : (a b c : Disk) → Shrinks a b → Shrinks b c → Shrinks a c
Shrinks-trans a b c h k = record {
  works = λ w. k.works (h.works w);
  absent = λ n e. k.absent n (h.absent n e);
}

put_back-Shrinks : (s : Segment) (d : Disk) → Shrinks d (Segment.put_back s d)
unfolding Segment.put_back
put_back-Shrinks s d =
    Shrinks-trans d (Disk.write_back (index_name s.base_offset) s.index.file.bytes d) _
      (write_back-Shrinks (index_name s.base_offset) s.index.file.bytes d)
      (write_back-Shrinks (store_name s.base_offset) s.store.buf.file.bytes _)

continue-Shrinks :
    (d : Disk) (r : Result (Unit {0})) (k : Unit {0} → Exec OnDisk (Unit {0})) (o : OnDisk)
    → Shrinks d o.disk
    → ((o' : OnDisk) → Shrinks d o'.disk → Shrinks d (k tt o').1.disk)
    → Shrinks d (continue r k o).1.disk
continue-Shrinks d (ok tt) k o h f = f o h
continue-Shrinks d (err e) k o h f = h

-- Removing a segment's files brings no file up, whether it fails or not.
pub removed-Shrinks :
    (libs : Libs) (s : Segment) (d : Disk)
    → Shrinks d (Segment.remove libs (record { segment = s; disk = d })).1.disk
unfolding Segment.remove Segment.close_files
removed-Shrinks libs s d =
    continue-Shrinks d (Segment.close libs s).0 _ _ (put_back-Shrinks (Segment.close libs s).1 d)
      λ o h.
        continue-Shrinks d (Disk.remove (index_name o.segment.base_offset) o.disk).0 _ _
          (Shrinks-trans d o.disk _ h (remove-Shrinks (index_name o.segment.base_offset) o.disk))
          λ o' h'.
            Shrinks-trans d o'.disk _ h' (remove-Shrinks (store_name o.segment.base_offset) o'.disk)

pub Shrinks-refl : (d : Disk) → Shrinks d d
Shrinks-refl d = record { works = λ w. w; absent = λ n e. e }
