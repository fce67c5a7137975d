-- ===== src/Segment/Create.antt =====
-- newSegment where the directory has no file of that offset: an empty segment with room.
use proglog.Base.{length, ℕ, ◌≤◌, ◌<◌, ◌^◌, ◌≡◌, refl, List, [], ◌∷◌, none, arith, true, false}
use proglog.Base.Exec.{ok}
use proglog.Api.{Libs, Reliable}
use proglog.Io
use proglog.Io.{opened}
use proglog.Io.Position.{IsAtEnd}
use proglog.Disk
use proglog.Disk.{Disk, Name, Files}
use proglog.Store
use proglog.Index
use proglog.Index.{Index, minus_one}
use proglog.Index.Entries.{encode}
use proglog.Index.Refine.{Lists, read-empty}
use proglog.Index.Reopen.{
  reopened, new_index-reopened, reopened-Lists, reopened-is_maxed, length-reopened,
}
use proglog.Segment.{Segment, Config, new_segment, is_maxed, store_name, index_name}
use proglog.Segment.Files.{
  stems, IsPresent, HasFiles, stems-update, update-IsPresent, cons-IsPresent,
}
use proglog.Segment.Layout.{frames, entries}
use proglog.Segment.Refine.{Holds}

-- The directory is there and works.
pub record Works (d : Disk) : Type 0 where
  pub exists : d.exists ≡ true
  pub healthy : d.fault ≡ none

-- The limits under which a segment has room for a record, and its numbers do not wrap.
pub record IsSound (c : Config) : Type 0 where
  pub store_room : 0 < c.max_store_bytes
  pub store_top : c.max_store_bytes ≤ 2 ^ 62
  pub index_room : 12 ≤ c.max_index_bytes
  pub index_top : c.max_index_bytes < 2 ^ 32

abbrev pub Absent : ℕ → Files → Type 0
Absent base fs = (Disk.find (store_name base) fs ≡ none) × (Disk.find (index_name base) fs ≡ none)

-- A name that is absent stays absent when the bytes of another file change.
pub find-update-none :
    (n m : Name) (b : List ℕ) (fs : Files)
    → Disk.find n fs ≡ none
    → Disk.find n (Disk.update m b fs) ≡ none
unfolding Disk.find Disk.update
find-update-none n m b [] h = refl
find-update-none n m b ((k, c) ∷ fs) h = ground (arith, find-update-none n m b fs)

module _ (libs : Libs) (reliable : Reliable libs) (base : ℕ) (c : Config) (sound : IsSound c) where
  empty_index : Index
  empty_index = reopened libs reliable [] c.max_index_bytes tt (omega arith) sound.index_top

  empty_index-Lists : Lists empty_index []
  unfolding empty_index
  empty_index-Lists =
      reopened-Lists libs reliable [] c.max_index_bytes tt (omega arith) sound.index_top

  pub fresh : Segment
  fresh = record {
    store = record { buf = Io.new_writer (opened []); size = 0 };
    index = empty_index;
    base_offset = base;
    next_offset = base;
    config = c;
  }

  new_index-empty : (Index.new_index libs c.max_index_bytes (opened [])).0 ≡ ok empty_index
  unfolding empty_index encode
  new_index-empty =
      new_index-reopened libs reliable [] c.max_index_bytes tt (omega arith) sound.index_top

  index_bytes : List ℕ
  index_bytes = (Index.new_index libs c.max_index_bytes (opened [])).1.bytes

  pub disk_with : Disk → Disk
  disk_with d = record d {
    files =
        Disk.update (index_name base) index_bytes
          ((index_name base, []) ∷ ((store_name base, []) ∷ d.files));
  }

  pub new_segment-fresh :
      (d : Disk)
      → Works d
      → Absent base d.files
      → new_segment libs base c d ≡ (ok fresh, disk_with d)
  unfolding new_segment fresh disk_with index_bytes Disk.open_file Disk.write_back Disk.find
      Store.new_store
  new_segment-fresh d w (no_store, no_index) = ground (
    arith,
    w.exists,
    w.healthy,
    no_store,
    no_index,
    new_index-empty,
    read-empty empty_index empty_index-Lists,
  )

  pub fresh-Holds : base < 2 ^ 63 → Holds fresh []
  unfolding fresh frames entries
  fresh-Holds top = record {
    store = record { wrote = record { healthy = refl; no_error = refl; all = refl }; sized = refl };
    index = empty_index-Lists;
    next = omega arith;
    top = omega arith;
    bytes = omega arith;
    small = tt;
  }

  pub fresh-is_maxed : is_maxed fresh ≡ false
  unfolding is_maxed fresh
  fresh-is_maxed = ground (arith, empty_index-Lists.sized, room, sound.store_room, sound.index_room)
    where
      room : Index.is_maxed empty_index ≡ false
      room =
          unfold empty_index in
          reopened-is_maxed libs reliable [] c.max_index_bytes tt (omega arith) sound.index_top
            (omega (arith, sound.index_room))

  pub fresh-base : fresh.base_offset ≡ base
  unfolding fresh
  fresh-base = refl

  pub fresh-config : fresh.config ≡ c
  unfolding fresh
  fresh-config = refl

  pub disk_with-Works : (d : Disk) → Works d → Works (disk_with d)
  unfolding disk_with
  disk_with-Works d w = record { exists = w.exists; healthy = w.healthy }

  pub disk_with-Absent :
      (d : Disk) (k : ℕ) → base < k → Absent k d.files → Absent k (disk_with d).files
  unfolding disk_with
  disk_with-Absent d k b (no_store, no_index) = (
    find-update-none (store_name k) (index_name base) index_bytes
        ((index_name base, []) ∷ ((store_name base, []) ∷ d.files))
        (unfold Disk.find in ground (arith, no_store)),
    find-update-none (index_name k) (index_name base) index_bytes
        ((index_name base, []) ∷ ((store_name base, []) ∷ d.files))
        (unfold Disk.find in ground (arith, no_index)),
  )

  pub disk_with-stems : (d : Disk) → stems (disk_with d).files ≡ base ∷ base ∷ stems d.files
  unfolding disk_with
  disk_with-stems d =
      stems-update (index_name base) index_bytes
        ((index_name base, []) ∷ ((store_name base, []) ∷ d.files))

  pub disk_with-IsPresent :
      (d : Disk) (n : Name) → IsPresent n d.files → IsPresent n (disk_with d).files
  unfolding disk_with Disk.find
  disk_with-IsPresent d n h =
      update-IsPresent n (index_name base) index_bytes
        ((index_name base, []) ∷ ((store_name base, []) ∷ d.files))
        (cons-IsPresent n (index_name base) [] ((store_name base, []) ∷ d.files)
          (cons-IsPresent n (store_name base) [] d.files h))

  pub disk_with-HasFiles : (d : Disk) → HasFiles (disk_with d).files base
  unfolding disk_with Disk.find
  disk_with-HasFiles d = (
    update-IsPresent (store_name base) (index_name base) index_bytes _ ([], ground arith),
    update-IsPresent (index_name base) (index_name base) index_bytes _ ([], ground arith),
  )

  pub fresh-IsAtEnd : IsAtEnd fresh.store.buf.file
  unfolding fresh
  fresh-IsAtEnd = refl

  pub fresh-mmap : length fresh.index.mmap ≡ c.max_index_bytes
  unfolding fresh empty_index
  fresh-mmap = length-reopened libs reliable [] c.max_index_bytes tt (omega arith) sound.index_top
