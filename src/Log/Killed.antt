-- ===== src/Log/Killed.antt =====
-- A process that ends without Close of its log (internal/log/log.go), and NewLog in the next one.
use proglog.Base.{ℕ, ◌+◌, ◌≡◌, refl, ap, ◌∙◌, List, [], ◌∷◌, Option, false, arith, length, All}
use proglog.Base.Exec.{ok}
use proglog.Api.{Record, Libs, Reliable}
use proglog.Disk
use proglog.Disk.{Disk}
use proglog.Segment.{Segment, Config, store_name, index_name}
use proglog.Segment.Layout.{Payload}
use proglog.Segment.Create.{Works}
use proglog.Segment.Files.{
  IsPresent, HasFiles, stems, write_back-stems, write_back-IsPresent, find-write_back,
  find-write_back_other,
}
use proglog.Segment.Crashed.{IsSized, IsLeft, update-IsSized, Fails}
use proglog.Log.{Log, append, new_log, sort}
use proglog.Log.Chain.{Chain}
use proglog.Log.Refine.{Holds}
use proglog.Log.Saved.{IsMapped, bases}
use proglog.Log.Files.{All-HasFiles}
use proglog.Log.Stored.{Stored}
use proglog.Log.Crashed.{appended, append-crashed}

-- The files of a segment whose process was killed: the store's has what was written to it, without
-- what waited in the buffer, and the index's has the shared map.
abbrev pub leave_files : Segment → Disk → Disk
leave_files s d =
    Disk.write_back (store_name s.base_offset) s.store.buf.file.bytes
      (Disk.write_back (index_name s.base_offset) s.index.mmap d)

-- The directory behind a process that was killed.
abbrev pub killed : List Segment → Disk → Disk
killed [] d = d
killed (s ∷ ss) d = killed ss (leave_files s d)

leave_files-IsPresent :
    (s : Segment) (d : Disk) (n : Disk.Name)
    → IsPresent n d.files
    → IsPresent n (leave_files s d).files
leave_files-IsPresent s d n h =
    write_back-IsPresent n (store_name s.base_offset) s.store.buf.file.bytes
      (Disk.write_back (index_name s.base_offset) s.index.mmap d)
      (write_back-IsPresent n (index_name s.base_offset) s.index.mmap d h)

leave_files-stems : (s : Segment) (d : Disk) → stems (leave_files s d).files ≡ stems d.files
leave_files-stems s d =
    write_back-stems (store_name s.base_offset) s.store.buf.file.bytes
      (Disk.write_back (index_name s.base_offset) s.index.mmap d)
    ∙ write_back-stems (index_name s.base_offset) s.index.mmap d

killed-stems : (ss : List Segment) (d : Disk) → stems (killed ss d).files ≡ stems d.files
killed-stems [] d = refl
killed-stems (s ∷ ss) d = killed-stems ss (leave_files s d) ∙ leave_files-stems s d

killed-Works : (ss : List Segment) (d : Disk) → Works d → Works (killed ss d)
unfolding Disk.write_back
killed-Works [] d w = w
killed-Works (s ∷ ss) d w =
    killed-Works ss (leave_files s d) (record { exists = w.exists; healthy = w.healthy })

index_apart : (a b : ℕ) → Disk.same_name (store_name b) (index_name a) ≡ false
index_apart a b = ground arith

-- Writing a segment's files keeps the sizes of the other indices.
leave_files-IsSized :
    (k a : ℕ) (s : Segment) (d : Disk)
    → length s.index.mmap ≡ k
    → IsSized k (index_name a) d.files
    → IsSized k (index_name a) (leave_files s d).files
leave_files-IsSized k a s d e h =
    let (b, found, sized) : IsSized k (index_name a)
        (Disk.write_back (index_name s.base_offset) s.index.mmap d).files =
      unfold Disk.write_back in
      update-IsSized k (index_name a) (index_name s.base_offset) s.index.mmap d.files e h in
    (
      b,
      find-write_back_other (index_name a) (store_name s.base_offset) s.store.buf.file.bytes
            (Disk.write_back (index_name s.base_offset) s.index.mmap d)
            (index_apart a s.base_offset)
          ∙ found,
      sized,
    )

leave_files-own :
    (k : ℕ) (s : Segment) (d : Disk)
    → length s.index.mmap ≡ k
    → HasFiles d.files s.base_offset
    → IsLeft k (leave_files s d).files s.base_offset
leave_files-own k s d e (store, index) = (
  leave_files-IsPresent s d (store_name s.base_offset) store,
  (
    s.index.mmap,
    find-write_back_other (index_name s.base_offset) (store_name s.base_offset)
          s.store.buf.file.bytes (Disk.write_back (index_name s.base_offset) s.index.mmap d)
          (index_apart s.base_offset s.base_offset)
        ∙ find-write_back (index_name s.base_offset) s.index.mmap d index,
    e,
  ),
)

abbrev pub AllSized : ℕ → List Segment → Type 0
AllSized k = All (λ s. length s.index.mmap ≡ k)

killed-IsLeft :
    (k a : ℕ) (ss : List Segment) (d : Disk)
    → AllSized k ss
    → IsLeft k d.files a
    → IsLeft k (killed ss d).files a
killed-IsLeft k a [] d e h = h
killed-IsLeft k a (s ∷ ss) d (e, es) (store, index) =
    killed-IsLeft k a ss (leave_files s d) es
      (leave_files-IsPresent s d (store_name a) store, leave_files-IsSized k a s d e index)

killed-AllLeft :
    (k : ℕ) (ss : List Segment) (d : Disk)
    → AllSized k ss
    → All (HasFiles d.files) (bases ss)
    → All (IsLeft k (killed ss d).files) (bases ss)
killed-AllLeft k [] d e h = tt
killed-AllLeft k (s ∷ ss) d (e, es) (h, hs) = (
  killed-IsLeft k s.base_offset ss (leave_files s d) es (leave_files-own k s d e h),
  killed-AllLeft k ss (leave_files s d) es
      (All-HasFiles (bases ss) d (leave_files s d) (leave_files-IsPresent s d) hs),
)

Chain-AllSized :
    (c : Config) (first : ℕ) (ss : List Segment) (qs : List Payload)
    → Chain c first ss qs
    → All IsMapped ss
    → AllSized c.max_index_bytes ss
Chain-AllSized c first [] qs h m = tt
Chain-AllSized c first (s ∷ ss) qs (ps, rest, e, l, h) (m, ms) = (
  m ∙ ap (λ (x : Config). x.max_index_bytes) l.config,
  Chain-AllSized c (first + length ps) ss rest h ms,
)

stuck_again :
    (libs : Libs) (reliable : Reliable libs) (l : Log) (first : ℕ) (qs : List Payload)
    (ss : List Segment) (rs : List (Option Record)) (r : Option Record)
    → l.segments ≡ ss
    → Holds l first qs
    → Stored l
    → ((new_log libs (killed ss l.disk) l.config).0 ≡ ok tt)
      × Fails (append libs r (appended libs rs (new_log libs (killed ss l.disk) l.config).1)).0
stuck_again libs reliable l first qs [] rs r e h s = absurd (rw e at h.room)
stuck_again libs reliable l first qs (t ∷ ss) rs r e h s =
    let sized = Chain-AllSized l.config first (t ∷ ss) qs (rw e at h.chain) (rw e at s.mapped) in
    append-crashed libs reliable l.config h.sound t.base_offset (bases ss) (killed (t ∷ ss) l.disk)
      rs r (killed-Works (t ∷ ss) l.disk h.works)
      (ap sort (killed-stems (t ∷ ss) l.disk) ∙ (rw e at s.names))
      (killed-AllLeft l.config.max_index_bytes (t ∷ ss) l.disk sized (rw e at s.present))

-- A process that is killed without Close of its log, in its invariant and with its files in the
-- directory: NewLog on what is left, with the same configuration, succeeds; but then no Append ever
-- succeeds, whatever was tried before. The index files still have the size of their maps, so that
-- newIndex takes them as full.
pub append-killed :
    (libs : Libs) (reliable : Reliable libs) (l : Log) (first : ℕ) (qs : List Payload)
    (rs : List (Option Record)) (r : Option Record)
    → Holds l first qs
    → Stored l
    → ((new_log libs (killed l.segments l.disk) l.config).0 ≡ ok tt)
      × Fails
          (append libs r (appended libs rs (new_log libs (killed l.segments l.disk) l.config).1)).0
append-killed libs reliable l first qs rs r h s =
    stuck_again libs reliable l first qs l.segments rs r refl h s
