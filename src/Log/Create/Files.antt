-- ===== src/Log/Create/Files.antt =====
-- NewLog on an empty directory leaves the files of one segment (internal/log/log.go).
use proglog.Base.{ℕ, ◌≡◌, ap, sym, ◌∙◌, [], ◌∷◌, arith, All}
use proglog.Api.{Libs, Reliable}
use proglog.Disk.{Disk}
use proglog.Segment.{Config}
use proglog.Segment.Files.{stems, HasFiles}
use proglog.Segment.Create.{
  Works, IsSound, fresh-base, fresh-config, fresh-mmap, fresh-IsAtEnd, disk_with-stems,
  disk_with-HasFiles,
}
use proglog.Log.{Log, sort, insert_sorted, new_log, default_bytes}
use proglog.Log.Saved.{IsMapped, bases}
use proglog.Log.AtEnd.{AllAtEnd}
use proglog.Log.Stored.{Stored}
use proglog.Log.Create.{settled, settled-IsSound, first_segment, created, new_log-created}

one_segment-Stored :
    (l : Log) (b : ℕ)
    → bases l.segments ≡ b ∷ []
    → sort (stems l.disk.files) ≡ b ∷ b ∷ []
    → HasFiles l.disk.files b
    → All IsMapped l.segments
    → Stored l
one_segment-Stored l b e n p m = record {
  names = rw e n;
  present = rw e (p, tt);
  rising = rw e (tt, tt);
  mapped = m;
}

module _ (libs : Libs) (reliable : Reliable libs) (d : Disk) (c : Config) (works : Works d)
    (empty : d.files ≡ [])
    (sound : IsSound (record c {
      max_store_bytes = default_bytes c.max_store_bytes;
      max_index_bytes = default_bytes c.max_index_bytes;
    })) where
  made : Log
  made = created libs reliable d c works empty sound

  at : bases made.segments ≡ c.initial_offset ∷ []
  unfolding made created first_segment
  at =
      ap (λ b. b ∷ [])
        (fresh-base libs reliable c.initial_offset (settled libs reliable d c works empty sound)
          (settled-IsSound libs reliable d c works empty sound))

  made-Stored : Stored made
  unfolding made created first_segment sort insert_sorted
  made-Stored =
      let k : Config = settled libs reliable d c works empty sound in
      let s : IsSound k = settled-IsSound libs reliable d c works empty sound in
      one_segment-Stored made c.initial_offset at
        (ground (arith, disk_with-stems libs reliable c.initial_offset k s d, empty))
        (disk_with-HasFiles libs reliable c.initial_offset k s d)
        (
          fresh-mmap libs reliable c.initial_offset k s
              ∙ ap (λ (x : Config). x.max_index_bytes)
                  (sym (fresh-config libs reliable c.initial_offset k s)),
          tt,
        )

  -- NewLog on an empty directory leaves the two files of its segment there, and no others.
  pub new_log-Stored : Stored (new_log libs d c).1
  unfolding made
  new_log-Stored = rw (new_log-created libs reliable d c works empty sound) made-Stored

  made-AllAtEnd : AllAtEnd made.segments
  unfolding made created first_segment
  made-AllAtEnd = (
    fresh-IsAtEnd libs reliable c.initial_offset (settled libs reliable d c works empty sound)
        (settled-IsSound libs reliable d c works empty sound),
    tt,
  )

  -- The files of its stores stand at their ends.
  pub new_log-AllAtEnd : AllAtEnd (new_log libs d c).1.segments
  unfolding made
  new_log-AllAtEnd = rw (new_log-created libs reliable d c works empty sound) made-AllAtEnd
