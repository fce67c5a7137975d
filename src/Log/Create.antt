-- ===== src/Log/Create.antt =====
-- NewLog on an empty directory, and what a client sees of the log from there.
pub mod Files
use proglog.Base.{
  ℕ, ◌+◌, ◌<◌, ◌^◌, ◌≡◌, refl, ◌∙◌, List, [], ◌∷◌, ◌++◌, some, arith, length,
  get_elem?-append_right, get_elem?-append, get_elem?_total, inl, inr, lt_trichotomy, length-append,
  ◌==◌, if◌then◌else◌,
}
use proglog.Base.Exec.{ok}
use proglog.Api.{Record, Libs, Reliable, Fits}
use proglog.Disk
use proglog.Disk.{Disk}
use proglog.Segment.{Segment, Config}
use proglog.Segment.Layout.{Payload}
use proglog.Segment.Create.{
  Works, IsSound, Absent, fresh, disk_with, new_segment-fresh, fresh-Holds, fresh-is_maxed,
  fresh-base, fresh-config, disk_with-Works, disk_with-Absent,
}
use proglog.Log.{
  Log, newest, append, read, new_segment, new_log, setup, open_all, sort, default_bytes,
}
use proglog.Log.Refine.{Holds, append-Holds, read-Holds, read_out_of_range}

module _ (libs : Libs) (reliable : Reliable libs) (d : Disk) (c : Config) (works : Works d)
    (empty : d.files ≡ [])
    (sound : IsSound (record c {
      max_store_bytes = default_bytes c.max_store_bytes;
      max_index_bytes = default_bytes c.max_index_bytes;
    })) where
  settled : Config
  settled = record c {
    max_store_bytes = default_bytes c.max_store_bytes;
    max_index_bytes = default_bytes c.max_index_bytes;
  }

  settled-IsSound : IsSound settled
  unfolding settled
  settled-IsSound = sound

  first_segment : Segment
  first_segment = fresh libs reliable c.initial_offset settled settled-IsSound

  created : Log
  created = record {
    disk = disk_with libs reliable c.initial_offset settled settled-IsSound d;
    config = settled;
    active = newest;
    segments = first_segment ∷ [];
  }

  none-Absent : (base : ℕ) → Absent base d.files
  unfolding Disk.find
  none-Absent base = ground (arith, empty)

  new_log-created : new_log libs d c ≡ (ok tt, created)
  unfolding new_log setup open_all sort new_segment created first_segment settled Disk.read_dir
  new_log-created = ground (
    arith,
    empty,
    works.exists,
    works.healthy,
    new_segment-fresh libs reliable c.initial_offset settled settled-IsSound d works
        (none-Absent c.initial_offset),
  )

  created-Holds : c.initial_offset < 2 ^ 63 → Holds created c.initial_offset []
  unfolding created first_segment
  created-Holds top = record {
    active = refl;
    chain = (
      [],
      [],
      refl,
      record {
        holds = fresh-Holds libs reliable c.initial_offset settled settled-IsSound top;
        base = fresh-base libs reliable c.initial_offset settled settled-IsSound;
        config = fresh-config libs reliable c.initial_offset settled settled-IsSound;
      },
      refl,
    );
    room = fresh-is_maxed libs reliable c.initial_offset settled settled-IsSound;
    sound = settled-IsSound;
    works = disk_with-Works libs reliable c.initial_offset settled settled-IsSound d works;
    absent = λ base b.
        disk_with-Absent libs reliable c.initial_offset settled settled-IsSound d base (omega arith)
          (none-Absent base);
  }

  -- NewLog on an empty directory that can be read, with segment sizes that leave room for a
  -- record, gives an empty log that starts at the initial offset.
  pub new_log-Holds :
      c.initial_offset < 2 ^ 63
      → ((new_log libs d c).0 ≡ ok tt) × Holds (new_log libs d c).1 c.initial_offset []
  new_log-Holds top = rw new_log-created (refl, created-Holds top)

-- After Append of a record that Marshal accepts, on a log in its invariant, every offset reads as
-- before, but the one behind the last record, which Append returned: it reads as the record, with
-- that offset in it.
pub read-append :
    (libs : Libs) (reliable : Reliable libs) (l : Log) (first : ℕ) (qs : List Payload) (r : Record)
    (p : Payload) (k : ℕ)
    → Holds l first qs
    → libs.marshal (record r { offset = first + length qs }) ≡ ok p
    → Fits (record r { offset = first + length qs })
    → length p < 2 ^ 48
    → first + length qs + 1 < 2 ^ 63
    → ((append libs (some r) l).0 ≡ ok (first + length qs))
      × ((read libs (first + k) (append libs (some r) l).1).0 ≡ (
          if k == length qs
          then ok (record r { offset = first + length qs })
          else (read libs (first + k) l).0))
read-append libs reliable l first qs r p k h m fits small top =
    let (result, holds) = append-Holds libs reliable l first qs h r p m small top in
    (
      result,
      elim (lt_trichotomy k (length qs)) [
        | inl lt ↦
            let (q, g) = get_elem?_total qs k lt in
            let now =
              read-Holds libs (append libs (some r) l).1 first (qs ++ (p ∷ [])) holds k q
                (get_elem?-append qs (p ∷ []) k lt ∙ g) in
            let was = read-Holds libs l first qs h k q g in ground (arith, now.0, was.0)
        | inr (inl e) ↦
            let now =
              read-Holds libs (append libs (some r) l).1 first (qs ++ (p ∷ [])) holds k p
                (get_elem?-append_right qs (p ∷ []) k 0 (omega arith)) in
            ground (arith, now.0, reliable.unmarshal-marshal _ p fits m)
        | inr (inr gt) ↦
            let now =
              read_out_of_range libs (append libs (some r) l).1 first (qs ++ (p ∷ [])) holds
                (first + k) (inr (omega (arith, length-append qs (p ∷ [])))) in
            let was = read_out_of_range libs l first qs h (first + k) (inr (omega arith)) in
            ground (arith, now, was)
      ],
    )
