-- ===== src/Segment/Crashed.antt =====
-- newSegment on the files of a segment that was not closed (internal/log/segment.go): the index's file
-- still has the size that newIndex gave it.
use proglog.Base.{
  ℕ, ◌<◌, ◌^◌, ◌≡◌, refl, List, [], ◌∷◌, sub64, ◌%◌, Option, none, some, true, arith, length,
  append-nil, take_all, Bool-cases, inl, inr, ◌⊎◌,
}
use proglog.Base.Exec.{Error, panic, eof, Result, ok, err}
use proglog.Api.{Record, Libs, Reliable}
use proglog.Io
use proglog.Io.{opened}
use proglog.Disk
use proglog.Disk.{Disk, Name, Files}
use proglog.Store
use proglog.Index
use proglog.Index.{Index, minus_one}
use proglog.Index.Write.{write_full}
use proglog.Segment.{Segment, Config, new_segment, append, store_name, index_name, offset_after}
use proglog.Segment.Files.{IsPresent}
use proglog.Segment.Create.{Works}

abbrev pub IsSized : ℕ → Name → Files → Type 0
IsSized n name fs = (b : List ℕ) × (Disk.find name fs ≡ some b) × (length b ≡ n)

-- The store is there, and the index with this size.
abbrev pub IsLeft : ℕ → Files → ℕ → Type 0
IsLeft n fs base = IsPresent (store_name base) fs × IsSized n (index_name base) fs

pub update-IsSized :
    (k : ℕ) (n m : Name) (b : List ℕ) (fs : Files)
    → length b ≡ k
    → IsSized k n fs
    → IsSized k n (Disk.update m b fs)
unfolding Disk.find Disk.update
update-IsSized k n m b [] e (c, h, s) = cc
update-IsSized k n m b ((o, a) ∷ fs) e (c, h, s) = elim (Bool-cases (Disk.same_name o m)) [
  | inl f ↦ elim (Bool-cases (Disk.same_name o n)) [
    | inl g ↦ (b, ground (arith, f, g), e)
    | inr g ↦ (c, ground (arith, f, g, h), s)
  ]
  | inr f ↦ elim (Bool-cases (Disk.same_name o n)) [
    | inl g ↦ (a, ground (arith, f, g), ground (arith, g, h, s))
    | inr g ↦
        let (x, i, t) = update-IsSized k n m b fs e (c, ground (arith, g, h), s) in
        (x, ground (arith, f, g, i), t)
  ]
]

module _ (libs : Libs) (reliable : Reliable libs) (c : Config) (small : c.max_index_bytes < 2 ^ 32)
    (base : ℕ) (held ix : List ℕ) (sized : length ix ≡ c.max_index_bytes) where
  -- What newIndex makes of it.
  full_index : Index
  full_index = record { file = opened ix; mmap = ix; size = length ix }

  new_index-full_index :
      Index.new_index libs c.max_index_bytes (opened ix) ≡ (ok full_index, opened ix)
  unfolding Index.new_index full_index Io.stat Io.truncate
  new_index-full_index = ground (
    arith,
    sized,
    small,
    take_all c.max_index_bytes ix (omega (arith, sized)),
    append-nil ix,
    reliable.maps ix,
  )

  pub full_segment : Segment
  full_segment = record {
    store = record { buf = Io.new_writer (opened held); size = length held };
    index = full_index;
    base_offset = base;
    next_offset = offset_after base (Index.read minus_one full_index).0;
    config = c;
  }

  pub new_segment-full_segment :
      (d : Disk)
      → Works d
      → Disk.find (store_name base) d.files ≡ some held
      → Disk.find (index_name base) d.files ≡ some ix
      → new_segment libs base c d ≡ (ok full_segment, Disk.write_back (index_name base) ix d)
  unfolding new_segment full_segment Disk.open_file Store.new_store Io.stat
  new_segment-full_segment d w s i = ground (arith, w.exists, w.healthy, s, i, new_index-full_index)

  pub full_segment-is_maxed : Index.is_maxed full_segment.index ≡ true
  unfolding full_segment full_index Index.is_maxed
  full_segment-is_maxed = ground (arith, sized, small)

abbrev pub Fails {ℓ} : {A : Type ℓ} → Result A → Type ℓ
Fails x = (e : Error) × (x ≡ err e)

result_cases {ℓ} : {A : Type ℓ} (x : Result A) → Fails x ⊎ ((a : A) × (x ≡ ok a))
result_cases (ok a) = inr (a, refl)
result_cases (err e) = inl (e, refl)

-- Append of any record on a segment whose index is full fails, and keeps the index.
pub append-Fails :
    (libs : Libs) (r : Option Record) (s : Segment)
    → Index.is_maxed s.index ≡ true
    → Fails (append libs r s).0 × ((append libs r s).1.index ≡ s.index)
unfolding append
append-Fails libs none s full = ((panic, refl), refl)
append-Fails libs (some r) s full =
    elim (result_cases (libs.marshal (record r { offset = s.next_offset }))) [
      | inl (e, m) ↦ ((e, rw m refl), rw m refl)
      | inr (p, m) ↦ elim (result_cases (Store.append p s.store).0) [
        | inl (e, f) ↦ ((e, rw (m, f) refl), rw (m, f) refl)
        | inr ((n, pos), f) ↦
            let kept = write_full s.index (sub64 s.next_offset s.base_offset % 2 ^ 32) pos full in
            ((eof, ground (arith, m, f, kept)), ground (arith, m, f, kept))
      ]
    ]
