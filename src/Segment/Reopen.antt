-- ===== src/Segment/Reopen.antt =====
-- newSegment on the files that Close of a segment left (internal/log/segment.go).
use proglog.Base.{
  ℕ, ◌+◌, ◌*◌, ◌≤◌, ◌<◌, ◌^◌, ◌≡◌, refl, ap, ◌∙◌, List, [], ◌∷◌, ◌++◌, some, arith, length,
  length-append, All, false, append-nil, ◌⊎◌, inl, inr,
}
use proglog.Base.Exec.{ok}
use proglog.Api.{Libs, Reliable}
use proglog.Io
use proglog.Io.{opened}
use proglog.Disk
use proglog.Disk.{Disk}
use proglog.Store
use proglog.Index
use proglog.Index.{Index, minus_one}
use proglog.Index.Entries.{IsEntry, encode}
use proglog.Index.Refine.{Lists, read-last, read-empty}
use proglog.Index.Reopen.{
  reopened, close-bytes, new_index-reopened, reopened-Lists, reopened-is_maxed, length-reopened,
}
use proglog.Store.Refine
use proglog.Segment.{
  Segment, Config, close_files, close, put_back, new_segment, store_name, index_name, is_maxed,
  offset_after,
}
use proglog.Segment.Layout.{Payload, frames, entries, entries_snoc, length-entries}
use proglog.Segment.Refine.{Holds}
use proglog.Segment.Create.{Works, IsSound}

-- What the payloads of a segment are, whether its files are open or closed.
pub record Part (c : Config) (base : ℕ) (ps : List Payload) : Type 0 where
  pub top : base + length ps < 2 ^ 63
  pub bytes : length (frames ps) < 2 ^ 63
  pub small : All (λ p. length p < 2 ^ 48) ps
  pub entries : All IsEntry (entries 0 0 ps)
  pub room : 12 * length ps ≤ c.max_index_bytes

-- The files of the segment hold the payloads and their entries.
abbrev pub IsSaved : ℕ → List Payload → Disk → Type 0
IsSaved base ps d =
    (Disk.find (store_name base) d.files ≡ some (frames ps))
    × (Disk.find (index_name base) d.files ≡ some (encode (entries 0 0 ps)))

snoc_cases {ℓ} :
    {A : Type ℓ} (xs : List A) → (xs ≡ []) ⊎ ((ys : List A) × (y : A) × (xs ≡ ys ++ (y ∷ [])))
snoc_cases [] = inl refl
snoc_cases (x ∷ xs) = elim (snoc_cases xs) [
  | inl e ↦ inr ([], x, ap (λ t. x ∷ t) e)
  | inr (ys, y, e) ↦ inr (x ∷ ys, y, ap (λ t. x ∷ t) e)
]

module _ (libs : Libs) (reliable : Reliable libs) (c : Config) (sound : IsSound c) (base : ℕ)
    (ps : List Payload) (part : Part c base ps) where
  fits : 12 * length (entries 0 0 ps) ≤ c.max_index_bytes
  fits = omega (arith, part.room, length-entries ps 0 0)

  index : Index
  index =
      reopened libs reliable (entries 0 0 ps) c.max_index_bytes part.entries fits sound.index_top

  index-Lists : Lists index (entries 0 0 ps)
  unfolding index
  index-Lists =
      reopened-Lists libs reliable (entries 0 0 ps) c.max_index_bytes part.entries fits
        sound.index_top

  pub again : Segment
  again = record {
    store = record { buf = Io.new_writer (opened (frames ps)); size = length (frames ps) };
    index = index;
    base_offset = base;
    next_offset = base + length ps;
    config = c;
  }

  -- The next offset is read off the last entry.
  next_offset-again : offset_after base (Index.read minus_one index).0 ≡ base + length ps
  unfolding entries
  next_offset-again = elim (snoc_cases ps) [
    | inl e ↦
        let none : Lists index [] = rw (ap (entries 0 0) e) at index-Lists in
        ground (arith, read-empty index none, e)
    | inr (qs, q, e) ↦
        let last : Lists index (entries 0 0 qs ++ ((0 + length qs, 0 + length (frames qs)) ∷ [])) =
          rw (ap (entries 0 0) e ∙ entries_snoc qs q 0 0) at index-Lists in
        ground (
          arith,
          read-last index (entries 0 0 qs) (0 + length qs, 0 + length (frames qs)) last,
          part.top,
          ap length e,
          length-append qs (q ∷ []),
        )
  ]

  new_index-index :
      (Index.new_index libs c.max_index_bytes (opened (encode (entries 0 0 ps)))).0 ≡ ok index
  unfolding index
  new_index-index =
      new_index-reopened libs reliable (entries 0 0 ps) c.max_index_bytes part.entries fits
        sound.index_top

  pub index_bytes : List ℕ
  index_bytes = (Index.new_index libs c.max_index_bytes (opened (encode (entries 0 0 ps)))).1.bytes

  pub new_segment-again :
      (d : Disk)
      → Works d
      → IsSaved base ps d
      → new_segment libs base c d ≡ (ok again, Disk.write_back (index_name base) index_bytes d)
  unfolding new_segment again index_bytes Disk.open_file Store.new_store Io.stat
  new_segment-again d w (s, i) =
      ground (arith, w.exists, w.healthy, s, i, new_index-index, next_offset-again)

  pub again-Holds : Holds again ps
  unfolding again
  again-Holds = record {
    store = record {
      wrote = record { healthy = refl; no_error = refl; all = append-nil (frames ps) };
      sized = refl;
    };
    index = index-Lists;
    next = refl;
    top = part.top;
    bytes = part.bytes;
    small = part.small;
  }

  pub again-base : again.base_offset ≡ base
  unfolding again
  again-base = refl

  pub again-config : again.config ≡ c
  unfolding again
  again-config = refl

  pub again-mmap : length again.index.mmap ≡ c.max_index_bytes
  unfolding again index
  again-mmap =
      length-reopened libs reliable (entries 0 0 ps) c.max_index_bytes part.entries fits
        sound.index_top

  pub again-is_maxed :
      length (frames ps) < c.max_store_bytes
      → 12 * length ps + 12 ≤ c.max_index_bytes
      → is_maxed again ≡ false
  unfolding is_maxed again
  again-is_maxed store_room index_room =
      let open_index : Index.is_maxed index ≡ false =
        unfold index in
        reopened-is_maxed libs reliable (entries 0 0 ps) c.max_index_bytes part.entries fits
          sound.index_top (omega (arith, index_room, length-entries ps 0 0)) in
      ground (arith, open_index, store_room, index_room, index-Lists.sized, length-entries ps 0 0)

-- Close of a segment succeeds, and puts the payloads and their entries in the files.
pub close_files-saves :
    (libs : Libs) (reliable : Reliable libs) (s : Segment) (ps : List Payload) (d : Disk)
    → Holds s ps
    → ((close_files libs (record { segment = s; disk = d })).0 ≡ ok tt)
      × ((close_files libs (record { segment = s; disk = d })).1.disk
          ≡ Disk.write_back
              (store_name s.base_offset)
              (frames ps)
              (Disk.write_back (index_name s.base_offset) (encode (entries 0 0 ps)) d))
      × ((close_files libs (record { segment = s; disk = d })).1.segment.base_offset
          ≡ s.base_offset)
unfolding close_files close put_back
close_files-saves libs reliable s ps d h = ground (
  arith,
  close-bytes libs reliable s.index (entries 0 0 ps) h.index,
  Store.Refine.close-Holds s.store (frames ps) h.store,
)
