-- ===== src/Segment/Refine.antt =====
-- A segment stands for the list of the payloads (marshalled records) that were appended to it.
use proglog.Base.{
  ℕ, ◌+◌, ◌*◌, ◌≤◌, ◌<◌, ◌^◌, ◌%◌, ◌≡◌, refl, ap, sym, ◌∙◌, List, [], ◌∷◌, ◌++◌, some, arith,
  length, length-append, All, false, true, get_elem?, sub64, split_at,
}
use proglog.Base.Exec.{ok, err, eof}
use proglog.Api.{Record, Libs}
use proglog.Store
use proglog.Store.{Store}
use proglog.Store.Refine
use proglog.Store.Refine.{frame, read-frame, length-frame}
use proglog.Index
use proglog.Index.{Index}
use proglog.Index.Refine.{Lists, mapped_size, read-get, read-out}
use proglog.Index.Write.{write-Lists, write_full, write-mmap}
use native.Mathlib.Nat.{zero-add}
use proglog.Segment.{Segment, append, read}
use proglog.Segment.Layout.{
  Payload, frames, entries, frames_snoc, frames_middle, entries_snoc, length-entries, entries-get,
  All_snoc, All_middle,
}

-- The store has the payloads one after the other, and the index has an entry for each of them.
pub record Holds (s : Segment) (ps : List Payload) : Type 0 where
  pub store : Store.Refine.Holds s.store (frames ps)
  pub index : Lists s.index (entries 0 0 ps)
  pub next : s.next_offset ≡ s.base_offset + length ps
  pub top : s.base_offset + length ps < 2 ^ 63
  pub bytes : length (frames ps) < 2 ^ 63
  pub small : All (λ p. length p < 2 ^ 48) ps

-- What reading leaves alone.
pub record SameShape (s t : Segment) : Type 0 where
  pub index : t.index ≡ s.index
  pub size : t.store.size ≡ s.store.size
  pub base : t.base_offset ≡ s.base_offset
  pub next : t.next_offset ≡ s.next_offset
  pub config : t.config ≡ s.config

abbrev IsSmall : Payload → Type 0
IsSmall p = length p < 2 ^ 48

module _ (libs : Libs) (s : Segment) (ps : List Payload) (r : Record) (p : Payload) (h : Holds s ps)
    (room : Index.is_maxed s.index ≡ false)
    (m : libs.marshal (record r { offset = s.next_offset }) ≡ ok p) (small : length p < 2 ^ 48)
    (bytes : length (frames ps) + (8 + length p) < 2 ^ 63) (top : s.next_offset + 1 < 2 ^ 63) where
  appended : Segment
  appended = record s {
    store = (Store.append p s.store).1;
    index = (Index.write (length ps) (length (frames ps)) s.index).1;
    next_offset = s.next_offset + 1;
  }

  stored :
      ((Store.append p s.store).0 ≡ ok (length p + 8, length (frames ps)))
      × Store.Refine.Holds (Store.append p s.store).1 (frames ps ++ frame p)
  stored = Store.Refine.append-frame s.store (frames ps) p h.store bytes

  count : 12 * length ps < 2 ^ 32
  count =
      omega
        (arith, h.index.small, mapped_size s.index (entries 0 0 ps) h.index, length-entries ps 0 0)

  indexed :
      ((Index.write (length ps) (length (frames ps)) s.index).0 ≡ ok tt)
      × Lists
          (Index.write (length ps) (length (frames ps)) s.index).1
          (entries 0 0 (ps ++ (p ∷ [])))
  indexed = rw (entries_snoc ps p 0 0) (
      rw (zero-add (length ps), zero-add (length (frames ps)))
        (write-Lists s.index (entries 0 0 ps) (length ps) (length (frames ps)) h.index room
          (omega (arith, count), omega (arith, h.bytes))))

  append-appended : append libs (some r) s ≡ (ok s.next_offset, appended)
  unfolding append appended
  append-appended =
      let rel : sub64 s.next_offset s.base_offset % 2 ^ 32 ≡ length ps =
        omega (arith, h.next, h.top, count) in
      ground (arith, m, stored, indexed.0, rel)

  -- The map of the index keeps its size.
  pub append-mmap : length (append libs (some r) s).1.index.mmap ≡ length s.index.mmap
  append-mmap = rw append-appended (
      unfold appended in
      write-mmap s.index (entries 0 0 ps) (length ps) (length (frames ps)) h.index room)

  appended-Holds : Holds appended (ps ++ (p ∷ []))
  unfolding appended
  appended-Holds = record {
    store = rw (frames_snoc ps p) stored.1;
    index = indexed.1;
    next = omega (arith, h.next, length-append ps (p ∷ []));
    top = omega (arith, h.next, length-append ps (p ∷ []));
    bytes =
        omega (
          arith,
          ap length (frames_snoc ps p),
          length-append (frames ps) (frame p),
          length-frame p,
        );
    small = All_snoc IsSmall ps p h.small small;
  }

-- Append of a record that Marshal accepts, on a segment in its invariant whose index has room,
-- marshals it with the next offset, which it returns, and adds the payload at the end of the
-- segment.
pub append-payload :
    (libs : Libs) (s : Segment) (ps : List Payload) (r : Record) (p : Payload)
    → Holds s ps
    → Index.is_maxed s.index ≡ false
    → libs.marshal (record r { offset = s.next_offset }) ≡ ok p
    → length p < 2 ^ 48
    → length (frames ps) + (8 + length p) < 2 ^ 63
    → s.next_offset + 1 < 2 ^ 63
    → ((append libs (some r) s).0 ≡ ok s.next_offset)
      × Holds (append libs (some r) s).1 (ps ++ (p ∷ []))
      × ((append libs (some r) s).1.base_offset ≡ s.base_offset)
      × ((append libs (some r) s).1.config ≡ s.config)
append-payload libs s ps r p h room m small bytes top =
    rw (append-appended libs s ps r p h room m small bytes top) (
      refl,
      appended-Holds libs s ps r p h room m small bytes top,
      unfold appended in refl,
      unfold appended in refl,
    )

module _ (libs : Libs) (s : Segment) (front : List Payload) (p : Payload) (back : List Payload)
    (h : Holds s (front ++ (p ∷ back))) where
  start : ℕ
  start = length (frames front)

  found : Index.read (length front) s.index ≡ (ok (length front, start), s.index)
  unfolding start
  found =
      read-get s.index (entries 0 0 (front ++ (p ∷ back))) h.index (length front)
        (length front, length (frames front))
        (entries-get front p back 0 0
          ∙ rw (zero-add (length front), zero-add (length (frames front))))

  stored_at :
      ((Store.read start s.store).0 ≡ ok p)
      × Store.Refine.Holds (Store.read start s.store).1 (frames (front ++ (p ∷ back)))
  unfolding start
  stored_at = rw (frames_middle front p back) (
      read-frame s.store (frames front) p (frames back) (rw (frames_middle front p back) at h.store)
        (rw (frames_middle front p back) at h.bytes) (All_middle IsSmall front p back h.small))

  after_read : Segment
  after_read = record s { store = (Store.read start s.store).1 }

  read-after_read :
      (off : ℕ)
      → off ≡ s.base_offset + length front
      → read libs off s ≡ (libs.unmarshal p, after_read)
  unfolding read after_read
  read-after_read off o =
      let rel : sub64 off s.base_offset ≡ length front =
        omega (arith, h.top, length-append front (p ∷ back)) in
      ground (arith, found, stored_at.0, rel)

  after_read-Holds : Holds after_read (front ++ (p ∷ back))
  unfolding after_read
  after_read-Holds = record {
    store = stored_at.1;
    index = h.index;
    next = h.next;
    top = h.top;
    bytes = h.bytes;
    small = h.small;
  }

  after_read-SameShape : SameShape s after_read
  unfolding after_read
  after_read-SameShape = record {
    index = refl;
    size = stored_at.1.sized ∙ sym h.store.sized;
    base = refl;
    next = refl;
    config = refl;
  }

-- Read at the offset of a payload of the segment is Unmarshal of it. It changes nothing but where
-- the store's bytes are.
pub read-payload :
    (libs : Libs) (s : Segment) (ps : List Payload) (k off : ℕ) (p : Payload)
    → Holds s ps
    → get_elem? ps k ≡ some p
    → off ≡ s.base_offset + k
    → ((read libs off s).0 ≡ libs.unmarshal p)
      × Holds (read libs off s).1 ps
      × SameShape s (read libs off s).1
read-payload libs s ps k off p h g o =
    let (front, back, e, l) = split_at ps k p g in
    let h' : Holds s (front ++ (p ∷ back)) = rw e at h in
    rw (read-after_read libs s front p back h' off (omega arith)) (
      refl,
      rw e (after_read-Holds libs s front p back h'),
      after_read-SameShape libs s front p back h',
    )

-- Read behind the last payload of a segment in its invariant, less than 2 ^ 32 offsets from its
-- base, is io.EOF, and changes nothing.
read_past_end :
    (libs : Libs) (s : Segment) (ps : List Payload) (k : ℕ)
    → Holds s ps
    → length ps ≤ k
    → k < 2 ^ 32
    → s.base_offset < 2 ^ 63
    → read libs (s.base_offset + k) s ≡ (err eof, s)
unfolding read
read_past_end libs s ps k h past small base =
    let rel : sub64 (s.base_offset + k) s.base_offset ≡ k = omega arith in
    ground (
      arith,
      rel,
      read-out s.index (entries 0 0 ps) h.index k (omega (arith, length-entries ps 0 0)) small,
    )

-- Append of a record that Marshal accepts, on a segment in its invariant whose index is full,
-- fails with io.EOF. The payload stays in the store without an entry; the offsets do not move.
pub append_full :
    (libs : Libs) (s : Segment) (ps : List Payload) (r : Record) (p : Payload)
    → Holds s ps
    → Index.is_maxed s.index ≡ true
    → libs.marshal (record r { offset = s.next_offset }) ≡ ok p
    → length (frames ps) + (8 + length p) < 2 ^ 63
    → ((append libs (some r) s).0 ≡ err eof)
      × ((append libs (some r) s).1.next_offset ≡ s.next_offset)
      × ((append libs (some r) s).1.index ≡ s.index)
      × Store.Refine.Holds (append libs (some r) s).1.store (frames ps ++ frame p)
unfolding append
append_full libs s ps r p h full m bytes =
    let stored = Store.Refine.append-frame s.store (frames ps) p h.store bytes in
    ground (
      arith,
      m,
      stored,
      write_full s.index (sub64 s.next_offset s.base_offset % 2 ^ 32) (length (frames ps)) full,
    )
