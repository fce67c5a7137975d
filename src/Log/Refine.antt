-- ===== src/Log/Refine.antt =====
-- A log stands for the list of its payloads and the offset of the first of them.
pub mod Files
pub mod AtEnd
use proglog.Base.{
  ℕ, ◌+◌, ◌≤◌, ◌<◌, ◌^◌, ◌≡◌, refl, sym, ◌∙◌, List, [], ◌∷◌, ◌++◌, some, none, arith, length,
  length-append, true, false, get_elem?, add64, Bool, ◌⊎◌, inl, inr,
}
use proglog.Base.Exec.{ok, err, gets, offset_out_of_range}
use proglog.Api.{Record, Libs, Reliable}
use proglog.Segment
use proglog.Segment.{Segment, store_name, index_name}
use proglog.Segment.Layout.{Payload}
use proglog.Segment.Create.{
  Works, IsSound, Absent, fresh, disk_with, new_segment-fresh, fresh-Holds, fresh-is_maxed,
  fresh-base, fresh-config, disk_with-Works, disk_with-Absent,
}
use proglog.Log.{Log, newest, append, read, new_segment, on_last, on_at, on_segments, last_match}
use proglog.Log.Chain.{
  Chain, HasRoom, Chain-snoc, HasRoom-snoc, last_match_before, last_match_behind,
}
use proglog.Log.ReadBack.{found}
use proglog.Log.Grow.{grow, ask_last, length-on_last, HasRoom-length}

-- The segments hold `qs` from offset `first` on; the last of them is the active one and has room;
-- and no file of the directory belongs to an offset behind the next one.
pub record Holds (l : Log) (first : ℕ) (qs : List Payload) : Type 0 where
  pub active : l.active ≡ newest
  pub chain : Chain l.config first l.segments qs
  pub room : HasRoom l.segments
  pub sound : IsSound l.config
  pub works : Works l.disk
  pub absent : (base : ℕ) → first + length qs < base → Absent base l.disk.files

read-matched :
    (libs : Libs) (l : Log) (off i : ℕ)
    → last_match off l.segments ≡ some i
    → read libs off l ≡ on_segments (on_at i (Segment.read libs off)) l
unfolding read
read-matched libs l off i e = rw (e, read)

read-unmatched :
    (libs : Libs) (l : Log) (off : ℕ)
    → last_match off l.segments ≡ none
    → read libs off l ≡ (err (offset_out_of_range off), l)
unfolding read
read-unmatched libs l off e = rw (e, read)

module _ (libs : Libs) (l : Log) (first : ℕ) (qs : List Payload) (h : Holds l first qs) where
  -- Read at the offset of a payload, on a log in its invariant, is Unmarshal of it, and keeps the
  -- invariant and every payload.
  pub read-Holds :
      (k : ℕ) (p : Payload)
      → get_elem? qs k ≡ some p
      → ((read libs (first + k) l).0 ≡ libs.unmarshal p)
        × Holds (read libs (first + k) l).1 first qs
  read-Holds k p g =
      let f = found libs l.config first l.segments qs k p h.chain g in
      rw (read-matched libs l (first + k) f.place f.matched) (
        f.result,
        record {
          active = h.active;
          chain = f.chain;
          room = f.room h.room;
          sound = h.sound;
          works = h.works;
          absent = h.absent;
        },
      )

  read-before : (off : ℕ) → off < first → read libs off l ≡ (err (offset_out_of_range off), l)
  read-before off b =
      read-unmatched libs l off (last_match_before l.config first off l.segments qs h.chain b)

  read-behind :
      (off : ℕ) → first + length qs ≤ off → read libs off l ≡ (err (offset_out_of_range off), l)
  read-behind off b =
      read-unmatched libs l off (last_match_behind l.config first off l.segments qs h.chain b)

  -- Read at an offset before the first payload or behind the last one, on a log in its invariant,
  -- is ErrOffsetOutOfRange with that offset, and changes nothing.
  pub read_out_of_range :
      (off : ℕ)
      → (off < first) ⊎ (first + length qs ≤ off)
      → read libs off l ≡ (err (offset_out_of_range off), l)
  read_out_of_range off (inl b) = read-before off b
  read_out_of_range off (inr b) = read-behind off b

module _ (libs : Libs) (reliable : Reliable libs) (l : Log) (first : ℕ) (qs : List Payload)
    (h : Holds l first qs) (r : Record) (p : Payload)
    (m : libs.marshal (record r { offset = first + length qs }) ≡ ok p) (small : length p < 2 ^ 48)
    (top : first + length qs + 1 < 2 ^ 63) where
  next : ℕ
  next = first + length qs

  grown : List Segment
  grown = (on_last (Segment.append libs (some r)) l.segments).1

  grown-result : (on_last (Segment.append libs (some r)) l.segments).0 ≡ ok next
  unfolding next
  grown-result =
      (grow libs l.config h.sound r p (first + length qs) m small top first l.segments qs h.chain
        h.room refl).result

  grown-Chain : Chain l.config first grown (qs ++ (p ∷ []))
  unfolding grown
  grown-Chain =
      (grow libs l.config h.sound r p (first + length qs) m small top first l.segments qs h.chain
        h.room refl).chain

  kept : Log
  kept = record l { segments = grown }

  append-kept :
      on_last (gets Segment.is_maxed) grown ≡ (ok false, grown)
      → append libs (some r) l ≡ (ok next, kept)
  unfolding append kept grown
  append-kept e = ground (arith, h.active, grown-result, e)

  rotated : Log
  rotated = record l {
    disk = disk_with libs reliable (next + 1) l.config h.sound l.disk;
    active = newest;
    segments = grown ++ (fresh libs reliable (next + 1) l.config h.sound ∷ []);
  }

  Absent-next : Absent (next + 1) l.disk.files
  unfolding next
  Absent-next = h.absent (first + length qs + 1) (omega arith)

  append-rotated :
      on_last (gets Segment.is_maxed) grown ≡ (ok true, grown)
      → append libs (some r) l ≡ (ok next, rotated)
  unfolding append rotated grown new_segment next
  append-rotated e =
      let wrap : add64 (first + length qs) 1 ≡ first + length qs + 1 = omega (arith, top) in
      ground (
        arith,
        h.active,
        grown-result,
        e,
        wrap,
        new_segment-fresh libs reliable (first + length qs + 1) l.config h.sound l.disk h.works
            Absent-next,
      )

  kept-Holds :
      on_last (gets Segment.is_maxed) grown ≡ (ok false, grown)
      → HasRoom grown
      → Holds kept first (qs ++ (p ∷ []))
  unfolding kept
  kept-Holds e room = record {
    active = h.active;
    chain = grown-Chain;
    room = room;
    sound = h.sound;
    works = h.works;
    absent = λ base b. h.absent base (omega (arith, length-append qs (p ∷ [])));
  }

  rotated-Holds : Holds rotated first (qs ++ (p ∷ []))
  unfolding rotated next
  rotated-Holds =
      let count : first + length (qs ++ (p ∷ [])) ≡ first + length qs + 1 =
        omega (arith, length-append qs (p ∷ [])) in
      record {
        active = refl;
        chain =
            Chain-snoc l.config first grown (qs ++ (p ∷ []))
              (fresh libs reliable (first + length qs + 1) l.config h.sound) grown-Chain
              (record {
                holds = fresh-Holds libs reliable (first + length qs + 1) l.config h.sound top;
                base =
                    fresh-base libs reliable (first + length qs + 1) l.config h.sound ∙ sym count;
                config = fresh-config libs reliable (first + length qs + 1) l.config h.sound;
              });
        room =
            HasRoom-snoc grown (fresh libs reliable (first + length qs + 1) l.config h.sound)
              (fresh-is_maxed libs reliable (first + length qs + 1) l.config h.sound);
        sound = h.sound;
        works =
            disk_with-Works libs reliable (first + length qs + 1) l.config h.sound l.disk h.works;
        absent = λ base b.
            disk_with-Absent libs reliable (first + length qs + 1) l.config h.sound l.disk base
              (omega (arith, count)) (h.absent base (omega (arith, count)));
      }

  grown-room : 0 < length grown
  unfolding grown
  grown-room = omega (
    arith,
    length-on_last (Segment.append libs (some r)) l.segments,
    HasRoom-length l.segments h.room,
  )

  append_split :
      (b : Bool)
      → on_last (gets Segment.is_maxed) grown ≡ (ok b, grown)
      → (b ≡ false → HasRoom grown)
      → ((append libs (some r) l).0 ≡ ok next)
        × Holds (append libs (some r) l).1 first (qs ++ (p ∷ []))
  append_split true e f = rw (append-rotated e) (refl, rotated-Holds)
  append_split false e f = rw (append-kept e) (refl, kept-Holds e (f refl))

  -- Append of a record that Marshal accepts, on a log in its invariant, always succeeds. It returns
  -- the offset behind the last record, adds the payload there, and keeps the invariant, whether or
  -- not it starts a new segment.
  pub append-Holds :
      ((append libs (some r) l).0 ≡ ok (first + length qs))
      × Holds (append libs (some r) l).1 first (qs ++ (p ∷ []))
  unfolding next
  append-Holds = let (b, e, f) = ask_last grown grown-room in append_split b e f
