-- ===== src/Log/TruncateLaws.antt =====
-- Truncate drops a front part of the log, segment by segment.
use proglog.Base.{
  ℕ, suc, ◌+◌, ◌≤◌, ◌<◌, ◌^◌, ◌≡◌, refl, ap, sym, ◌∙◌, List, [], ◌∷◌, ◌++◌, arith, length,
  length-append, append_assoc, true, false, Bool-cases, inl, inr, ◌⊎◌, if◌then◌else◌,
}
use proglog.Base.Exec.{ok}
use proglog.Api.{Libs}
use proglog.Disk.{Disk}
use proglog.Segment
use proglog.Segment.{Segment, Config, OnDisk, store_name, index_name}
use proglog.Segment.Layout.{Payload}
use proglog.Log.Shrinks.{Shrinks, Shrinks-trans, Shrinks-refl, removed-Shrinks}
use proglog.Log.{newest}
use proglog.Log.Chain.{Link, Chain, HasRoom}
use proglog.Log.Truncate.{Cut, goes, dropping, keeping, truncate_each, last_of, newest_after}

-- The segments that Truncate is to keep.
abbrev pub above : ℕ → List Segment → List Segment
above lowest [] = []
above lowest (s ∷ ss) = let rest = above lowest ss in if goes lowest s then rest else s ∷ rest

-- A chain that starts above the offset is kept whole.
pub keep_all :
    (libs : Libs) (c : Config) (first lowest : ℕ) (ss : List Segment) (qs : List Payload) (d : Disk)
    → Chain c first ss qs
    → lowest + 1 < first
    → (truncate_each libs lowest ss d ≡ (ok tt, record { kept = ss; all = ss; disk = d }))
      × (above lowest ss ≡ ss)
unfolding truncate_each
keep_all libs c first lowest [] qs d h b = (refl, refl)
keep_all libs c first lowest (s ∷ ss) qs d (ps, rest, e, l, h) b =
    let stays : goes lowest s ≡ false = ground (arith, l.base, l.holds.next, l.holds.top) in
    let (same, top) = keep_all libs c (first + length ps) lowest ss rest d h (omega arith) in
    (ground (arith, stays, same), ground (arith, stays, top))

-- What a successful Truncate leaves of a chain: the payloads behind `dropped`, which all lay at or
-- below the offset.
pub record Suffix (c : Config) (first lowest : ℕ) (ss : List Segment) (qs : List Payload) (d : Disk)
    (cut : Cut) : Type 0 where
  pub dropped : List Payload
  pub left : List Payload
  pub split : qs ≡ dropped ++ left
  pub low : (dropped ≡ []) ⊎ (first + length dropped ≤ lowest + 1)
  pub exact : cut.kept ≡ above lowest ss
  pub chain : Chain c (first + length dropped) cut.kept left
  pub room : HasRoom cut.kept
  pub last : newest_after lowest (last_of cut.all) ≡ newest
  pub size : length cut.all ≡ length ss
  pub disk : Shrinks d cut.disk

last_of-goes :
    (c : Config) (first lowest : ℕ) (ss : List Segment) (qs : List Payload)
    → Chain c first ss qs
    → lowest + 1 < first + length qs
    → newest_after lowest (last_of ss) ≡ newest
last_of-goes c first lowest [] qs h b = refl
last_of-goes c first lowest (s ∷ []) qs (ps, rest, e, l, h) b =
    let n : length qs ≡ length ps + length rest =
      omega (arith, ap length e, length-append ps rest) in
    ground (arith, ap length h, l.base, l.holds.next, l.holds.top)
last_of-goes c first lowest (s ∷ t ∷ ss) qs (ps, rest, e, l, h) b =
    last_of-goes c (first + length ps) lowest (t ∷ ss) rest h
      (omega (arith, ap length e, length-append ps rest))

last_of-cons : (s : Segment) (xs : List Segment) → 0 < length xs → last_of (s ∷ xs) ≡ last_of xs
last_of-cons s [] h = absurd (omega arith)
last_of-cons s (x ∷ xs) h = refl

module _ (libs : Libs) (c : Config) (lowest : ℕ) (small : lowest + 1 < 2 ^ 64) where
  -- A segment that goes, and what goes of the rest.
  pub goes_step :
      (s : Segment) (ss : List Segment) (d : Disk)
      → goes lowest s ≡ true
      → (truncate_each libs lowest (s ∷ ss) d).0 ≡ ok tt
      → ((truncate_each libs lowest ss
            (Segment.remove libs (record { segment = s; disk = d })).1.disk).0
          ≡ ok tt)
        × (truncate_each libs lowest (s ∷ ss) d
            ≡ dropping (Segment.remove libs (record { segment = s; disk = d })).1.segment (
                truncate_each libs lowest ss
                  (Segment.remove libs (record { segment = s; disk = d })).1.disk))
  unfolding truncate_each
  goes_step s ss d g e = ground (arith, g, e)

  stays_step :
      (s : Segment) (ss : List Segment) (d : Disk)
      → goes lowest s ≡ false
      → truncate_each libs lowest (s ∷ ss) d ≡ keeping s (truncate_each libs lowest ss d)
  unfolding truncate_each
  stays_step s ss d g = ground (arith, g)

  Suffix-stays :
      (first : ℕ) (s : Segment) (ss : List Segment) (qs ps rest : List Payload) (d : Disk)
      → qs ≡ ps ++ rest
      → Link c first s ps
      → Chain c (first + length ps) ss rest
      → HasRoom (s ∷ ss)
      → lowest + 1 < first + length qs
      → goes lowest s ≡ false
      → Suffix c first lowest (s ∷ ss) qs d (truncate_each libs lowest (s ∷ ss) d).1
  Suffix-stays first s ss qs ps rest d e l h room b g =
      let over : lowest + 1 < first + length ps = ground (arith, l.base, l.holds.next) in
      let (same, top) = keep_all libs c (first + length ps) lowest ss rest d h over in
      let none_dropped : first + 0 ≡ first = omega arith in
      rw (stays_step s ss d g, same)
        (record {
          dropped = [];
          left = qs;
          split = refl;
          low = inl refl;
          exact = ground (arith, g, top);
          chain = rw none_dropped (ps, rest, e, l, h);
          room = room;
          last = last_of-goes c first lowest (s ∷ ss) qs (ps, rest, e, l, h) b;
          size = refl;
          disk = Shrinks-refl d;
        })

  last_rest :
      (s t : Segment) (ss all : List Segment)
      → length all ≡ length (t ∷ ss)
      → newest_after lowest (last_of all) ≡ newest
      → newest_after lowest (last_of (s ∷ all)) ≡ newest
  last_rest s t ss all n h = rw (last_of-cons s all (omega arith)) h

  Suffix-goes :
      (first : ℕ) (s t : Segment) (ss : List Segment) (qs ps rest : List Payload) (d : Disk)
      → qs ≡ ps ++ rest
      → Link c first s ps
      → goes lowest s ≡ true
      → (truncate_each libs lowest (s ∷ t ∷ ss) d).0 ≡ ok tt
      → Suffix c
          (first + length ps)
          lowest
          (t ∷ ss)
          rest
          (Segment.remove libs (record { segment = s; disk = d })).1.disk
          (truncate_each libs lowest
            (t ∷ ss)
            (Segment.remove libs (record { segment = s; disk = d })).1.disk).1
      → Suffix c first lowest (s ∷ t ∷ ss) qs d (truncate_each libs lowest (s ∷ t ∷ ss) d).1
  Suffix-goes first s t ss qs ps rest d e l g okay f =
      let (_, eq) = goes_step s (t ∷ ss) d g okay in
      let (removed, o) = Segment.remove libs (record { segment = s; disk = d }) in
      let count : first + length ps + length f.dropped ≡ first + length (ps ++ f.dropped) =
        omega (arith, length-append ps f.dropped) in
      let under : first + length ps ≤ lowest + 1 = ground (arith, l.base, l.holds.next) in
      rw eq (record {
        dropped = ps ++ f.dropped;
        left = f.left;
        split = e ∙ ap (λ u. ps ++ u) f.split ∙ sym (append_assoc ps f.dropped f.left);
        low = elim f.low [
          | inl e' ↦ inr (omega (arith, under, ap length e', count))
          | inr b ↦ inr (omega (arith, b, count))
        ];
        exact = ground (arith, g, f.exact);
        chain = rw count at f.chain;
        room = f.room;
        last =
            last_rest o.segment t ss (truncate_each libs lowest (t ∷ ss) o.disk).1.all f.size
              f.last;
        size = ap suc f.size;
        disk = Shrinks-trans d o.disk _ (removed-Shrinks libs s d) f.disk;
      })

  -- A successful loop of Truncate drops the front segments that lie at or below the offset, if a
  -- record lies above it.
  pub truncate_each-Suffix :
      (first : ℕ) (ss : List Segment) (qs : List Payload) (d : Disk)
      → Chain c first ss qs
      → HasRoom ss
      → lowest + 1 < first + length qs
      → (truncate_each libs lowest ss d).0 ≡ ok tt
      → Suffix c first lowest ss qs d (truncate_each libs lowest ss d).1
  truncate_each-Suffix first [] qs d h room b okay = absurd room
  truncate_each-Suffix first (s ∷ []) qs d (ps, rest, e, l, h) room b okay =
      Suffix-stays first s [] qs ps rest d e l h room b
        (ground (arith, l.base, l.holds.next, ap length e, ap length h, length-append ps rest))
  truncate_each-Suffix first (s ∷ t ∷ ss) qs d (ps, rest, e, l, h) room b okay =
      elim (Bool-cases (goes lowest s)) [
        | inl g ↦ Suffix-goes first s t ss qs ps rest d e l g okay (
            truncate_each-Suffix (first + length ps) (t ∷ ss) rest _ h room
              (omega (arith, ap length e, length-append ps rest)) (goes_step s (t ∷ ss) d g okay).0)
        | inr g ↦ Suffix-stays first s (t ∷ ss) qs ps rest d e l h room b g
      ]
