-- ===== src/Log/Saved.antt =====
-- Close of a log (internal/log/log.go) puts each segment's payloads in its files.
use proglog.Base.{
  ℕ, ◌+◌, ◌*◌, ◌≤◌, ◌<◌, ◌≡◌, refl, ap, ◌∙◌, List, [], ◌∷◌, ◌++◌, map, arith, length, All, false,
}
use proglog.Base.Exec.{ok}
use proglog.Api.{Libs, Reliable}
use proglog.Disk
use proglog.Disk.{Disk, Name, Files}
use proglog.Index
use proglog.Index.Entries.{encode}
use proglog.Index.Refine.{mapped_size}
use proglog.Segment
use proglog.Segment.{Segment, Config, store_name, index_name}
use proglog.Segment.Layout.{Payload, frames, entries, length-entries}
use proglog.Segment.Reopen.{Part, close_files-saves}
use proglog.Log.{close_each}
use proglog.Log.Chain.{Link, Chain, HasRoom}

-- A segment by its base and its payloads.
abbrev pub Piece : Type 0
Piece = ℕ × List Payload

-- The pieces of a chain, from the offset `first` on.
abbrev pub Pieces : Config → ℕ → List Piece → List Payload → Type 0
Pieces c first [] qs = qs ≡ []
Pieces c first ((b, ps) ∷ rest) qs =
    (later : List Payload) × (qs ≡ ps ++ later)
    × (b ≡ first)
    × Part c b ps
    × Pieces c (first + length ps) rest later

-- The last piece has room for one more record.
abbrev pub HasRoomLast : Config → List Piece → Type 0
HasRoomLast c [] = ⊥
HasRoomLast c ((b, ps) ∷ []) =
    (length (frames ps) < c.max_store_bytes) × (12 * length ps + 12 ≤ c.max_index_bytes)
HasRoomLast c (_ ∷ q ∷ rest) = HasRoomLast c (q ∷ rest)

-- The index is mapped to the size that the configuration gives.
abbrev pub IsMapped : Segment → Type 0
IsMapped s = length s.index.mmap ≡ s.config.max_index_bytes

-- Each base lies above those before it.
abbrev pub Rising : List ℕ → Type 0
Rising [] = Unit {0}
Rising (b ∷ bs) = All (λ x. b < x) bs × Rising bs

abbrev pub bases : List Segment → List ℕ
bases ss = map (λ (s : Segment). s.base_offset) ss

abbrev pub piece_bases : List Piece → List ℕ
piece_bases xs = map (λ (x : Piece). x.0) xs

-- The directory with the files of a piece written.
abbrev pub put_piece : Piece → Disk → Disk
put_piece (b, ps) d =
    Disk.write_back (store_name b) (frames ps)
      (Disk.write_back (index_name b) (encode (entries 0 0 ps)) d)

abbrev pub put_pieces : List Piece → Disk → Disk
put_pieces [] d = d
put_pieces (x ∷ xs) d = put_pieces xs (put_piece x d)

Link-Part :
    (c : Config) (first : ℕ) (s : Segment) (ps : List Payload)
    → Link c first s ps
    → IsMapped s
    → Part c first ps
Link-Part c first s ps l m = record {
  top = rw l.base at l.holds.top;
  bytes = l.holds.bytes;
  small = l.holds.small;
  entries = l.holds.index.entries;
  room =
      let whole : length s.index.mmap ≡ c.max_index_bytes =
        m ∙ ap (λ (k : Config). k.max_index_bytes) l.config in
      omega
        (arith, whole, mapped_size s.index (entries 0 0 ps) l.holds.index, length-entries ps 0 0);
}

-- What a log in its invariant is made of, without its open files.
pub record Made (c : Config) (first : ℕ) (ss : List Segment) (qs : List Payload) : Type 0 where
  pub pieces : List Piece
  pub holds : Pieces c first pieces qs
  pub same : piece_bases pieces ≡ bases ss
  pub saves :
      (libs : Libs) (reliable : Reliable libs) (d : Disk)
      → ((close_each libs ss d).0 ≡ ok tt) × ((close_each libs ss d).1.disk ≡ put_pieces pieces d)
  pub room : HasRoom ss → HasRoomLast c pieces

HasRoom-one :
    (c : Config) (first : ℕ) (s : Segment) (ps : List Payload)
    → Link c first s ps
    → IsMapped s
    → Segment.is_maxed s ≡ false
    → (length (frames ps) < c.max_store_bytes) × (12 * length ps + 12 ≤ c.max_index_bytes)
unfolding Segment.is_maxed Index.is_maxed
HasRoom-one c first s ps l m e =
    let whole : length s.index.mmap ≡ c.max_index_bytes =
      m ∙ ap (λ (k : Config). k.max_index_bytes) l.config in
    ground (
      arith,
      whole,
      ap (λ (k : Config). k.max_store_bytes) l.config,
      ap (λ (k : Config). k.max_index_bytes) l.config,
      l.holds.store.sized,
      l.holds.index.sized,
      l.holds.index.small,
      length-entries ps 0 0,
    )

HasRoom-cons :
    (c : Config) (first : ℕ) (s : Segment) (ps : List Payload) (ss : List Segment) (xs : List Piece)
    → Link c first s ps
    → IsMapped s
    → piece_bases xs ≡ bases ss
    → (HasRoom ss → HasRoomLast c xs)
    → HasRoom (s ∷ ss)
    → HasRoomLast c ((first, ps) ∷ xs)
HasRoom-cons c first s ps [] [] l m e f r = HasRoom-one c first s ps l m r
HasRoom-cons c first s ps [] (x ∷ xs) l m e f r = cc
HasRoom-cons c first s ps (t ∷ ss) [] l m e f r = cc
HasRoom-cons c first s ps (t ∷ ss) (x ∷ xs) l m e f r = f r

close_step :
    (libs : Libs) (s : Segment) (ss : List Segment) (d e : Disk)
    → ((Segment.close_files libs (record { segment = s; disk = d })).0 ≡ ok tt)
      × ((Segment.close_files libs (record { segment = s; disk = d })).1.disk ≡ e)
    → ((close_each libs (s ∷ ss) d).0 ≡ (close_each libs ss e).0)
      × ((close_each libs (s ∷ ss) d).1.disk ≡ (close_each libs ss e).1.disk)
unfolding close_each
close_step libs s ss d e h = ground (arith, h)

pub Chain-Made :
    (c : Config) (first : ℕ) (ss : List Segment) (qs : List Payload)
    → Chain c first ss qs
    → All IsMapped ss
    → Made c first ss qs
unfolding close_each
Chain-Made c first [] qs h m = record {
  pieces = [];
  holds = h;
  same = refl;
  saves = λ libs reliable d. (refl, refl);
  room = λ r. r;
}
Chain-Made c first (s ∷ ss) qs (ps, rest, e, l, h) m =
    let made = Chain-Made c (first + length ps) ss rest h m.1 in
    record {
      pieces = (first, ps) ∷ made.pieces;
      holds = (rest, e, refl, Link-Part c first s ps l m.0, made.holds);
      same = ground (arith, l.base, made.same);
      saves = λ libs reliable d.
          let saved = close_files-saves libs reliable s ps d l.holds in
          let (okay, now) = made.saves libs reliable (put_piece (first, ps) d) in
          let step =
            close_step libs s ss d (put_piece (first, ps) d) (saved.0, rw (← l.base) saved.1) in
          (step.0 ∙ okay, step.1 ∙ now);
      room = HasRoom-cons c first s ps ss made.pieces l m.0 made.same made.room;
    }
