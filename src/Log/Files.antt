-- ===== src/Log/Files.antt =====
-- Where the files of a log's segments are written, the others stay.
use proglog.Base.{ℕ, ◌<◌, ◌≡◌, refl, ◌∙◌, List, [], ◌∷◌, arith, All, ◌⊎◌, inl, inr}
use proglog.Disk
use proglog.Disk.{Disk, Name}
use proglog.Index.Entries.{encode}
use proglog.Segment.{store_name, index_name}
use proglog.Segment.Layout.{Payload, frames, entries}
use proglog.Segment.Reopen.{IsSaved}
use proglog.Segment.Files.{
  stems, HasFiles, IsPresent, write_back-stems, find-write_back, find-write_back_other,
  write_back-IsPresent,
}
use proglog.Log.Shrinks.{Shrinks, Shrinks-refl, Shrinks-trans, write_back-Shrinks}
use proglog.Log.Saved.{Piece, piece_bases, Rising, put_piece, put_pieces}

-- A step on the directory that touches only files of one number, and keeps every name.
pub record Touches (base : ℕ) (d e : Disk) : Type 0 where
  pub names : stems e.files ≡ stems d.files
  pub others :
      (n : Name) → (n.stem < base) ⊎ (base < n.stem) → Disk.find n e.files ≡ Disk.find n d.files
  pub shrinks : Shrinks d e
  pub keeps : (n : Name) → IsPresent n d.files → IsPresent n e.files

write_back-Touches : (n : Name) (b : List ℕ) (d : Disk) → Touches n.stem d (Disk.write_back n b d)
write_back-Touches n b d = record {
  names = write_back-stems n b d;
  others = λ m h. find-write_back_other m n b d (ground (arith, h));
  shrinks = write_back-Shrinks n b d;
  keeps = λ m h. write_back-IsPresent m n b d h;
}

Touches-trans : (base : ℕ) (a b c : Disk) → Touches base a b → Touches base b c → Touches base a c
Touches-trans base a b c h k = record {
  names = k.names ∙ h.names;
  others = λ n o. k.others n o ∙ h.others n o;
  shrinks = Shrinks-trans a b c h.shrinks k.shrinks;
  keeps = λ n p. k.keeps n (h.keeps n p);
}

pub index-Touches :
    (base : ℕ) (b : List ℕ) (d : Disk) → Touches base d (Disk.write_back (index_name base) b d)
index-Touches base b d = write_back-Touches (index_name base) b d

put_piece-Touches : (b : ℕ) (ps : List Payload) (d : Disk) → Touches b d (put_piece (b, ps) d)
put_piece-Touches b ps d =
    Touches-trans b d (Disk.write_back (index_name b) (encode (entries 0 0 ps)) d) _
      (write_back-Touches (index_name b) (encode (entries 0 0 ps)) d)
      (write_back-Touches (store_name b) (frames ps)
        (Disk.write_back (index_name b) (encode (entries 0 0 ps)) d))

-- Both files of another number.
pub Touches-IsSaved :
    (base b : ℕ) (ps : List Payload) (d e : Disk)
    → Touches base d e
    → (b < base) ⊎ (base < b)
    → IsSaved b ps d
    → IsSaved b ps e
Touches-IsSaved base b ps d e t o (s, i) =
    (t.others (store_name b) o ∙ s, t.others (index_name b) o ∙ i)

Touches-HasFiles :
    (base b : ℕ) (d e : Disk)
    → Touches base d e
    → (b < base) ⊎ (base < b)
    → HasFiles d.files b
    → HasFiles e.files b
Touches-HasFiles base b d e t o ((x, s), (y, i)) =
    ((x, t.others (store_name b) o ∙ s), (y, t.others (index_name b) o ∙ i))

put_piece-IsSaved :
    (b : ℕ) (ps : List Payload) (d : Disk) → HasFiles d.files b → IsSaved b ps (put_piece (b, ps) d)
put_piece-IsSaved b ps d ((x, s), i) =
    let d' : Disk = Disk.write_back (index_name b) (encode (entries 0 0 ps)) d in
    (
      find-write_back (store_name b) (frames ps) d'
          (x, find-write_back_other (store_name b) (index_name b) _ d (ground arith) ∙ s),
      find-write_back_other (index_name b) (store_name b) (frames ps) d' (ground arith)
          ∙ find-write_back (index_name b) (encode (entries 0 0 ps)) d i,
    )

pub Touches-All :
    (base : ℕ) (bs : List ℕ) (d e : Disk)
    → Touches base d e
    → All (λ x. base < x) bs
    → All (HasFiles d.files) bs
    → All (HasFiles e.files) bs
Touches-All base [] d e t r h = tt
Touches-All base (b ∷ bs) d e t r h =
    (Touches-HasFiles base b d e t (inr r.0) h.0, Touches-All base bs d e t r.1 h.1)

-- The files of all pieces hold what was written.
abbrev pub AllSaved : List Piece → Disk → Type 0
AllSaved xs d = All (λ (x : Piece). IsSaved x.0 x.1 d) xs

put_pieces-keeps :
    (b : ℕ) (ps : List Payload) (xs : List Piece) (d : Disk)
    → All (λ x. b < x) (piece_bases xs)
    → IsSaved b ps d
    → IsSaved b ps (put_pieces xs d)
put_pieces-keeps b ps [] d r h = h
put_pieces-keeps b ps ((c, qs) ∷ xs) d r h =
    put_pieces-keeps b ps xs (put_piece (c, qs) d) r.1
      (Touches-IsSaved c b ps d (put_piece (c, qs) d) (put_piece-Touches c qs d) (inl r.0) h)

pub put_pieces-AllSaved :
    (xs : List Piece) (d : Disk)
    → Rising (piece_bases xs)
    → All (HasFiles d.files) (piece_bases xs)
    → AllSaved xs (put_pieces xs d)
put_pieces-AllSaved [] d r h = tt
put_pieces-AllSaved ((b, ps) ∷ xs) d r h = (
  put_pieces-keeps b ps xs (put_piece (b, ps) d) r.0 (put_piece-IsSaved b ps d h.0),
  put_pieces-AllSaved xs (put_piece (b, ps) d) r.1
      (Touches-All b (piece_bases xs) d (put_piece (b, ps) d) (put_piece-Touches b ps d) r.0 h.1),
)

pub put_pieces-stems : (xs : List Piece) (d : Disk) → stems (put_pieces xs d).files ≡ stems d.files
put_pieces-stems [] d = refl
put_pieces-stems ((b, ps) ∷ xs) d =
    put_pieces-stems xs (put_piece (b, ps) d) ∙ (put_piece-Touches b ps d).names

pub put_pieces-Shrinks : (xs : List Piece) (d : Disk) → Shrinks d (put_pieces xs d)
put_pieces-Shrinks [] d = Shrinks-refl d
put_pieces-Shrinks ((b, ps) ∷ xs) d =
    Shrinks-trans d (put_piece (b, ps) d) _ (put_piece-Touches b ps d).shrinks
      (put_pieces-Shrinks xs (put_piece (b, ps) d))

pub put_pieces-IsPresent :
    (n : Name) (xs : List Piece) (d : Disk)
    → IsPresent n d.files
    → IsPresent n (put_pieces xs d).files
put_pieces-IsPresent n [] d h = h
put_pieces-IsPresent n ((b, ps) ∷ xs) d h =
    put_pieces-IsPresent n xs (put_piece (b, ps) d) ((put_piece-Touches b ps d).keeps n h)

pub All-HasFiles :
    (bs : List ℕ) (d e : Disk)
    → ((n : Name) → IsPresent n d.files → IsPresent n e.files)
    → All (HasFiles d.files) bs
    → All (HasFiles e.files) bs
All-HasFiles [] d e k h = tt
All-HasFiles (b ∷ bs) d e k ((s, i), h) =
    ((k (store_name b) s, k (index_name b) i), All-HasFiles bs d e k h)
