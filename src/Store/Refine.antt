-- ===== src/Store/Refine.antt =====
-- A store stands for the sequence of bytes that its records make, flushed or not.
use proglog.Base.{
  ℕ, ◌+◌, ◌<◌, ◌^◌, ◌≡◌, refl, ap, sym, ◌∙◌, List, ◌++◌, none, arith, length, length-append,
  append_assoc, append-nil, add64,
}
use proglog.Base.Exec.{ok, err, eof}
use proglog.Bytes.{put_uint64, length-put_uint64, get_be-put_uint64}
use proglog.Io
use proglog.Io.{File, Writer, opened}
use proglog.Io.Laws.{Wrote, write-Writes, flush-Writes, read_at_part, read_at_short, close_lem}
use proglog.Store.{Store, new_store, append, read, close}

-- The store works, and its records make the bytes `b`.
pub record Holds (s : Store) (b : List ℕ) : Type 0 where
  pub wrote : Wrote s.buf b
  pub sized : s.size ≡ length b

-- A record as it stands in the file.
abbrev pub frame : List ℕ → List ℕ
frame p = put_uint64 (length p) ++ p

pub length-frame : (p : List ℕ) → length (frame p) ≡ 8 + length p
length-frame p =
    omega (arith, length-append (put_uint64 (length p)) p, length-put_uint64 (length p))

-- append on a store in its invariant adds one frame at the end, and returns its length and where
-- it starts, as long as the file stays below 2 ^ 63 bytes.
pub append-frame :
    (s : Store) (b p : List ℕ)
    → Holds s b
    → length b + (8 + length p) < 2 ^ 63
    → ((append p s).0 ≡ ok (length p + 8, length b)) × Holds (append p s).1 (b ++ frame p)
unfolding append
append-frame s b p h fits = ground (
  arith,
  write-Writes s.buf (put_uint64 (length p)) b,
  write-Writes (Io.write (put_uint64 (length p)) s.buf).1 p (b ++ put_uint64 (length p)),
  append_assoc b (put_uint64 (length p)) p,
  length-append b (frame p),
  length-frame p,
)

-- The two reads of a frame from the file.
module _ (f : File) (front p back : List ℕ) (healthy : f.fault ≡ none)
    (bytes : f.bytes ≡ front ++ (frame p ++ back))
    (fits : length (front ++ (frame p ++ back)) < 2 ^ 63) where
  room : length front + 8 + length p < 2 ^ 63
  room =
      omega
        (arith, length-append front (frame p ++ back), length-append (frame p) back, length-frame p)

  read_header : Io.read_at f 8 (length front) ≡ (put_uint64 (length p), none)
  read_header =
      read_at_part f front (put_uint64 (length p)) (p ++ back) 8 (length front) healthy
        (bytes ∙ ap (λ (t : List ℕ). front ++ t) (append_assoc (put_uint64 (length p)) p back)) refl
        (sym (length-put_uint64 (length p))) (omega (arith, room))

  read_payload : Io.read_at f (length p) (add64 (length front) 8) ≡ (p, none)
  read_payload =
      read_at_part f (front ++ put_uint64 (length p)) p back (length p) (add64 (length front) 8)
        healthy
        (bytes
          ∙ ap (λ (t : List ℕ). front ++ t) (append_assoc (put_uint64 (length p)) p back)
          ∙ sym (append_assoc front (put_uint64 (length p)) (p ++ back)))
        (omega
          (arith, room, length-append front (put_uint64 (length p)), length-put_uint64 (length p)))
        refl (omega (arith, room))

-- read returns the record that starts at a position, whatever stands before and behind it, also
-- where the record is still in the buffer; and it changes no record.
pub read-frame :
    (s : Store) (front p back : List ℕ)
    → Holds s (front ++ (frame p ++ back))
    → length (front ++ (frame p ++ back)) < 2 ^ 63
    → length p < 2 ^ 48
    → ((read (length front) s).0 ≡ ok p)
      × Holds (read (length front) s).1 (front ++ (frame p ++ back))
unfolding read
read-frame s front p back h fits small =
    let flushed = flush-Writes s.buf (front ++ (frame p ++ back)) h.wrote in
    ground (
      arith,
      flushed,
      read_header (Io.flush s.buf).1.file front p back flushed.0.1.healthy flushed.2 fits,
      read_payload (Io.flush s.buf).1.file front p back flushed.0.1.healthy flushed.2 fits,
      get_be-put_uint64 (length p) (omega arith),
    )

-- A read past the end is io.EOF, and changes no record.
pub read-eof :
    (s : Store) (b : List ℕ) (pos : ℕ)
    → Holds s b
    → length b < pos + 8
    → pos < 2 ^ 63
    → ((read pos s).0 ≡ err eof) × Holds (read pos s).1 b
unfolding read
read-eof s b pos h past small =
    let flushed = flush-Writes s.buf b h.wrote in
    ground (
      arith,
      flushed,
      read_at_short (Io.flush s.buf).1.file 8 pos flushed.0.1.healthy,
      ap length flushed.2,
    )

-- Close flushes the buffer: a store opened again over the file's bytes holds the same records.
pub close-Holds :
    (s : Store) (b : List ℕ) → Holds s b → ((close s).0 ≡ ok tt) × ((close s).1.buf.file.bytes ≡ b)
unfolding close
close-Holds s b h = ground (arith, flush-Writes s.buf b h.wrote, close_lem (Io.flush s.buf).1.file)

pub new_store-Holds : (b : List ℕ) → (s : Store) × (new_store (opened b) ≡ ok s) × Holds s b
unfolding new_store
new_store-Holds b = (
  record { buf = Io.new_writer (opened b); size = length b },
  refl,
  record { wrote = record { healthy = refl; no_error = refl; all = append-nil b }; sized = refl },
)
