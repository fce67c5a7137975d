-- ===== src/Io.antt =====
-- What the log takes from Go's standard library: *os.File and bufio.Writer.
-- A file is its bytes, the position of its handle, at which (*os.File).Read goes on, and, where calls
-- of the operating system on it fail, the error that they return (a closed handle is one such
-- state). A failing call changes nothing.
pub mod Laws
pub mod Position
use proglog.Base.{
  ℕ, ◌+◌, ◌-◌, List, [], ◌∷◌, ◌++◌, Option, none, some, length, take, drop, replicate, ltb, leb,
  ◌==◌, if◌then◌else◌, is_negative, ◌%◌, ◌^◌,
}
use proglog.Base.Exec.{Error, eof, closed, negative_offset, Result, ok, err, Exec}

pub record File : Type 0 where
  pub bytes : List ℕ
  pub fault : Option Error
  pub position : ℕ

-- A newly opened file.
abbrev pub opened : List ℕ → File
opened bytes = record { bytes = bytes; fault = none; position = 0 }

-- os.Stat: the size.
unfoldable pub stat : File → Result ℕ
stat f = elim f.fault [ some e ↦ err e | none ↦ ok (length f.bytes) ]

-- (*os.File).ReadAt: the bytes read, and io.EOF if they are fewer than asked for. `n` is the length
-- of the buffer, `off` an int64 by its bit pattern.
unfoldable pub read_at : File → ℕ → ℕ → List ℕ × Option Error
read_at f n off =
    if is_negative off
    then ([], some negative_offset)
    else if n == 0
    then ([], none)
    else elim f.fault [
      | some e ↦ ([], some e)
      | none ↦
          let got = take n (drop off f.bytes) in
          (got, if ltb (length got) n then some eof else none)
    ]

-- (*os.File).Truncate and os.Truncate: cut, or extend by zeros.
unfoldable pub truncate : ℕ → Exec File (Unit {0})
truncate n f = elim f.fault [
  | some e ↦ (err e, f)
  | none ↦ (ok tt, record f { bytes = take n f.bytes ++ replicate (n - length (take n f.bytes)) 0 })
]

-- (*os.File).Sync.
unfoldable pub sync : Exec File (Unit {0})
sync f = elim f.fault [ some e ↦ (err e, f) | none ↦ (ok tt, f) ]

-- (*os.File).Close: later calls on the handle fail.
unfoldable pub close : Exec File (Unit {0})
close f = elim f.fault [ some e ↦ (err e, f) | none ↦ (ok tt, record f { fault = some closed }) ]

-- bufio.Writer over a file opened with O_APPEND: what waits in the buffer, and the error that an
-- earlier write of the file returned, which stays.
pub record Writer : Type 0 where
  pub file : File
  pub pending : List ℕ
  pub error : Option Error

abbrev pub buffer_size : ℕ
buffer_size = 4096

-- bufio.NewWriter
abbrev pub new_writer : File → Writer
new_writer f = record { file = f; pending = []; error = none }

-- `b.err = b.wr.Write(p)`, and the buffer is `left` if that succeeds. With O_APPEND the write goes
-- to the end of the file, where the position is then.
unfoldable pub write_out : List ℕ → List ℕ → Exec Writer (Unit {0})
write_out p left w = elim w.file.fault [
  | some e ↦ (err e, record w { error = some e })
  | none ↦ (
    ok tt,
    record w {
      file = record w.file { bytes = w.file.bytes ++ p; position = length (w.file.bytes ++ p) };
      pending = left;
    },
  )
]

-- (*bufio.Writer).Flush
unfoldable pub flush : Exec Writer (Unit {0})
flush w = elim w.error [
  | some e ↦ (err e, w)
  | none ↦ elim w.pending [ [] ↦ (ok tt, w) | x ∷ r ↦ write_out (x ∷ r) [] w ]
]

-- The last part of `p`, once the buffer is empty: it goes straight to the file if it is longer
-- than the buffer.
unfoldable pub write_rest : List ℕ → Exec Writer (Unit {0})
write_rest p w =
    if leb (length p) buffer_size
    then (ok tt, record w { pending = w.pending ++ p })
    else write_out p [] w

-- (*bufio.Writer).Write past the room in the buffer: fill the buffer, flush it, go on.
unfoldable pub write_over : List ℕ → Exec Writer (Unit {0})
write_over p w =
    let room = buffer_size - length w.pending in
    if length w.pending == 0
    then write_out p [] w
    else let (r, w') = write_out (w.pending ++ take room p) [] w in
      elim r [ err e ↦ (err e, w') | ok _ ↦ write_rest (drop room p) w' ]

-- (*bufio.Writer).Write: the count of bytes written.
unfoldable pub write : List ℕ → Exec Writer ℕ
write p w = elim w.error [
  | some e ↦ (err e, w)
  | none ↦
      if leb (length p) (buffer_size - length w.pending)
      then (ok (length p), record w { pending = w.pending ++ p })
      else let (r, w') = write_over p w in
        elim r [ err e ↦ (err e, w') | ok _ ↦ (ok (length p), w') ]
]
