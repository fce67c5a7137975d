-- ===== src/Distributed/Persist.antt =====
-- Snapshot and Persist of the state machine (internal/log/distributed.go).
-- Persist copies the Reader of the log by io.Copy, which does not call Read of a reader that has a
-- WriteTo. The io.MultiReader has one, which copies each of its readers in the same way; and an
-- originReader has the one of the *os.File in its store.
pub mod Nothing
use proglog.Base.{ℕ, suc, ◌+◌, ◌≡◌, List, [], ◌∷◌, ◌++◌, Option, some, none, length, take, drop}
use proglog.Base.Exec.{Error, Result, ok, err, Exec}
use proglog.Io.{File}
use proglog.Segment.{Segment}
use proglog.Log.{Log}
use proglog.Log.Reader.{Sink, cancel, close_sink, copy_buffer, Draining}

-- A file that is copied to a sink.
pub record Passing : Type 0 where
  pub file : File
  pub sink : Sink

-- A write that fails comes behind the reading of the first buffer.
abbrev pub pass_on : List ℕ → Exec Passing (Unit {0})
pass_on [] c = (ok tt, c)
pass_on (b ∷ bs) c = elim c.sink.fault [
  | some e ↦ (
    err e,
    record c {
      file = record c.file { position = c.file.position + length (take copy_buffer (b ∷ bs)) };
    },
  )
  | none ↦ (
    ok tt,
    record {
      file = record c.file { position = length c.file.bytes };
      sink = record c.sink { written = c.sink.written ++ (b ∷ bs) };
    },
  )
]

-- WriteTo of an *os.File: it reads from the position of the file on, to its end.
unfoldable pub write_to : Exec Passing (Unit {0})
write_to c = elim c.file.fault [
  | some e ↦ (err e, c)
  | none ↦ pass_on (drop c.file.position c.file.bytes) c
]

abbrev pub with_file : Segment → File → Segment
with_file s f = record s { store = record s.store { buf = record s.store.buf { file = f } } }

abbrev pub behind_file :
    Segment → File → Result (Unit {0}) × Draining → Result (Unit {0}) × Draining
behind_file s f (r, d) = (r, record d { segments = with_file s f ∷ d.segments })

-- io.Copy of the Reader, over the stores of these segments.
unfoldable pub copy_files : List Segment → Sink → Result (Unit {0}) × Draining
copy_files [] k = (ok tt, record { segments = []; sink = k })
copy_files (s ∷ ss) k =
    let (r, c) = write_to (record { file = s.store.buf.file; sink = k }) in
    let rest = behind_file s c.file (copy_files ss c.sink) in
    elim r [
      | err e ↦ (err e, record { segments = with_file s c.file ∷ ss; sink = c.sink })
      | ok _ ↦ rest
    ]

-- The log whose stores the snapshot reads, and the sink.
pub record Saving : Type 0 where
  pub log : Log
  pub sink : Sink

abbrev pub ended : Log → Result (Unit {0}) × Sink → Result (Unit {0}) × Saving
ended l (r, k) = (r, record { log = l; sink = k })

abbrev pub end_with : Log → Result (Unit {0}) × Draining → Result (Unit {0}) × Saving
end_with l (err e, d) =
    (err e, record { log = record l { segments = d.segments }; sink = cancel d.sink })
end_with l (ok _, d) = ended (record l { segments = d.segments }) (close_sink d.sink)

-- Snapshot, and Persist of what it made: the readers are over the stores, and the segments are those
-- that the log has now.
unfoldable pub persist : Exec Saving (Unit {0})
persist w = end_with w.log (copy_files w.log.segments w.sink)
