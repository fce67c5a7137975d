-- ===== src/Log/Reader.antt =====
-- Reader (internal/log/log.go): the stores of the segments, one after the other, from their origins.
pub mod Copies
pub mod Drained
use proglog.Base.{ℕ, zero, suc, ◌+◌, ◌<◌, ◌≡◌, List, [], ◌∷◌, ◌++◌, Option, some, none, length}
use proglog.Base.Exec.{Error, panic, eof, Result, ok, err, Exec, pure, raise, zoom, ◌>>=◌, ◌>>◌}
use proglog.Store
use proglog.Store.{Store}
use proglog.Segment.{Segment}

-- An originReader: the store, and how far it was read.
pub record Origin : Type 0 where
  pub store : Store
  pub off : ℕ

-- Read of an originReader into a buffer of length `n`.
unfoldable pub origin_read : ℕ → Exec Origin (List ℕ × Option Error)
origin_read n o =
    let (r, s) = Store.read_at n o.off o.store in
    elim r [
      | err e ↦ (ok ([], some e), record o { store = s })
      | ok (got, e) ↦ (ok (got, e), record { store = s; off = o.off + length got })
    ]

-- What io.Copy writes to, a raft.SnapshotSink: the bytes so far, the error that a write returns, and
-- how it was ended.
pub data End : Type 0 where
  writing closed cancelled : End

pub record Sink : Type 0 where
  pub written : List ℕ
  pub fault : Option Error
  pub end : End

-- A write of some bytes; no bytes are not written.
unfoldable pub sink_write : List ℕ → Exec Sink (Unit {0})
sink_write [] k = (ok tt, k)
sink_write (b ∷ bs) k = elim k.fault [
  | some e ↦ (err e, k)
  | none ↦ (ok tt, record k { written = k.written ++ (b ∷ bs) })
]

pub record Copying : Type 0 where
  pub from : Origin
  pub sink : Sink

abbrev pub after_read : Option Error → Exec Copying (Unit {0}) → Exec Copying (Unit {0})
after_read none rest = rest
after_read (some eof) rest = pure tt
after_read (some e) rest = raise e

-- The copy of one reader by its Read, with a buffer of length `n`: what was read is written before the
-- reader's error is looked at, and io.EOF ends it.
unfoldable pub copy_origin : ℕ → ℕ → Exec Copying (Unit {0})
copy_origin zero n = raise panic
copy_origin (suc fuel) n = do
  (got, e) ← zoom (λ (c : Copying). c.from) (λ o c. record c { from = o }) (origin_read n)
  zoom (λ (c : Copying). c.sink) (λ k c. record c { sink = k }) (sink_write got)
  after_read e (copy_origin fuel n)

-- The segments that are left to read, as they are now, with the sink.
pub record Draining : Type 0 where
  pub segments : List Segment
  pub sink : Sink

abbrev pub origin_of : Segment → Origin
origin_of s = record { store = s.store; off = 0 }

abbrev pub drained : Segment → Copying → List Segment → Draining
drained s c ss = record { segments = record s { store = c.from.store } ∷ ss; sink = c.sink }

abbrev pub behind : Segment → Store → Result (Unit {0}) × Draining → Result (Unit {0}) × Draining
behind s t (r, d) = (r, record d { segments = record s { store = t } ∷ d.segments })

-- The length of the buffer of io.Copy.
abbrev pub copy_buffer : ℕ
copy_buffer = 32768

-- The copy of the io.MultiReader over the stores by its Read, which goes on to the next one at io.EOF.
-- Each reading takes a byte at least, or is the last one of its store: the size is fuel enough.
unfoldable pub copy_all : List Segment → Sink → Result (Unit {0}) × Draining
copy_all [] k = (ok tt, record { segments = []; sink = k })
copy_all (s ∷ ss) k =
    let (r, c) =
      copy_origin (suc s.store.size) copy_buffer (record { from = origin_of s; sink = k }) in
    let rest = behind s c.from.store (copy_all ss c.sink) in
    elim r [ err e ↦ (err e, drained s c ss) | ok _ ↦ rest ]

-- Cancel and Close of a sink.
abbrev pub cancel : Sink → Sink
cancel k = record k { end = cancelled }

abbrev pub close_sink : Exec Sink (Unit {0})
close_sink k = elim k.fault [ some e ↦ (err e, k) | none ↦ (ok tt, record k { end = closed }) ]
