-- ===== src/Store.antt =====
-- internal/log/store.go: the file of length-prefixed records behind a segment.
-- The embedded *os.File is the one that `buf` writes to. The mutex makes each method atomic: a
-- method is one step on the store.
pub mod Refine
use proglog.Base.{
  ℕ, ◌+◌, ◌%◌, ◌^◌, List, Option, none, some, Bool, length, leb, add64, if◌then◌else◌,
}
use proglog.Base.Exec.{
  Error, panic, Result, ok, err, Exec, pure, raise, lift, gets, modify, zoom, ◌>>=◌, ◌>>◌,
}
use proglog.Bytes.{put_uint64, get_be}
use proglog.Io
use proglog.Io.{File, Writer}

abbrev pub record_len_bytes : ℕ
record_len_bytes = 8

pub record Store : Type 0 where
  pub buf : Writer
  pub size : ℕ

-- newStore; os.Stat fails where calls on the file fail.
unfoldable pub new_store : File → Result Store
unfolding Io.stat
new_store f = elim (Io.stat f) [
  | err e ↦ err e
  | ok size ↦ ok (record { buf = Io.new_writer f; size = size })
]

abbrev pub on_buf {ℓ} : {A : Type ℓ} → Exec Writer A → Exec Store A
on_buf = zoom (λ (s : Store). s.buf) (λ w s. record s { buf = w })

-- The number of bytes written and the record's position.
unfoldable pub append : List ℕ → Exec Store (ℕ × ℕ)
append p = do
  pos ← gets (λ s. s.size)
  on_buf (Io.write (put_uint64 (length p)))
  n ← on_buf (Io.write p)
  let bytes_written = add64 n record_len_bytes
  modify (λ s. record s { size = add64 s.size bytes_written })
  pure (bytes_written, pos)

-- A (n, err) pair of ReadAt, where the caller looks at the error first.
abbrev pub full : List ℕ × Option Error → Result (List ℕ)
full (got, none) = ok got
full (got, some e) = err e

-- Longer slices than the address space has room for make Go's `make` panic.
abbrev pub max_alloc : ℕ
max_alloc = 2 ^ 48

abbrev pub check_alloc : ℕ → Exec Store (Unit {0})
check_alloc n = if leb max_alloc n then raise panic else pure tt

unfoldable pub read : ℕ → Exec Store (List ℕ)
read pos = do
  on_buf Io.flush
  f ← gets (λ s. s.buf.file)
  size ← lift (full (Io.read_at f record_len_bytes pos))
  check_alloc (get_be size)
  lift (full (Io.read_at f (get_be size) (add64 pos record_len_bytes)))

-- ReadAt: `n` is the length of the caller's buffer; the bytes read come beside the error.
unfoldable pub read_at : ℕ → ℕ → Exec Store (List ℕ × Option Error)
read_at n off = do on_buf Io.flush; f ← gets (λ s. s.buf.file); pure (Io.read_at f n off)

unfoldable pub close : Exec Store (Unit {0})
close = do
  on_buf Io.flush
  on_buf (zoom (λ (w : Writer). w.file) (λ f w. record w { file = f }) Io.close)
