-- ===== src/Index.antt =====
-- internal/log/index.go: the memory-mapped file of (offset, position) entries behind a segment.
pub mod Entries
pub mod Refine
pub mod Write
pub mod Reopen
use proglog.Base.{
  ℕ, ◌+◌, ◌-◌, ◌*◌, ◌/◌, ◌%◌, ◌^◌, List, ◌++◌, Option, none, some, Bool, length, take, drop, ltb,
  leb, ◌==◌, ◌&&◌, add64, sub64, is_negative, if◌then◌else◌,
}
use proglog.Base.Exec.{
  Error, eof, panic, fault, Result, ok, err, Exec, pure, raise, lift, gets, modify, zoom, ◌>>=◌,
  ◌>>◌,
}
use proglog.Bytes.{put_uint32, put_uint64, get_be}
use proglog.Io
use proglog.Io.{File}
use proglog.Api.{Libs}

abbrev pub off_width : ℕ
off_width = 4

abbrev pub pos_width : ℕ
pos_width = 8

abbrev pub ent_width : ℕ
ent_width = 12

pub record Index : Type 0 where
  pub file : File
  pub mmap : List ℕ
  pub size : ℕ

abbrev pub on_file {ℓ} : {A : Type ℓ} → Exec File A → Exec Index A
on_file = zoom (λ (i : Index). i.file) (λ f i. record i { file = f })

-- os.Truncate and (*os.File).Truncate refuse a negative int64.
abbrev pub truncate_to : ℕ → Exec File (Unit {0})
truncate_to n = if is_negative n then raise fault else Io.truncate n

-- newIndex: the size is that of the file before it is extended to MaxIndexBytes and mapped.
unfoldable pub new_index : Libs → ℕ → Exec File Index
new_index libs max_index_bytes = do
  size ← (λ f. (Io.stat f, f))
  truncate_to max_index_bytes
  f ← gets (λ f. f)
  mmap ← lift (libs.map_file f.bytes)
  pure (record { file = f; mmap = mmap; size = size })

-- Close: sync the map into the file, unmap it, sync the file, cut it to the entries, close it. The map
-- stays as a value; the code must not touch it from there on, and faults where it does.
unfoldable pub close : Libs → Exec Index (Unit {0})
close libs = do
  i ← gets (λ (i : Index). i)
  synced ← lift (libs.sync_map i.file.bytes i.mmap)
  modify (λ i. record i { file = record i.file { bytes = synced } })
  lift (libs.unmap i.mmap)
  on_file Io.sync
  on_file (truncate_to i.size)
  on_file Io.close

-- i.mmap[lo:hi]
unfoldable pub slice : ℕ → ℕ → List ℕ → Result (List ℕ)
slice lo hi m =
    if leb lo hi && leb hi (length m) then ok (take (hi - lo) (drop lo m)) else err panic

-- The bytes of m[lo:hi] become `b`, as long as the slice.
unfoldable pub put_slice : ℕ → ℕ → List ℕ → List ℕ → Result (List ℕ)
put_slice lo hi b m =
    if leb lo hi && leb hi (length m) then ok (take lo m ++ (b ++ drop hi m)) else err panic

-- -1 as an int64's bit pattern.
abbrev pub minus_one : ℕ
minus_one = 2 ^ 64 - 1

abbrev pub place_of : ℕ → ℕ → ℕ
place_of n size = if n == minus_one then sub64 (size / ent_width) 1 % 2 ^ 32 else n % 2 ^ 32

-- Read: `n` is an int64 by its bit pattern; at -1 the last entry is read.
unfoldable pub read : ℕ → Exec Index (ℕ × ℕ)
read n i =
    let out = place_of n i.size in
    let pos = out * ent_width in
    if i.size == 0
    then (err eof, i)
    else if ltb i.size (pos + ent_width)
    then (err eof, i)
    else (do
      o ← lift (slice pos (pos + off_width) i.mmap)
      p ← lift (slice (pos + off_width) (pos + ent_width) i.mmap)
      pure (get_be o, get_be p))
        i

unfoldable pub is_maxed : Index → Bool
is_maxed i = ltb (length i.mmap) (add64 i.size ent_width)

abbrev pub put_at : ℕ → ℕ → List ℕ → Exec Index (Unit {0})
put_at lo hi b = do
  i ← gets (λ (i : Index). i)
  m ← lift (put_slice lo hi b i.mmap)
  modify (λ i. record i { mmap = m })

-- Write
unfoldable pub write : ℕ → ℕ → Exec Index (Unit {0})
write off pos i =
    if is_maxed i
    then (err eof, i)
    else (do
      put_at i.size (add64 i.size off_width) (put_uint32 off)
      put_at (add64 i.size off_width) (add64 i.size ent_width) (put_uint64 pos)
      modify (λ j. record j { size = add64 j.size ent_width }))
        i
