-- ===== src/Segment.antt =====
-- internal/log/segment.go, and the Segment part of internal/log/config.go: a store and the index
-- over it.
pub mod Layout
pub mod Refine
pub mod Files
pub mod Create
pub mod Reopen
pub mod Crashed
use proglog.Base.{
  ℕ, ◌+◌, ◌%◌, ◌^◌, ◌/◌, ◌*◌, Option, none, some, Bool, leb, ◌||◌, ◌==◌, add64, sub64,
  if◌then◌else◌,
}
use proglog.Base.Exec.{
  panic, Result, ok, err, Exec, pure, raise, lift, gets, modify, zoom, ◌>>=◌, ◌>>◌,
}
use proglog.Api.{Record, Libs}
use proglog.Io.{File}
use proglog.Disk
use proglog.Disk.{Disk, Name}
use proglog.Store
use proglog.Store.{Store}
use proglog.Index
use proglog.Index.{Index, minus_one}

pub record Config : Type 0 where
  pub max_store_bytes : ℕ
  pub max_index_bytes : ℕ
  pub initial_offset : ℕ

pub record Segment : Type 0 where
  pub store : Store
  pub index : Index
  pub base_offset : ℕ
  pub next_offset : ℕ
  pub config : Config

abbrev pub store_name : ℕ → Name
store_name base = record { stem = base; ext = Disk.store }

abbrev pub index_name : ℕ → Name
index_name base = record { stem = base; ext = Disk.index }

abbrev pub on_store {ℓ} : {A : Type ℓ} → Exec Store A → Exec Segment A
on_store = zoom (λ (s : Segment). s.store) (λ t s. record s { store = t })

abbrev pub on_index {ℓ} : {A : Type ℓ} → Exec Index A → Exec Segment A
on_index = zoom (λ (s : Segment). s.index) (λ i s. record s { index = i })

-- The offset behind the last entry of the index, or the base where there is none.
abbrev pub offset_after : ℕ → Result (ℕ × ℕ) → ℕ
offset_after base (ok (off, _)) = add64 (add64 base off) 1
offset_after base (err _) = base

-- newIndex works on the file itself: what it does to the bytes stays.
abbrev pub open_index : Libs → ℕ → Name → Exec Disk Index
open_index libs max_index_bytes n = do
  f ← Disk.open_file n
  let (r, f') = Index.new_index libs max_index_bytes f
  modify (Disk.write_back n f'.bytes)
  lift r

-- newSegment
unfoldable pub new_segment : Libs → ℕ → Config → Exec Disk Segment
new_segment libs base c = do
  f ← Disk.open_file (store_name base)
  store ← lift (Store.new_store f)
  index ← open_index libs c.max_index_bytes (index_name base)
  pure (record {
    store = store;
    index = index;
    base_offset = base;
    next_offset = offset_after base (Index.read minus_one index).0;
    config = c;
  })

-- Append: `none` is a nil *api.Record. The offset that it sets in the caller's record is the one
-- that it returns.
unfoldable pub append : Libs → Option Record → Exec Segment ℕ
append libs none = raise panic
append libs (some r) = do
  cur ← gets (λ (s : Segment). s.next_offset)
  p ← lift (libs.marshal (record r { offset = cur }))
  (_, pos) ← on_store (Store.append p)
  base ← gets (λ (s : Segment). s.base_offset)
  on_index (Index.write (sub64 cur base % 2 ^ 32) pos)
  modify (λ s. record s { next_offset = add64 s.next_offset 1 })
  pure cur

unfoldable pub read : Libs → ℕ → Exec Segment Record
read libs off = do
  base ← gets (λ (s : Segment). s.base_offset)
  (_, pos) ← on_index (Index.read (sub64 off base))
  p ← on_store (Store.read pos)
  lift (libs.unmarshal p)

unfoldable pub is_maxed : Segment → Bool
is_maxed s =
    (leb s.config.max_store_bytes s.store.size || leb s.config.max_index_bytes s.index.size)
    || Index.is_maxed s.index

unfoldable pub close : Libs → Exec Segment (Unit {0})
close libs = do on_index (Index.close libs); on_store Store.close

-- What the handles hold is what the files hold.
unfoldable pub put_back : Segment → Disk → Disk
put_back s d =
    Disk.write_back (store_name s.base_offset) s.store.buf.file.bytes
      (Disk.write_back (index_name s.base_offset) s.index.file.bytes d)

-- A segment with the directory that its files are in.
pub record OnDisk : Type 0 where
  pub segment : Segment
  pub disk : Disk

abbrev pub on_disk {ℓ} : {A : Type ℓ} → Exec Disk A → Exec OnDisk A
on_disk = zoom (λ (o : OnDisk). o.disk) (λ d o. record o { disk = d })

-- Close, with the bytes in the directory.
unfoldable pub close_files : Libs → Exec OnDisk (Unit {0})
close_files libs o =
    let (r, s') = close libs o.segment in (r, record { segment = s'; disk = put_back s' o.disk })

unfoldable pub remove : Libs → Exec OnDisk (Unit {0})
remove libs = do
  close_files libs
  base ← gets (λ (o : OnDisk). o.segment.base_offset)
  on_disk (Disk.remove (index_name base))
  on_disk (Disk.remove (store_name base))

-- nearestMultiple; `j >= 0` always holds of a uint64, so the second return is never reached.
unfoldable pub nearest_multiple : ℕ → ℕ → Result ℕ
nearest_multiple j k = if k == 0 then err panic else ok (j / k * k)
