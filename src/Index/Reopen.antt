-- ===== src/Index/Reopen.antt =====
-- An index keeps its entries over Close and a second newIndex.
use proglog.Base.{
  ℕ, ◌+◌, ◌*◌, ◌-◌, ◌≤◌, ◌<◌, ◌^◌, ◌≡◌, refl, ap, List, ◌++◌, arith, length, take, length-append,
  append-nil, take-append, take_all, All, false, replicate, length-replicate,
}
use proglog.Base.Exec.{ok}
use proglog.Io
use proglog.Io.{File, opened}
use proglog.Api.{Libs, Reliable}
use proglog.Index.{Index, close, new_index, is_maxed}
use proglog.Index.Entries.{Entry, IsEntry, encode, length-encode}
use proglog.Index.Refine.{Lists}

module _ (libs : Libs) (reliable : Reliable libs) where
  -- Close leaves the entries in the file, and nothing behind them.
  pub close-bytes :
      (i : Index) (es : List Entry)
      → Lists i es
      → ((close libs i).0 ≡ ok tt) × ((close libs i).1.file.bytes ≡ encode es)
  unfolding close Io.sync Io.truncate Io.close
  close-bytes i es h = ground (
    arith,
    reliable.syncs i.file.bytes i.mmap,
    reliable.unmaps i.mmap,
    h.sized,
    h.small,
    ap length h.mapped,
    length-append (encode es) h.rest,
    length-encode es,
    kept,
    append-nil (encode es),
  )
    where
      kept : take i.size i.mmap ≡ encode es
      kept =
          rw h.mapped
            (take-append (encode es) h.rest i.size (omega (arith, h.sized, length-encode es)))

  -- newIndex on the file of an index that was closed lists the entries again, and has the room that
  -- MaxIndexBytes leaves.
  module _ (es : List Entry) (max_index_bytes : ℕ) (entries : All IsEntry es)
      (room : 12 * length es ≤ max_index_bytes) (small : max_index_bytes < 2 ^ 32) where
    padded : List ℕ
    padded = encode es ++ replicate (max_index_bytes - length (encode es)) 0

    unfoldable pub reopened : Index
    unfolding padded
    reopened = record { file = opened padded; mmap = padded; size = length (encode es) }

    pub new_index-reopened : (new_index libs max_index_bytes (opened (encode es))).0 ≡ ok reopened
    unfolding new_index reopened Io.stat Io.truncate
    new_index-reopened = ground (
      arith,
      take_all max_index_bytes (encode es) (omega (arith, length-encode es)),
      reliable.maps padded,
    )

    length-padded : length padded ≡ max_index_bytes
    unfolding padded
    length-padded = omega (
      arith,
      length-append (encode es) (replicate (max_index_bytes - length (encode es)) 0),
      length-replicate {A = ℕ} (max_index_bytes - length (encode es)) 0,
      length-encode es,
    )

    pub length-reopened : length reopened.mmap ≡ max_index_bytes
    unfolding reopened
    length-reopened = length-padded

    pub reopened-Lists : Lists reopened es
    unfolding reopened
    reopened-Lists = record {
      healthy = refl;
      sized = length-encode es;
      rest = replicate (max_index_bytes - length (encode es)) 0;
      mapped = unfold padded in refl;
      small = omega (arith, length-padded);
      entries = entries;
    }

    pub reopened-is_maxed : 12 * length es + 12 ≤ max_index_bytes → is_maxed reopened ≡ false
    unfolding reopened is_maxed
    reopened-is_maxed fits = ground (arith, length-padded, length-encode es)

  -- Close on an index in its invariant succeeds, and newIndex on the file that it leaves lists the
  -- same entries, if MaxIndexBytes has room for them.
  pub new_index-close :
      (i : Index) (es : List Entry) (max_index_bytes : ℕ)
      → Lists i es
      → 12 * length es ≤ max_index_bytes
      → max_index_bytes < 2 ^ 32
      → ((close libs i).0 ≡ ok tt)
        × ((j : Index) × ((new_index libs max_index_bytes (opened (close libs i).1.file.bytes)).0
              ≡ ok j)
            × Lists j es)
  new_index-close i es max_index_bytes h room small =
      let (okay, bytes) = close-bytes i es h in
      (
        okay,
        (
          reopened es max_index_bytes h.entries room small,
          rw bytes (new_index-reopened es max_index_bytes h.entries room small),
          reopened-Lists es max_index_bytes h.entries room small,
        ),
      )
