-- ===== src/Examples/FileRuns.antt =====
-- A segment with its store and its index, and Truncate of a log, on the concrete libraries.
use proglog.Base.{ℕ, ◌≡◌, refl, [], some, arith, replicate}
use proglog.Base.Exec.{err, eof}
use proglog.Bytes.{put_uint64, put_uint32}
use proglog.Io
use proglog.Io.{opened}
use proglog.Store.{Store}
use proglog.Store.Refine.{Holds as StoreHolds, frame}
use proglog.Index
use proglog.Index.{Index}
use proglog.Index.Entries.{encode}
use proglog.Index.Refine.{Lists}
use proglog.Segment
use proglog.Segment.{Segment}
use proglog.Segment.Layout.{frames, entries}
use proglog.Segment.Refine.{Holds as SegmentHolds, append_full}
use proglog.Examples.Codec.{libs, encode_record}
use proglog.Examples.LogRuns.{config, hello, payload}

abbrev store : Store
store = record { buf = Io.new_writer (opened []); size = 0 }

store-Holds : StoreHolds store []
store-Holds = record {
  wrote = record { healthy = refl; no_error = refl; all = refl };
  sized = refl;
}

abbrev index_of : ℕ → Index
index_of n = record { file = opened (replicate n 0); mmap = replicate n 0; size = 0 }

index_24-Lists : Lists (index_of 24) []
unfolding encode
index_24-Lists = record {
  healthy = refl;
  sized = refl;
  rest = replicate 24 0;
  mapped = refl;
  small = omega arith;
  entries = tt;
}

abbrev segment_of : ℕ → Segment
segment_of n = record {
  store = store;
  index = index_of n;
  base_offset = 5;
  next_offset = 5;
  config = config;
}

segment-Holds : SegmentHolds (segment_of 24) []
unfolding frames entries
segment-Holds = record {
  store = store-Holds;
  index = index_24-Lists;
  next = refl;
  top = omega arith;
  bytes = omega arith;
  small = tt;
}

-- An index with no room for an entry.
full-Holds : SegmentHolds (segment_of 0) []
unfolding frames entries encode
full-Holds = record {
  store = store-Holds;
  index = record {
    healthy = refl;
    sized = refl;
    rest = [];
    mapped = refl;
    small = omega arith;
    entries = tt;
  };
  next = refl;
  top = omega arith;
  bytes = omega arith;
  small = tt;
}

append_full_example :
    ((Segment.append libs (some hello) (segment_of 0)).0 ≡ err eof)
    × ((Segment.append libs (some hello) (segment_of 0)).1.next_offset ≡ 5)
    × ((Segment.append libs (some hello) (segment_of 0)).1.index ≡ index_of 0)
    × StoreHolds (Segment.append libs (some hello) (segment_of 0)).1.store (frame (payload 5))
unfolding encode_record put_uint64 put_uint32 frames Index.is_maxed
append_full_example =
    append_full libs (segment_of 0) [] hello (payload 5) full-Holds refl refl (omega arith)
