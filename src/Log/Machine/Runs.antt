-- ===== src/Log/Machine/Runs.antt =====
-- The log of internal/log/log.go does what it promises, over every sequence of calls.
use proglog.Base.{ℕ, ◌+◌, ◌<◌, ◌^◌, ◌≡◌, refl, List, [], ◌∷◌, arith}
use proglog.Base.Exec.{ok}
use proglog.Api.{Libs, Reliable}
use proglog.Disk.{Disk}
use proglog.Segment.{Config}
use proglog.Segment.Create.{Works, IsSound}
use proglog.Log
use proglog.Log.{Log, default_bytes}
use proglog.Log.Create.{new_log-Holds}
use proglog.Log.Create.Files.{new_log-Stored}
use proglog.Log.Machine.{
  Call, appends, reads, truncates, lowest, highest, restarts, Answer, offset, step, run,
}
use proglog.Log.Machine.Spec.{View, next, Move, at_lowest, at_highest, Moves, stop, go}
use proglog.Log.Machine.Refines.{
  Shows, Allowed, Kept, append-Kept, read-Kept, truncate-Kept, bounds, restart-Kept,
}

-- A run does what the promise allows, and shows at its end what the promise has then.
pub record Served (libs : Libs) (v : View) (cs : List Call) (out : List Answer × Log) : Type 0 where
  pub view : View
  pub moves : Moves v cs out.0 view
  pub shows : Shows libs out.1 view

unchanged :
    (libs : Libs) (l : Log) (v : View) (c : Call) (a : Answer)
    → Shows libs l v
    → Move v c a v
    → Kept libs v c (a, l) (next v)
unchanged libs l v c a s m = record { view = v; move = m; shows = s; count = refl }

module _ (libs : Libs) (reliable : Reliable libs) where
  go_on :
      (v : View) (c : Call) (cs : List Call) (l : Log) (n : ℕ)
      → (k : Kept libs v c (step libs c l) n)
      → Served libs k.view cs (run libs cs (step libs c l).1)
      → Served libs v (c ∷ cs) (run libs (c ∷ cs) l)
  unfolding run
  go_on v c cs l n k s = record {
    view = s.view;
    moves =
        go v k.view s.view c (step libs c l).0 cs (run libs cs (step libs c l).1).0 k.move s.moves;
    shows = s.shows;
  }

  run-Served :
      (cs : List Call) (l : Log) (v : View)
      → Shows libs l v
      → Allowed libs (next v) cs
      → Served libs v cs (run libs cs l)
  unfolding run step unchanged
  run-Served [] l v s a = record { view = v; moves = stop v; shows = s }
  run-Served (appends r ∷ cs) l v s ((p, m, small), fits, top, a) =
      let k = append-Kept libs reliable l v s r p m small fits top in
      go_on v (appends r) cs l (next v + 1) k
        (run-Served cs (step libs (appends r) l).1 k.view k.shows (rw k.count a))
  run-Served (reads off ∷ cs) l v s a =
      let k = read-Kept libs reliable l v s off in
      go_on v (reads off) cs l (next v) k
        (run-Served cs (step libs (reads off) l).1 k.view k.shows (rw k.count a))
  run-Served (truncates low ∷ cs) l v s (b, top, a) =
      let k = truncate-Kept libs reliable l v s low b top in
      go_on v (truncates low) cs l (next v) k
        (run-Served cs (step libs (truncates low) l).1 k.view k.shows (rw k.count a))
  run-Served (lowest ∷ cs) l v s a =
      go_on v lowest cs l (next v)
        (unchanged libs l v lowest (offset (Log.lowest_offset l)) s
          (rw (bounds libs reliable l v s).0 (at_lowest v)))
        (run-Served cs l v s a)
  run-Served (highest ∷ cs) l v s a =
      go_on v highest cs l (next v)
        (unchanged libs l v highest (offset (Log.highest_offset l)) s
          (rw (bounds libs reliable l v s).1 (at_highest v)))
        (run-Served cs l v s a)
  run-Served (restarts ∷ cs) l v s a =
      let k = restart-Kept libs reliable l v s in
      go_on v restarts cs l (next v) k
        (run-Served cs (step libs restarts l).1 k.view k.shows (rw k.count a))

  -- A log that NewLog makes in an empty directory that can be read, with segment sizes that leave
  -- room for a record, answers every sequence of Append, Read, Truncate, LowestOffset,
  -- HighestOffset and restarts (Close, then NewLog of the directory) as a list of records that
  -- starts at the initial offset, below 2 ^ 63, does: Append adds the record at the next offset and
  -- returns the offset, Read returns the record at its offset or the error ErrOffsetOutOfRange,
  -- Truncate drops from the front records that lie at or below its offset, LowestOffset and
  -- HighestOffset return the offset of the first record and that of the last one, and a restart
  -- loses nothing. The records that are appended are such that Marshal accepts them, with payloads
  -- below 2 ^ 48 bytes and offsets below 2 ^ 63, and Truncate is called below the last offset only.
  pub run-Moves :
      (d : Disk) (c : Config) (cs : List Call)
      → (works : Works d) → d.files ≡ []
      → (sound : IsSound (record c {
        max_store_bytes = default_bytes c.max_store_bytes;
        max_index_bytes = default_bytes c.max_index_bytes;
      }))
      → c.initial_offset < 2 ^ 63
      → Allowed libs c.initial_offset cs
      → ((Log.new_log libs d c).0 ≡ ok tt)
        × Served libs
            (record { first = c.initial_offset; records = [] })
            cs
            (run libs cs (Log.new_log libs d c).1)
  run-Moves d c cs works none sound top a =
      let (okay, holds) = new_log-Holds libs reliable d c works none sound top in
      let at : c.initial_offset + 0 ≡ c.initial_offset = omega arith in
      (
        okay,
        run-Served cs (Log.new_log libs d c).1 (record { first = c.initial_offset; records = [] })
            (record {
              payloads = [];
              holds = holds;
              stored = new_log-Stored libs reliable d c works none sound;
              decodes = tt;
            })
            (rw at a),
      )
