-- ===== src/Log/Restart.antt =====
-- A log that was closed is there again after NewLog (internal/log/log.go).
use proglog.Base.{ℕ, ◌≡◌, refl, ◌∙◌, List, [], ◌∷◌, arith}
use proglog.Base.Exec.{ok}
use proglog.Api.{Libs, Reliable}
use proglog.Disk
use proglog.Disk.{Disk}
use proglog.Segment.{Segment, Config, store_name, index_name}
use proglog.Segment.Layout.{Payload}
use proglog.Segment.Create.{Works, IsSound}
use proglog.Segment.Files.{stems}
use proglog.Log.{Log, unset, close, new_log, setup, sort, open_all, open_initial, default_bytes}
use proglog.Log.Chain.{HasRoom}
use proglog.Log.Refine.{Holds}
use proglog.Log.Shrinks.{Shrinks-trans}
use proglog.Log.Saved.{bases, piece_bases, put_pieces, Made, Chain-Made}
use proglog.Log.Files.{
  put_pieces-AllSaved, put_pieces-stems, put_pieces-Shrinks, put_pieces-IsPresent, All-HasFiles,
}
use proglog.Log.Stored.{Stored}
use proglog.Log.Reopened.{doubled, Opened, open_all-Opened, active_over-HasRoomLast}

settled :
    (c : Config)
    → IsSound c
    → record c {
      max_store_bytes = default_bytes c.max_store_bytes;
      max_index_bytes = default_bytes c.max_index_bytes;
    }
      ≡ c
settled c s = ground (arith, s.store_room, s.index_room)

-- The log that NewLog gives to setup.
abbrev pub blank : Config → Disk → Log
blank c d = record { disk = d; config = c; active = unset; segments = [] }

pub new_log-setup :
    (libs : Libs) (d : Disk) (c : Config) → IsSound c → new_log libs d c ≡ setup libs (blank c d)
unfolding new_log
new_log-setup libs d c s = rw (settled c s) refl

HasRoom-open_initial :
    (libs : Libs) (ss : List Segment) (l : Log) → HasRoom ss → open_initial libs ss l ≡ (ok tt, l)
HasRoom-open_initial libs [] l h = absurd h
HasRoom-open_initial libs (s ∷ ss) l h = refl

-- setup, where the loop opens the files and there is a segment.
pub setup-open_all :
    (libs : Libs) (l : Log) (bs : List ℕ)
    → Works l.disk
    → sort (stems l.disk.files) ≡ doubled bs
    → (open_all libs (doubled bs) l).0 ≡ ok tt
    → open_initial libs (open_all libs (doubled bs) l).1.segments (open_all libs (doubled bs) l).1
      ≡ (ok tt, (open_all libs (doubled bs) l).1)
    → setup libs l ≡ (ok tt, (open_all libs (doubled bs) l).1)
unfolding setup Disk.read_dir
setup-open_all libs l bs w e okay stays = ground (arith, w.exists, w.healthy, e, okay, stays)

module _ (libs : Libs) (reliable : Reliable libs) (l : Log) (first : ℕ) (qs : List Payload)
    (h : Holds l first qs) (stored : Stored l) where
  made : Made l.config first l.segments qs
  made = Chain-Made l.config first l.segments qs h.chain stored.mapped

  closed : Disk
  unfolding made
  closed = put_pieces made.pieces l.disk

  close-closed : ((close libs l).0 ≡ ok tt) × ((close libs l).1.disk ≡ closed)
  unfolding close closed
  close-closed = made.saves libs reliable l.disk

  -- setup from there.
  opened :
      ((open_all libs (doubled (piece_bases made.pieces)) (blank l.config closed)).0 ≡ ok tt)
      × Opened l.config first made.pieces qs
          (blank l.config closed)
          (open_all libs (doubled (piece_bases made.pieces)) (blank l.config closed)).1
  unfolding closed
  opened =
      open_all-Opened libs reliable l.config h.sound first made.pieces qs (blank l.config closed)
        made.holds (rw (made.same) stored.rising)
        (put_pieces-AllSaved made.pieces l.disk (rw (made.same) stored.rising)
          (rw (made.same) stored.present))
        ((put_pieces-Shrinks made.pieces l.disk).works h.works) refl

  again : Log
  again = (open_all libs (doubled (piece_bases made.pieces)) (blank l.config closed)).1

  again-Opened : Opened l.config first made.pieces qs (blank l.config closed) again
  unfolding again
  again-Opened = opened.1

  again-segments : again.segments ≡ again-Opened.added
  again-segments = again-Opened.segments

  again-room : HasRoom again.segments
  again-room = rw (again-segments) (again-Opened.room (made.room h.room))

  closed-names : sort (stems closed.files) ≡ doubled (piece_bases made.pieces)
  unfolding closed
  closed-names = rw (put_pieces-stems made.pieces l.disk, made.same) stored.names

  closed-Works : Works closed
  unfolding closed
  closed-Works = (put_pieces-Shrinks made.pieces l.disk).works h.works

  new_log-again : new_log libs closed l.config ≡ (ok tt, again)
  unfolding again
  new_log-again =
      new_log-setup libs closed l.config h.sound
      ∙ setup-open_all libs (blank l.config closed) (piece_bases made.pieces) closed-Works
          closed-names opened.0 (HasRoom-open_initial libs _ _ again-room)

  again-Holds : Holds again first qs
  unfolding closed
  again-Holds = record {
    active =
        again-Opened.active ∙ active_over-HasRoomLast l.config made.pieces unset (made.room h.room);
    chain = rw (again-segments, again-Opened.config) again-Opened.chain;
    room = again-room;
    sound = rw (again-Opened.config) h.sound;
    works = again-Opened.shrinks.works closed-Works;
    absent = λ base b.
        let (s, i) = h.absent base b in
        let shrunk =
          Shrinks-trans l.disk closed again.disk (put_pieces-Shrinks made.pieces l.disk)
            again-Opened.shrinks in
        (shrunk.absent (store_name base) s, shrunk.absent (index_name base) i);
  }

  again-Stored : Stored again
  unfolding closed
  again-Stored = record {
    names = rw (again-Opened.names, again-segments, again-Opened.same) closed-names;
    present =
        rw (again-segments, again-Opened.same, made.same)
          (All-HasFiles (bases l.segments) l.disk again.disk
            (λ n p. again-Opened.keeps n (put_pieces-IsPresent n made.pieces l.disk p))
            stored.present);
    rising = rw (again-segments, again-Opened.same, made.same) stored.rising;
    mapped = rw (again-segments) again-Opened.mapped;
  }

  -- A log in its invariant, with its files in the directory, can be closed; NewLog on the directory
  -- with the same configuration then succeeds, and the log has the same records at the same offsets,
  -- is in its invariant again, and can be closed again.
  pub new_log-close :
      ((close libs l).0 ≡ ok tt)
      × ((new_log libs (close libs l).1.disk l.config).0 ≡ ok tt)
      × Holds (new_log libs (close libs l).1.disk l.config).1 first qs
      × Stored (new_log libs (close libs l).1.disk l.config).1
  new_log-close = (
    close-closed.0,
    rw (close-closed.1, new_log-again) refl,
    rw (close-closed.1, new_log-again) again-Holds,
    rw (close-closed.1, new_log-again) again-Stored,
  )
