-- ===== src/Log/Reader/Drained.antt =====
-- Copying the Reader of a log gives the frames of all its payloads, in their order.
use proglog.Base.{
  ℕ, suc, ◌+◌, ◌≡◌, refl, ap, sym, ◌∙◌, List, [], ◌∷◌, ◌++◌, none, arith, length, append_assoc,
  append-nil,
}
use proglog.Base.Exec.{Result, ok}
use proglog.Store.{Store}
use proglog.Store.Refine.{Holds as StoreHolds}
use proglog.Segment.{Segment, Config}
use proglog.Segment.Refine.{SameShape}
use proglog.Segment.Layout.{Payload, frames, frames-append}
use proglog.Log.Chain.{Link, Chain, HasRoom, SameShape-is_maxed}
use proglog.Log.Reader.{Sink, copy_origin, copy_all, Draining, copy_buffer, origin_of, behind}
use proglog.Log.Reader.Copies.{Copied, copy_origin-Copied}

-- The sink has the frames behind what it had, and the log has the same payloads.
pub record Drained (c : Config) (first : ℕ) (ss : List Segment) (qs : List Payload) (k : Sink)
    (out : Result (Unit {0}) × Draining) : Type 0 where
  pub okay : out.0 ≡ ok tt
  pub sink : out.1.sink ≡ record k { written = k.written ++ frames qs }
  pub chain : Chain c first out.1.segments qs
  pub room : HasRoom ss → HasRoom out.1.segments
  pub size : length out.1.segments ≡ length ss

stored_again :
    (c : Config) (first : ℕ) (s : Segment) (ps : List Payload) (t : Store)
    → Link c first s ps
    → StoreHolds t (frames ps)
    → Link c first (record s { store = t }) ps × SameShape s (record s { store = t })
stored_again c first s ps t l h = (
  record {
    holds = record {
      store = h;
      index = l.holds.index;
      next = l.holds.next;
      top = l.holds.top;
      bytes = l.holds.bytes;
      small = l.holds.small;
    };
    base = l.base;
    config = l.config;
  },
  record {
    index = refl;
    size = h.sized ∙ sym l.holds.store.sized;
    base = refl;
    next = refl;
    config = refl;
  },
)

room_behind :
    (s t : Segment) (ss rest : List Segment)
    → SameShape s t
    → length rest ≡ length ss
    → (HasRoom ss → HasRoom rest)
    → HasRoom (s ∷ ss)
    → HasRoom (t ∷ rest)
room_behind s t [] [] h n f r = SameShape-is_maxed s t h ∙ r
room_behind s t [] (x ∷ rest) h n f r = absurd (omega arith)
room_behind s t (y ∷ ss) [] h n f r = absurd (omega arith)
room_behind s t (y ∷ ss) (x ∷ rest) h n f r = f r

module _ (c : Config) where
  first-Copied :
      (first : ℕ) (s : Segment) (ps : List Payload) (k : Sink)
      → Link c first s ps
      → k.fault ≡ none
      → Copied
          (frames ps)
          0
          (record { from = origin_of s; sink = k })
          (copy_origin (suc s.store.size) copy_buffer (record { from = origin_of s; sink = k }))
  first-Copied first s ps k l f =
      copy_origin-Copied (suc s.store.size) copy_buffer 0 (frames ps)
        (record { from = origin_of s; sink = k }) l.holds.store refl (omega arith)
        (omega (arith, l.holds.store.sized)) (omega arith) l.holds.bytes f

  copy_all-step :
      (s : Segment) (ss : List Segment) (k : Sink)
      → (copy_origin (suc s.store.size) copy_buffer (record { from = origin_of s; sink = k })).0
        ≡ ok tt
      → copy_all (s ∷ ss) k
        ≡ behind s
            (copy_origin
              (suc s.store.size)
              copy_buffer
              (record { from = origin_of s; sink = k })).1.from.store
            (copy_all ss
              (copy_origin
                (suc s.store.size)
                copy_buffer
                (record { from = origin_of s; sink = k })).1.sink)
  unfolding copy_all
  copy_all-step s ss k e = ground (arith, e)

  -- Reading the Reader of the segments of a log to its end, by Read, into a sink that takes the writes:
  -- it succeeds, gives the frames of all payloads in their order, behind what the sink had, and keeps
  -- the segments with their payloads.
  pub copy_all-Drained :
      (first : ℕ) (ss : List Segment) (qs : List Payload) (k : Sink)
      → Chain c first ss qs
      → k.fault ≡ none
      → Drained c first ss qs k (copy_all ss k)
  unfolding copy_all frames
  copy_all-Drained first [] qs k h f = record {
    okay = refl;
    sink = rw h (ap (λ t. record k { written = t }) (sym (append-nil k.written)));
    chain = h;
    room = λ r. r;
    size = refl;
  }
  copy_all-Drained first (s ∷ ss) qs k (ps, rest, e, l, h) f =
      let (r, now) =
        copy_origin (suc s.store.size) copy_buffer (record { from = origin_of s; sink = k }) in
      let copied = first-Copied first s ps k l f in
      let more =
        copy_all-Drained (first + length ps) ss rest now.sink h
          (ap (λ (x : Sink). x.fault) copied.sink ∙ f) in
      let (link, shape) = stored_again c first s ps now.from.store l copied.store in
      rw (copy_all-step s ss k copied.okay) (record {
        okay = more.okay;
        sink =
            more.sink
            ∙ ap (λ (x : Sink). record x { written = x.written ++ frames rest }) copied.sink
            ∙ ap (λ t. record k { written = t })
                (append_assoc k.written (frames ps) (frames rest)
                  ∙ ap (λ t. k.written ++ t) (sym (ap frames e ∙ frames-append ps rest)));
        chain = (ps, rest, e, link, more.chain);
        room = room_behind s (record s { store = now.from.store }) ss _ shape more.size more.room;
        size = ap suc more.size;
      })
