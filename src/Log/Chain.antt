-- ===== src/Log/Chain.antt =====
-- The segments of a log, oldest first, hold consecutive parts of one list of payloads.
use proglog.Base.{
  ℕ, ◌+◌, ◌≤◌, ◌<◌, ◌≡◌, refl, ap, List, [], ◌∷◌, ◌++◌, none, arith, length, length-append, false,
}
use proglog.Segment
use proglog.Segment.{Segment, Config}
use proglog.Segment.Layout.{Payload}
use proglog.Segment.Refine
use proglog.Segment.Refine.{SameShape}
use proglog.Log.{last_match}

-- The segment holds `ps`, and the first of them has the offset `first`.
pub record Link (c : Config) (first : ℕ) (s : Segment) (ps : List Payload) : Type 0 where
  pub holds : Segment.Refine.Holds s ps
  pub base : s.base_offset ≡ first
  pub config : s.config ≡ c

abbrev pub Chain : Config → ℕ → List Segment → List Payload → Type 0
Chain c first [] qs = qs ≡ []
Chain c first (s ∷ ss) qs =
    (ps : List Payload) × (rest : List Payload) × (qs ≡ ps ++ rest)
    × Link c first s ps
    × Chain c (first + length ps) ss rest

-- The last segment has room for one more record.
abbrev pub HasRoom : List Segment → Type 0
HasRoom [] = ⊥
HasRoom (s ∷ []) = Segment.is_maxed s ≡ false
HasRoom (_ ∷ t ∷ ss) = HasRoom (t ∷ ss)

-- A segment at the end, which holds nothing yet.
pub Chain-snoc :
    (c : Config) (first : ℕ) (ss : List Segment) (qs : List Payload) (s : Segment)
    → Chain c first ss qs
    → Link c (first + length qs) s []
    → Chain c first (ss ++ (s ∷ [])) qs
Chain-snoc c first [] qs s h l =
    let e : first + length qs ≡ first = omega (arith, ap length h) in ([], [], h, rw e at l, refl)
Chain-snoc c first (t ∷ ss) qs s (ps, rest, e, k, h) l =
    let e' : first + length qs ≡ first + length ps + length rest =
      omega (arith, ap length e, length-append ps rest) in
    (ps, rest, e, k, Chain-snoc c (first + length ps) ss rest s h (rw e' at l))

pub HasRoom-snoc :
    (ss : List Segment) (s : Segment) → Segment.is_maxed s ≡ false → HasRoom (ss ++ (s ∷ []))
HasRoom-snoc [] s h = h
HasRoom-snoc (t ∷ []) s h = h
HasRoom-snoc (t ∷ u ∷ ss) s h = HasRoom-snoc (u ∷ ss) s h

-- What reading leaves alone decides whether a segment has room.
pub SameShape-is_maxed : (s t : Segment) → SameShape s t → Segment.is_maxed t ≡ Segment.is_maxed s
unfolding Segment.is_maxed
SameShape-is_maxed s t h = cc (h.index, h.size, h.config)

-- No segment of a chain covers an offset before it.
pub last_match_before :
    (c : Config) (first off : ℕ) (ss : List Segment) (qs : List Payload)
    → Chain c first ss qs
    → off < first
    → last_match off ss ≡ none
unfolding last_match
last_match_before c first off [] qs h b = refl
last_match_before c first off (s ∷ ss) qs (ps, rest, e, l, h) b =
    ground (arith, l.base, last_match_before c (first + length ps) off ss rest h (omega arith))

pub last_match_behind :
    (c : Config) (first off : ℕ) (ss : List Segment) (qs : List Payload)
    → Chain c first ss qs
    → first + length qs ≤ off
    → last_match off ss ≡ none
unfolding last_match
last_match_behind c first off [] qs h b = refl
last_match_behind c first off (s ∷ ss) qs (ps, rest, e, l, h) b =
    let n : length qs ≡ length ps + length rest =
      omega (arith, ap length e, length-append ps rest) in
    ground (
      arith,
      l.base,
      l.holds.next,
      last_match_behind c (first + length ps) off ss rest h (omega arith),
    )
