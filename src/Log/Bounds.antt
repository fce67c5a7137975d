-- ===== src/Log/Bounds.antt =====
-- LowestOffset and HighestOffset (internal/log/log.go).
use proglog.Base.{
  ℕ, ◌+◌, ◌-◌, ◌≤◌, ◌<◌, ◌≡◌, ap, ◌∙◌, List, [], ◌∷◌, arith, length, length-append, Bool-cases, inl,
  inr, ◌⊎◌, ltb, ltb→lt,
}
use proglog.Base.Exec.{ok}
use proglog.Segment.{Segment, Config}
use proglog.Segment.Layout.{Payload}
use proglog.Log.{Log, first_base, last_next, lowest_offset, highest_offset}
use proglog.Log.Chain.{Chain, HasRoom}
use proglog.Log.Refine.{Holds}

first_base-Chain :
    (c : Config) (first : ℕ) (ss : List Segment) (qs : List Payload)
    → Chain c first ss qs
    → HasRoom ss
    → first_base ss ≡ ok first
first_base-Chain c first [] qs h room = absurd room
first_base-Chain c first (s ∷ ss) qs (ps, rest, e, l, h) room = ap ok l.base

last_next-Chain :
    (c : Config) (first : ℕ) (ss : List Segment) (qs : List Payload)
    → Chain c first ss qs
    → HasRoom ss
    → last_next ss ≡ ok (first + length qs)
unfolding last_next
last_next-Chain c first [] qs h room = absurd room
last_next-Chain c first (s ∷ []) qs (ps, rest, e, l, h) room =
    ap ok (omega (arith, l.base, l.holds.next, ap length e, ap length h, length-append ps rest))
last_next-Chain c first (s ∷ t ∷ ss) qs (ps, rest, e, l, h) room =
    last_next-Chain c (first + length ps) (t ∷ ss) rest h room
    ∙ ap ok (omega (arith, ap length e, length-append ps rest))

module _ (l : Log) (first : ℕ) (qs : List Payload) (h : Holds l first qs) where
  -- The bounds that a log in its invariant reports: LowestOffset is the offset of its first record,
  -- HighestOffset that of its last one, also where the log has none and the two cross, but zero for
  -- an empty log that starts at zero.
  pub lowest-highest :
      (lowest_offset l ≡ ok first) × (highest_offset l ≡ ok (first + length qs - 1))
  unfolding lowest_offset highest_offset
  lowest-highest = (
    first_base-Chain l.config first l.segments qs h.chain h.room,
    ground (arith, last_next-Chain l.config first l.segments qs h.chain h.room),
  )

-- An offset is in the range, as its distance from the first one, or outside of it.
pub place :
    (first n off : ℕ)
    → ((k : ℕ) × (k < n) × (off ≡ first + k)) ⊎ ((off < first) ⊎ (first + n ≤ off))
place first n off = elim (Bool-cases (ltb off first)) [
  | inl lt ↦ inr (inl (ltb→lt off first lt))
  | inr ge ↦ elim (Bool-cases (ltb off (first + n))) [
    | inl lt ↦ inl (off - first, ground arith, ground arith)
    | inr out ↦ inr (inr (ground arith))
  ]
]
