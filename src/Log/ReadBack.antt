-- ===== src/Log/ReadBack.antt =====
-- Reading through a chain of segments.
use proglog.Base.{
  ℕ, zero, suc, ◌+◌, ◌-◌, ◌<◌, ◌≡◌, refl, ap, sym, ◌∙◌, List, [], ◌∷◌, ◌++◌, some, none, arith,
  length, Bool-cases, inl, inr, ltb, get_elem?, get_elem?-append, get_elem?-append_right,
  get_elem?-none,
}
use proglog.Api.{Libs}
use proglog.Segment
use proglog.Segment.{Segment, Config}
use proglog.Segment.Layout.{Payload}
use proglog.Segment.Refine.{SameShape, read-payload}
use proglog.Log.{on_at, last_match}
use proglog.Log.Chain.{Link, Chain, HasRoom, SameShape-is_maxed, last_match_before}

-- The payload `k` of the chain is found and read.
pub record Found (libs : Libs) (c : Config) (first : ℕ) (ss : List Segment) (qs : List Payload)
    (k : ℕ) (p : Payload) : Type 0 where
  pub place : ℕ
  pub matched : last_match (first + k) ss ≡ some place
  pub result : (on_at place (Segment.read libs (first + k)) ss).0 ≡ libs.unmarshal p
  pub chain : Chain c first (on_at place (Segment.read libs (first + k)) ss).1 qs
  pub room : HasRoom ss → HasRoom (on_at place (Segment.read libs (first + k)) ss).1

module _ (libs : Libs) (c : Config) where
  read-Link :
      (first : ℕ) (s : Segment) (ps : List Payload) (k : ℕ) (p : Payload)
      → Link c first s ps
      → get_elem? ps k ≡ some p
      → ((Segment.read libs (first + k) s).0 ≡ libs.unmarshal p)
        × Link c first (Segment.read libs (first + k) s).1 ps
        × SameShape s (Segment.read libs (first + k) s).1
  read-Link first s ps k p l g =
      let r = read-payload libs s ps k (first + k) p l.holds g (omega (arith, l.base)) in
      (r.0, record { holds = r.1; base = r.2.base ∙ l.base; config = r.2.config ∙ l.config }, r.2)

  HasRoom-head :
      (s t : Segment) (ss : List Segment) → SameShape s t → HasRoom (s ∷ ss) → HasRoom (t ∷ ss)
  HasRoom-head s t [] h r = SameShape-is_maxed s t h ∙ r
  HasRoom-head s t (u ∷ ss) h r = r

  -- In the first segment.
  Found-here :
      (first : ℕ) (s : Segment) (ss : List Segment) (ps rest qs : List Payload) (k : ℕ)
      (p : Payload)
      → qs ≡ ps ++ rest
      → Link c first s ps
      → Chain c (first + length ps) ss rest
      → get_elem? ps k ≡ some p
      → k < length ps
      → Found libs c first (s ∷ ss) qs k p
  unfolding last_match on_at
  Found-here first s ss ps rest qs k p e l h g small =
      let r = read-Link first s ps k p l g in
      let later : last_match (first + k) ss ≡ none =
        last_match_before c (first + length ps) (first + k) ss rest h (omega arith) in
      record {
        place = 0;
        matched = ground (arith, later, l.base, l.holds.next);
        result = r.0;
        chain = (ps, rest, e, r.1, h);
        room = HasRoom-head s (Segment.read libs (first + k) s).1 ss r.2;
      }

  HasRoom-tail :
      (s : Segment) (ss ts : List Segment)
      → length ts ≡ length ss
      → (HasRoom ss → HasRoom ts)
      → HasRoom (s ∷ ss)
      → HasRoom (s ∷ ts)
  HasRoom-tail s [] [] n f r = r
  HasRoom-tail s [] (t ∷ ts) n f r = absurd (omega arith)
  HasRoom-tail s (u ∷ ss) [] n f r = absurd (omega arith)
  HasRoom-tail s (u ∷ ss) (t ∷ ts) n f r = f r

  length-on_at :
      (i : ℕ) (off : ℕ) (ss : List Segment)
      → length (on_at i (Segment.read libs off) ss).1 ≡ length ss
  unfolding on_at
  length-on_at i off [] = refl
  length-on_at zero off (s ∷ ss) = refl
  length-on_at (suc i) off (s ∷ ss) = ap suc (length-on_at i off ss)

  -- In a later segment.
  Found-later :
      (first : ℕ) (s : Segment) (ss : List Segment) (ps rest qs : List Payload) (j : ℕ)
      (p : Payload)
      → qs ≡ ps ++ rest
      → Link c first s ps
      → Found libs c (first + length ps) ss rest j p
      → Found libs c first (s ∷ ss) qs (length ps + j) p
  unfolding last_match on_at
  Found-later first s ss ps rest qs j p e l f =
      let off : first + length ps + j ≡ first + (length ps + j) = omega arith in
      let matched = rw off at f.matched in
      record {
        place = suc f.place;
        matched = rw matched;
        result = rw off at f.result;
        chain = (ps, rest, e, l, rw off at f.chain);
        room =
            HasRoom-tail s ss (on_at f.place (Segment.read libs (first + (length ps + j))) ss).1
              (length-on_at f.place (first + (length ps + j)) ss) (rw off at f.room);
      }

  -- Every payload of a chain is found, and read as it was written.
  pub found :
      (first : ℕ) (ss : List Segment) (qs : List Payload) (k : ℕ) (p : Payload)
      → Chain c first ss qs
      → get_elem? qs k ≡ some p
      → Found libs c first ss qs k p
  found first [] qs k p h g = cc (h, get_elem?-none {A = Payload} [] k (omega arith))
  found first (s ∷ ss) qs k p (ps, rest, e, l, h) g = elim (Bool-cases (ltb k (length ps))) [
    | inl lt ↦
        Found-here first s ss ps rest qs k p e l h
          (sym (get_elem?-append ps rest k (ground arith)) ∙ rw e at g) (ground arith)
    | inr ge ↦
        let split : length ps + (k - length ps) ≡ k = ground arith in
        rw split at (
          Found-later first s ss ps rest qs (k - length ps) p e l (
            found (first + length ps) ss rest (k - length ps) p h
              (sym (get_elem?-append_right ps rest k (k - length ps) (sym split)) ∙ rw e at g)))
  ]
