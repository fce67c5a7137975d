-- ===== src/Log/Grow.antt =====
-- Appending to the last segment of a chain.
use proglog.Base.{
  ℕ, suc, ◌+◌, ◌<◌, ◌^◌, ◌≡◌, refl, ap, sym, ◌∙◌, List, [], ◌∷◌, ◌++◌, some, arith, length,
  length-append, append_assoc, append-nil, false, Bool, All,
}
use proglog.Base.Exec.{ok, gets, Exec}
use proglog.Api.{Record, Libs}
use proglog.Index
use proglog.Segment
use proglog.Segment.{Segment, Config}
use proglog.Segment.Layout.{Payload, frames}
use proglog.Segment.Refine.{append-payload, append-mmap}
use proglog.Segment.Create.{IsSound}
use proglog.Log.{on_last}
use proglog.Log.Saved.{bases, IsMapped}
use proglog.Log.Chain.{Link, Chain, HasRoom}

-- What `append` of a payload to the last segment gives.
pub record Grown (libs : Libs) (c : Config) (first : ℕ) (ss : List Segment) (qs : List Payload)
    (r : Record) (p : Payload) : Type 0 where
  pub result : (on_last (Segment.append libs (some r)) ss).0 ≡ ok (first + length qs)
  pub chain : Chain c first (on_last (Segment.append libs (some r)) ss).1 (qs ++ (p ∷ []))
  pub same : bases (on_last (Segment.append libs (some r)) ss).1 ≡ bases ss
  pub mapped : All IsMapped ss → All IsMapped (on_last (Segment.append libs (some r)) ss).1

-- A segment that is not maxed out has room in the store and in the index.
room_of :
    (s : Segment)
    → Segment.is_maxed s ≡ false
    → (s.store.size < s.config.max_store_bytes) × (Index.is_maxed s.index ≡ false)
unfolding Segment.is_maxed
room_of s h = ground arith

module _ (libs : Libs) (c : Config) (sound : IsSound c) (r : Record) (p : Payload) (next : ℕ)
    (m : libs.marshal (record r { offset = next }) ≡ ok p) (small : length p < 2 ^ 48)
    (top : next + 1 < 2 ^ 63) where
  grow-Link :
      (first : ℕ) (s : Segment) (ps : List Payload)
      → Link c first s ps
      → Segment.is_maxed s ≡ false
      → next ≡ first + length ps
      → ((Segment.append libs (some r) s).0 ≡ ok next)
        × Link c first (Segment.append libs (some r) s).1 (ps ++ (p ∷ []))
        × ((Segment.append libs (some r) s).1.base_offset ≡ s.base_offset)
        × (IsMapped s → IsMapped (Segment.append libs (some r) s).1)
  grow-Link first s ps l room n =
      let at : s.next_offset ≡ next = omega (arith, l.base, l.holds.next) in
      let marshals = ap (λ o. libs.marshal (record r { offset = o })) at ∙ m in
      let bytes : length (frames ps) + (8 + length p) < 2 ^ 63 = omega (
        arith,
        (room_of s room).0,
        ap (λ (k : Config). k.max_store_bytes) l.config,
        sound.store_top,
        l.holds.store.sized,
      ) in
      let (result, holds, base, config) =
        append-payload libs s ps r p l.holds (room_of s room).1 marshals small bytes
          (omega arith) in
      (
        result ∙ ap ok at,
        record { holds = holds; base = base ∙ l.base; config = config ∙ l.config },
        base,
        λ k.
            append-mmap libs s ps r p l.holds (room_of s room).1 marshals small bytes (omega arith)
            ∙ k
            ∙ ap (λ (x : Config). x.max_index_bytes) (sym config),
      )

  pub grow :
      (first : ℕ) (ss : List Segment) (qs : List Payload)
      → Chain c first ss qs
      → HasRoom ss
      → next ≡ first + length qs
      → Grown libs c first ss qs r p
  unfolding on_last
  grow first [] qs h room n = absurd room
  grow first (s ∷ []) qs (ps, rest, e, l, h) room n =
      let n' : next ≡ first + length ps =
        omega (arith, ap length e, ap length h, length-append ps rest) in
      let (result, link, base, keeps) = grow-Link first s ps l room n' in
      record {
        result = result ∙ ap ok n;
        chain = (
          ps ++ (p ∷ []),
          [],
          ap (λ t. t ++ (p ∷ [])) (e ∙ ap (λ t. ps ++ t) h ∙ append-nil ps)
              ∙ sym (append-nil (ps ++ (p ∷ []))),
          link,
          refl,
        );
        same = ap (λ b. b ∷ []) base;
        mapped = λ k. (keeps k.0, tt);
      }
  grow first (s ∷ t ∷ ss) qs (ps, rest, e, l, h) room n =
      let n' : first + length ps + length rest ≡ first + length qs =
        omega (arith, ap length e, length-append ps rest) in
      let g = grow (first + length ps) (t ∷ ss) rest h room (n ∙ sym n') in
      record {
        result = g.result ∙ ap ok n';
        chain = (
          ps,
          rest ++ (p ∷ []),
          ap (λ t. t ++ (p ∷ [])) e ∙ append_assoc ps rest (p ∷ []),
          l,
          g.chain,
        );
        same = ap (λ bs. s.base_offset ∷ bs) g.same;
        mapped = λ k. (k.0, g.mapped k.1);
      }

-- Asking the last segment whether it is maxed out changes nothing, and `false` is room.
pub ask_last :
    (ss : List Segment)
    → 0 < length ss
    → (b : Bool) × (on_last (gets Segment.is_maxed) ss ≡ (ok b, ss)) × (b ≡ false → HasRoom ss)
unfolding on_last
ask_last [] n = absurd (omega arith)
ask_last (s ∷ []) n = (Segment.is_maxed s, refl, λ e. e)
ask_last (s ∷ t ∷ ss) n = let (b, e, f) = ask_last (t ∷ ss) (omega arith) in (b, rw e, f)

pub length-on_last {ℓ} :
    {A : Type ℓ} (m : Exec Segment A) (ss : List Segment) → length (on_last m ss).1 ≡ length ss
unfolding on_last
length-on_last m [] = refl
length-on_last m (s ∷ []) = refl
length-on_last m (s ∷ t ∷ ss) = ap suc (length-on_last m (t ∷ ss))

pub HasRoom-length : (ss : List Segment) → HasRoom ss → 0 < length ss
HasRoom-length [] h = absurd h
HasRoom-length (s ∷ ss) h = omega arith
