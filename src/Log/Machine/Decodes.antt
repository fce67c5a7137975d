-- ===== src/Log/Machine/Decodes.antt =====
-- The records that a log of internal/log/log.go holds, and the payloads that they are encoded in.
use proglog.Base.{
  ℕ, zero, suc, ◌<◌, ◌≡◌, refl, ap, List, [], ◌∷◌, ◌++◌, some, arith, length, get_elem?,
}
use proglog.Base.Exec.{ok}
use proglog.Api.{Record, Libs}
use proglog.Segment.Layout.{Payload}

-- The payloads are those of the records.
abbrev pub Decodes : Libs → List Payload → List Record → Type 0
Decodes libs [] [] = Unit {0}
Decodes libs (q ∷ qs) (r ∷ rs) = (libs.unmarshal q ≡ ok r) × Decodes libs qs rs
Decodes libs _ _ = ⊥

pub length-Decodes :
    (libs : Libs) (qs : List Payload) (rs : List Record)
    → Decodes libs qs rs
    → length qs ≡ length rs
length-Decodes libs [] [] h = refl
length-Decodes libs (q ∷ qs) (r ∷ rs) (_, h) = ap suc (length-Decodes libs qs rs h)
length-Decodes libs [] (r ∷ rs) h = absurd h
length-Decodes libs (q ∷ qs) [] h = absurd h

pub Decodes-snoc :
    (libs : Libs) (qs : List Payload) (rs : List Record) (q : Payload) (r : Record)
    → Decodes libs qs rs
    → libs.unmarshal q ≡ ok r
    → Decodes libs (qs ++ (q ∷ [])) (rs ++ (r ∷ []))
Decodes-snoc libs [] [] q r h e = (e, tt)
Decodes-snoc libs (x ∷ qs) (y ∷ rs) q r (e', h) e = (e', Decodes-snoc libs qs rs q r h e)
Decodes-snoc libs [] (y ∷ rs) q r h e = absurd h
Decodes-snoc libs (x ∷ qs) [] q r h e = absurd h

pub get-Decodes :
    (libs : Libs) (qs : List Payload) (rs : List Record) (k : ℕ)
    → Decodes libs qs rs
    → k < length rs
    → (q : Payload) × (r : Record) × (get_elem? qs k ≡ some q)
      × (get_elem? rs k ≡ some r)
      × (libs.unmarshal q ≡ ok r)
get-Decodes libs [] [] k h b = absurd (omega arith)
get-Decodes libs (q ∷ qs) (r ∷ rs) zero (e, h) b = (q, r, refl, refl, e)
get-Decodes libs (q ∷ qs) (r ∷ rs) (suc k) (e, h) b = get-Decodes libs qs rs k h (omega arith)
get-Decodes libs [] (r ∷ rs) k h b = absurd h
get-Decodes libs (q ∷ qs) [] k h b = absurd h

-- Records are dropped as their payloads are.
pub record Cut (libs : Libs) (front back : List Payload) (rs : List Record) : Type 0 where
  pub dropped : List Record
  pub left : List Record
  pub split : rs ≡ dropped ++ left
  pub size : length dropped ≡ length front
  pub decodes : Decodes libs back left

pub Decodes-Cut :
    (libs : Libs) (front back : List Payload) (rs : List Record)
    → Decodes libs (front ++ back) rs
    → Cut libs front back rs
Decodes-Cut libs [] back rs h = record {
  dropped = [];
  left = rs;
  split = refl;
  size = refl;
  decodes = h;
}
Decodes-Cut libs (p ∷ front) back [] h = absurd h
Decodes-Cut libs (p ∷ front) back (r ∷ rs) (_, h) =
    let c = Decodes-Cut libs front back rs h in
    record {
      dropped = r ∷ c.dropped;
      left = c.left;
      split = ap (λ t. r ∷ t) c.split;
      size = ap suc c.size;
      decodes = c.decodes;
    }
