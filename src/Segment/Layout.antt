-- ===== src/Segment/Layout.antt =====
-- How the payloads of a segment lie in its store and its index.
use proglog.Base.{
  ℕ, suc, ◌+◌, ◌≡◌, refl, ap, ◌∙◌, List, [], ◌∷◌, ◌++◌, some, arith, length, length-append,
  append_assoc, append-nil, get_elem?, All,
}
use proglog.Store.Refine.{frame}
use proglog.Index.Entries.{Entry}

abbrev pub Payload : Type 0
Payload = List ℕ

unfoldable pub frames : List Payload → List ℕ
frames [] = []
frames (p ∷ ps) = frame p ++ frames ps

-- The entry of the first payload is (off, pos).
unfoldable pub entries : ℕ → ℕ → List Payload → List Entry
entries off pos [] = []
entries off pos (p ∷ ps) = (off, pos) ∷ entries (suc off) (pos + length (frame p)) ps

pub frames-append : (ps qs : List Payload) → frames (ps ++ qs) ≡ frames ps ++ frames qs
unfolding frames
frames-append [] qs = refl
frames-append (p ∷ ps) qs = ap (λ t. frame p ++ t) (frames-append ps qs) ∙ simp append_assoc

pub frames_one : (p : Payload) → frames (p ∷ []) ≡ frame p
unfolding frames
frames_one p = append-nil (frame p)

pub frames_snoc : (ps : List Payload) (p : Payload) → frames (ps ++ (p ∷ [])) ≡ frames ps ++ frame p
frames_snoc ps p = frames-append ps (p ∷ []) ∙ ap (λ t. frames ps ++ t) (frames_one p)

-- The bytes around one payload.
pub frames_middle :
    (front : List Payload) (p : Payload) (back : List Payload)
    → frames (front ++ (p ∷ back)) ≡ frames front ++ (frame p ++ frames back)
unfolding frames
frames_middle front p back = frames-append front (p ∷ back)

pub entries_snoc :
    (ps : List Payload) (p : Payload) (off pos : ℕ)
    → entries off pos (ps ++ (p ∷ []))
      ≡ entries off pos ps ++ ((off + length ps, pos + length (frames ps)) ∷ [])
unfolding entries frames
entries_snoc [] p off pos =
    let a : off ≡ off + 0 = omega arith in let b : pos ≡ pos + 0 = omega arith in cc
entries_snoc (q ∷ ps) p off pos =
    let a : suc off + length ps ≡ off + suc (length ps) = omega arith in
    let b : pos + length (frame q) + length (frames ps) ≡ pos + length (frame q ++ frames ps) =
      omega (arith, length-append (frame q) (frames ps)) in
    cc (entries_snoc ps p (suc off) (pos + length (frame q)))

pub length-entries : (ps : List Payload) (off pos : ℕ) → length (entries off pos ps) ≡ length ps
unfolding entries
length-entries [] off pos = refl
length-entries (p ∷ ps) off pos = ap suc (length-entries ps (suc off) (pos + length (frame p)))

-- The entry behind some payloads has their number and their bytes' length.
pub entries-get :
    (front : List Payload) (p : Payload) (back : List Payload) (off pos : ℕ)
    → get_elem? (entries off pos (front ++ (p ∷ back))) (length front)
      ≡ some (off + length front, pos + length (frames front))
unfolding entries frames
entries-get [] p back off pos =
    let a : off ≡ off + 0 = omega arith in let b : pos ≡ pos + 0 = omega arith in cc
entries-get (q ∷ front) p back off pos =
    let a : suc off + length front ≡ off + suc (length front) = omega arith in
    let b : pos + length (frame q) + length (frames front)
        ≡ pos + length (frame q ++ frames front) =
      omega (arith, length-append (frame q) (frames front)) in
    cc (entries-get front p back (suc off) (pos + length (frame q)))

pub All_snoc {ℓ κ} :
    {A : Type ℓ} (P : A → Type κ) (xs : List A) (x : A) → All P xs → P x → All P (xs ++ (x ∷ []))
All_snoc P [] x h k = (k, tt)
All_snoc P (y ∷ xs) x h k = (h.0, All_snoc P xs x h.1 k)

pub All_middle {ℓ κ} :
    {A : Type ℓ} (P : A → Type κ) (front : List A) (x : A) (back : List A)
    → All P (front ++ (x ∷ back))
    → P x
All_middle P [] x back h = h.0
All_middle P (y ∷ front) x back h = All_middle P front x back h.1
