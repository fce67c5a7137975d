-- ===== src/Log/AtEnd.antt =====
-- The files of the stores of a log that only Append has written to stand at their ends.
use proglog.Base.{
  ℕ, ◌≡◌, refl, List, [], ◌∷◌, Option, none, some, All, arith, length, ◌⊎◌, inl, inr,
}
use proglog.Base.Exec.{Error, Result, ok, err}
use proglog.Api.{Record, Libs}
use proglog.Bytes.{put_uint64}
use proglog.Io
use proglog.Io.Position.{IsAtEnd, write-IsAtEnd}
use proglog.Store
use proglog.Store.{Store}
use proglog.Segment
use proglog.Segment.{Segment}
use proglog.Log.{on_last}

abbrev pub AllAtEnd : List Segment → Type 0
AllAtEnd = All (λ (s : Segment). IsAtEnd s.store.buf.file)

append-IsAtEnd :
    (p : List ℕ) (s : Store) → IsAtEnd s.buf.file → IsAtEnd (Store.append p s).1.buf.file
unfolding Store.append
append-IsAtEnd p s h =
    let first = write-IsAtEnd (put_uint64 (length p)) s.buf h in
    ground (arith, first, write-IsAtEnd p (Io.write (put_uint64 (length p)) s.buf).1 first)

segment-IsAtEnd :
    (libs : Libs) (r : Option Record) (s : Segment)
    → IsAtEnd s.store.buf.file
    → IsAtEnd (Segment.append libs r s).1.store.buf.file
unfolding Segment.append
segment-IsAtEnd libs none s h = h
segment-IsAtEnd libs (some r) s h =
    elim (marshalled (libs.marshal (record r { offset = s.next_offset }))) [
      | inl (e, m) ↦ rw m h
      | inr (p, m) ↦ ground (arith, m, append-IsAtEnd p s.store h)
    ]
  where
    marshalled : (x : Result (List ℕ)) → ((e : Error) × (x ≡ err e)) ⊎ ((b : List ℕ) × (x ≡ ok b))
    marshalled (ok b) = inr (b, refl)
    marshalled (err e) = inl (e, refl)

pub on_last-AllAtEnd :
    (libs : Libs) (r : Option Record) (ss : List Segment)
    → AllAtEnd ss
    → AllAtEnd (on_last (Segment.append libs r) ss).1
unfolding on_last
on_last-AllAtEnd libs r [] h = tt
on_last-AllAtEnd libs r (s ∷ []) (h, _) = (segment-IsAtEnd libs r s h, tt)
on_last-AllAtEnd libs r (s ∷ t ∷ ss) (h, hs) = (h, on_last-AllAtEnd libs r (t ∷ ss) hs)
