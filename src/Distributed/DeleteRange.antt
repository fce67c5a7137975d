-- ===== src/Distributed/DeleteRange.antt =====
-- DeleteRange of Raft's log store (internal/log/distributed.go), which is Truncate of its log.
use proglog.Base.{
  ℕ, ◌+◌, ◌-◌, ◌<◌, ◌≤◌, ◌^◌, ◌≡◌, refl, ap, sym, ◌∙◌, List, [], arith, length, length-append, some,
  get_elem?, get_elem?_total, get_elem?-append_right, ◌⊎◌, inl, inr,
}
use proglog.Base.Exec.{ok, err, panic, offset_out_of_range}
use proglog.Api.{Libs, Reliable}
use proglog.Segment.Layout.{Payload}
use proglog.Log.{Log, read, last_match}
use proglog.Log.Refine.{Holds, read-Holds, read_out_of_range}
use proglog.Log.Bounds.{place, lowest-highest}
use proglog.Log.Stored.{Stored}
use proglog.Log.Truncate.{truncate}
use proglog.Log.Truncated.{Truncated}
use proglog.Log.Truncate.Stored.{truncate-above, truncate-all}
use proglog.Distributed.LogStore.{RaftLog, get_log, first_index, last_index, delete_range}

read-empty :
    (libs : Libs) (l : Log) (off : ℕ)
    → l.segments ≡ []
    → (read libs off l).0 ≡ err (offset_out_of_range off)
unfolding read last_match
read-empty libs l off e = rw e refl

get_log-read :
    (libs : Libs) (off : ℕ) (out : RaftLog) (l m : Log)
    → (read libs off l).0 ≡ (read libs off m).0
    → (get_log libs off out l).0 ≡ (get_log libs off out m).0
unfolding get_log
get_log-read libs off out l m e = ground (arith, e)

get_log-err :
    (libs : Libs) (off : ℕ) (out : RaftLog) (l : Log)
    → (read libs off l).0 ≡ err (offset_out_of_range off)
    → (get_log libs off out l).0 ≡ err (offset_out_of_range off)
unfolding get_log
get_log-err libs off out l e = ground (arith, e)

module _ (libs : Libs) (reliable : Reliable libs) (l : Log) (first min max : ℕ) (qs : List Payload)
    (h : Holds l first qs) (stored : Stored l) (small : max + 1 < 2 ^ 64) where
  read-Truncated :
      (m : Log) (index : ℕ)
      → max < index
      → (t : Truncated max first qs l m) → (read libs index m).0 ≡ (read libs index l).0
  read-Truncated m index b t =
      let count : length qs ≡ length t.dropped + length t.left =
        omega (arith, ap length t.split, length-append t.dropped t.left) in
      let start : (first + length t.dropped ≤ index) ⊎ (length t.dropped ≡ 0) = elim t.low [
        | inl x ↦ inl (omega arith)
        | inr x ↦ inr (ap length x)
      ] in
      elim (place (first + length t.dropped) (length t.left) index) [
        | inl (k, c, e) ↦
            let (p, g) = get_elem?_total t.left k c in
            let at : index ≡ first + (length t.dropped + k) = omega arith in
            let g' : get_elem? qs (length t.dropped + k) ≡ some p =
              rw t.split
                (get_elem?-append_right t.dropped t.left (length t.dropped + k) k refl ∙ g) in
            let now = (read-Holds libs m (first + length t.dropped) t.left t.holds k p g).0 in
            let then = (read-Holds libs l first qs h (length t.dropped + k) p g').0 in
            ap (λ i. (read libs i m).0) e ∙ now ∙ sym then ∙ ap (λ i. (read libs i l).0) (sym at)
        | inr out ↦
            let gone =
              read_out_of_range libs m (first + length t.dropped) t.left t.holds index out in
            let missed = read_out_of_range libs l first qs h index (elim out [
              | inl x ↦ inl (elim start [ inl y ↦ absurd (omega arith) | inr y ↦ omega arith ])
              | inr x ↦ inr (omega arith)
            ]) in
            rw (gone, missed) refl
      ]

  -- DeleteRange up to an index below the last one, on a log in its invariant with its files in the
  -- directory, succeeds, and is invisible above that index: GetLog there answers as before, and so
  -- does LastIndex. FirstIndex is at most one above that index, or as before. The lower end of the
  -- range is of no account.
  pub get_log-delete_range :
      (index : ℕ) (out : RaftLog)
      → max + 1 < first + length qs
      → max < index
      → ((delete_range libs min max l).0 ≡ ok tt)
        × ((get_log libs index out (delete_range libs min max l).1).0
            ≡ (get_log libs index out l).0)
        × (last_index (delete_range libs min max l).1 ≡ last_index l)
        × ((low : ℕ) × (first_index (delete_range libs min max l).1 ≡ ok low)
            × ((low ≤ max + 1) ⊎ (low ≡ first)))
  unfolding delete_range first_index last_index
  get_log-delete_range index out b c =
      let (okay, t, _) = truncate-above libs reliable l first max qs h stored small b in
      let m = (truncate libs max l).1 in
      let count : first + length qs ≡ first + length t.dropped + length t.left =
        omega (arith, ap length t.split, length-append t.dropped t.left) in
      let (low, high) = lowest-highest m (first + length t.dropped) t.left t.holds in
      (
        okay,
        get_log-read libs index out m l (read-Truncated m index c t),
        high ∙ ap (λ n. ok (n - 1)) (sym count) ∙ sym (lowest-highest l first qs h).1,
        (
          first + length t.dropped,
          low,
          elim t.low [ inl x ↦ inl x | inr x ↦ inr (omega (arith, ap length x)) ],
        ),
      )

  -- DeleteRange up to the last index or one above it that is below 2 ^ 64 - 1, from whatever index
  -- on, on a log in its invariant with its files in the directory, succeeds and leaves no entry at
  -- all, also none below the range: GetLog fails at every index, and FirstIndex and LastIndex
  -- panic.
  pub get_log-delete_range_all :
      (index : ℕ) (out : RaftLog)
      → first + length qs ≤ max + 1
      → ((delete_range libs min max l).0 ≡ ok tt)
        × ((get_log libs index out (delete_range libs min max l).1).0
            ≡ err (offset_out_of_range index))
        × (first_index (delete_range libs min max l).1 ≡ err panic)
        × (last_index (delete_range libs min max l).1 ≡ err panic)
  unfolding delete_range first_index last_index
  get_log-delete_range_all index out b =
      let (okay, empty, _, low, high) =
        truncate-all libs reliable l first max qs h stored small b in
      (okay, get_log-err libs index out _ (read-empty libs _ index empty), low, high)
