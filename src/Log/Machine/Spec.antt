-- ===== src/Log/Machine/Spec.antt =====
-- What a log promises: a list of records, each at its offset.
use proglog.Base.{ℕ, ◌+◌, ◌-◌, ◌<◌, ◌≤◌, ◌≡◌, List, [], ◌∷◌, ◌++◌, some, length, get_elem?, ◌⊎◌}
use proglog.Base.Exec.{ok, err, offset_out_of_range}
use proglog.Api.{Record}
use proglog.Log.Machine.{
  Call, appends, reads, truncates, lowest, highest, restarts, Answer, offset, found, done,
}

-- The records, and the offset of the first of them.
pub record View : Type 0 where
  pub first : ℕ
  pub records : List Record

abbrev pub next : View → ℕ
next v = v.first + length v.records

-- A call, its answer, and the view behind it. Truncate may keep records at or below its offset, and
-- drops none above it; all else is determined.
pub data Move : View → Call → Answer → View → Type 0 where
  appended :
      (v : View) (r : Record)
      → Move v
          (appends r)
          (offset (ok (next v)))
          (record v { records = v.records ++ (record r { offset = next v } ∷ []) })
  there :
      (v : View) (off k : ℕ) (r : Record)
      → off ≡ v.first + k
      → get_elem? v.records k ≡ some r
      → Move v (reads off) (found (ok r)) v
  outside :
      (v : View) (off : ℕ)
      → (off < v.first) ⊎ (next v ≤ off)
      → Move v (reads off) (found (err (offset_out_of_range off))) v
  truncated :
      (v : View) (low : ℕ) (dropped left : List Record)
      → v.records ≡ dropped ++ left
      → (v.first + length dropped ≤ low + 1) ⊎ (dropped ≡ [])
      → Move v
          (truncates low)
          (done (ok tt))
          (record { first = v.first + length dropped; records = left })
  at_lowest : (v : View) → Move v lowest (offset (ok v.first)) v
  at_highest : (v : View) → Move v highest (offset (ok (next v - 1))) v
  again : (v : View) → Move v restarts (done (ok tt)) v

pub data Moves : View → List Call → List Answer → View → Type 0 where
  stop : (v : View) → Moves v [] [] v
  go :
      (v w x : View) (c : Call) (a : Answer) (cs : List Call) (as' : List Answer)
      → Move v c a w
      → Moves w cs as' x
      → Moves v (c ∷ cs) (a ∷ as') x
