-- ===== src/Log/Machine/Refines.antt =====
-- Each call of the log of internal/log/log.go does what the log promises.
use proglog.Base.{
  ℕ, ◌+◌, ◌-◌, ◌<◌, ◌≤◌, ◌^◌, ◌≡◌, refl, ap, ◌∙◌, List, [], ◌∷◌, ◌++◌, arith, length, length-append,
  ◌⊎◌, inl, inr, ltb, ltb→lt, Bool-cases,
}
use proglog.Base.Exec.{ok}
use proglog.Api.{Record, Libs, Reliable, Fits}
use proglog.Segment.Layout.{Payload}
use proglog.Log
use proglog.Log.{Log, default_bytes}
use proglog.Log.Refine.{Holds, append-Holds, read-Holds, read_out_of_range}
use proglog.Log.Refine.Files.{append-Stored}
use proglog.Log.Stored.{Stored}
use proglog.Log.Bounds.{lowest-highest}
use proglog.Log.Restart.{new_log-close}
use proglog.Log.Truncate.Stored.{truncate-above}
use proglog.Log.Machine.{
  Call, appends, reads, truncates, lowest, highest, restarts, Answer, restart, step,
}
use proglog.Log.Machine.Spec.{View, next, Move, appended, there, outside, truncated, again}
use proglog.Log.Machine.Reads.{read-Stored}
use proglog.Log.Machine.Decodes.{Decodes, length-Decodes, Decodes-snoc, get-Decodes, Decodes-Cut}

-- The log is in its invariant, has its files in the directory, and shows these records.
pub record Shows (libs : Libs) (l : Log) (v : View) : Type 0 where
  pub payloads : List Payload
  pub holds : Holds l v.first payloads
  pub stored : Stored l
  pub decodes : Decodes libs payloads v.records

-- The records that are appended behind `n` are such that Marshal accepts them, and Truncate is called
-- below the last offset only.
abbrev pub Allowed : Libs → ℕ → List Call → Type 0
Allowed libs n [] = Unit {0}
Allowed libs n (appends r ∷ cs) =
    ((p : Payload) × (libs.marshal (record r { offset = n }) ≡ ok p) × (length p < 2 ^ 48))
    × Fits (record r { offset = n })
    × (n + 1 < 2 ^ 63)
    × Allowed libs (n + 1) cs
Allowed libs n (truncates low ∷ cs) = (low + 1 < n) × (n < 2 ^ 63) × Allowed libs n cs
Allowed libs n (reads off ∷ cs) = Allowed libs n cs
Allowed libs n (lowest ∷ cs) = Allowed libs n cs
Allowed libs n (highest ∷ cs) = Allowed libs n cs
Allowed libs n (restarts ∷ cs) = Allowed libs n cs

-- One call does what the promise allows.
pub record Kept (libs : Libs) (v : View) (c : Call) (out : Answer × Log) (n : ℕ) : Type 0 where
  pub view : View
  pub move : Move v c out.0 view
  pub shows : Shows libs out.1 view
  pub count : next view ≡ n

module _ (libs : Libs) (reliable : Reliable libs) (l : Log) (v : View) (s : Shows libs l v) where
  size : length s.payloads ≡ length v.records
  size = length-Decodes libs s.payloads v.records s.decodes

  pub append-Kept :
      (r : Record) (p : Payload)
      → libs.marshal (record r { offset = next v }) ≡ ok p
      → length p < 2 ^ 48
      → Fits (record r { offset = next v })
      → next v + 1 < 2 ^ 63
      → Kept libs v (appends r) (step libs (appends r) l) (next v + 1)
  unfolding step
  append-Kept r p m small fits top =
      let at : v.first + length s.payloads ≡ next v = omega (arith, size) in
      let marshals : libs.marshal (record r { offset = v.first + length s.payloads }) ≡ ok p =
        rw at m in
      let top' : v.first + length s.payloads + 1 < 2 ^ 63 = omega (arith, size) in
      let (result, holds) =
        append-Holds libs reliable l v.first s.payloads s.holds r p marshals small top' in
      let stored =
        append-Stored libs reliable l v.first s.payloads s.holds r p marshals small top' s.stored in
      rw (result ∙ ap ok at) (record {
        view = record v { records = v.records ++ (record r { offset = next v } ∷ []) };
        move = appended v r;
        shows = record {
          payloads = s.payloads ++ (p ∷ []);
          holds = holds;
          stored = stored;
          decodes =
              Decodes-snoc libs s.payloads v.records p (record r { offset = next v }) s.decodes
                (reliable.unmarshal-marshal _ p fits m);
        };
        count = omega (arith, length-append v.records (record r { offset = next v } ∷ []));
      })

  inside :
      (k : ℕ)
      → k < length v.records
      → Kept libs v (reads (v.first + k)) (step libs (reads (v.first + k)) l) (next v)
  unfolding step
  inside k b =
      let (q, r, at, got, e) = get-Decodes libs s.payloads v.records k s.decodes b in
      let (result, holds) = read-Holds libs l v.first s.payloads s.holds k q at in
      rw (result ∙ e) (record {
        view = v;
        move = there v (v.first + k) k r refl got;
        shows = record {
          payloads = s.payloads;
          holds = holds;
          stored = read-Stored libs (v.first + k) l s.stored;
          decodes = s.decodes;
        };
        count = refl;
      })

  beside :
      (off : ℕ)
      → (off < v.first) ⊎ (next v ≤ off)
      → Kept libs v (reads off) (step libs (reads off) l) (next v)
  unfolding step
  beside off b =
      let missed =
        read_out_of_range libs l v.first s.payloads s.holds off
          (elim b [ inl x ↦ inl x | inr x ↦ inr (omega (arith, size)) ]) in
      rw missed (record { view = v; move = outside v off b; shows = s; count = refl })

  pub read-Kept : (off : ℕ) → Kept libs v (reads off) (step libs (reads off) l) (next v)
  read-Kept off = elim (Bool-cases (ltb off v.first)) [
    | inl b ↦ beside off (inl (ltb→lt _ _ b))
    | inr b ↦ elim (Bool-cases (ltb off (next v))) [
      | inl c ↦
          let at : v.first + (off - v.first) ≡ off = ground (arith, b) in
          rw at at (inside (off - v.first) (ground (arith, b, c)))
      | inr c ↦ beside off (inr (ground (arith, c)))
    ]
  ]

  pub truncate-Kept :
      (low : ℕ)
      → low + 1 < next v
      → next v < 2 ^ 63
      → Kept libs v (truncates low) (step libs (truncates low) l) (next v)
  unfolding step
  truncate-Kept low b top =
      let (okay, t, stored) =
        truncate-above libs reliable l v.first low s.payloads s.holds s.stored (omega arith)
          (omega (arith, size)) in
      let c = Decodes-Cut libs t.dropped t.left v.records (rw t.split at s.decodes) in
      let at : v.first + length t.dropped ≡ v.first + length c.dropped = omega (arith, c.size) in
      rw okay (record {
        view = record { first = v.first + length c.dropped; records = c.left };
        move = truncated v low c.dropped c.left c.split (elim t.low [
          | inl x ↦ inl (omega (arith, c.size))
          | inr x ↦ inr (empty c.dropped (c.size ∙ ap length x))
        ]);
        shows = record {
          payloads = t.left;
          holds = rw at at t.holds;
          stored = stored;
          decodes = c.decodes;
        };
        count = omega (arith, ap length c.split, length-append c.dropped c.left);
      })
    where
      empty : (xs : List Record) → length xs ≡ 0 → xs ≡ []
      empty [] h = refl
      empty (x ∷ xs) h = absurd (omega arith)

  pub bounds : (Log.lowest_offset l ≡ ok v.first) × (Log.highest_offset l ≡ ok (next v - 1))
  bounds =
      let (low, high) = lowest-highest l v.first s.payloads s.holds in
      (low, high ∙ ap (λ n. ok (v.first + n - 1)) size)

  pub restart-Kept : Kept libs v restarts (step libs restarts l) (next v)
  unfolding step restart
  restart-Kept =
      let (shut, opened, holds, stored) =
        new_log-close libs reliable l v.first s.payloads s.holds s.stored in
      rw (shut, opened)
        (record {
          view = v;
          move = again v;
          shows = record {
            payloads = s.payloads;
            holds = holds;
            stored = stored;
            decodes = s.decodes;
          };
          count = refl;
        })
