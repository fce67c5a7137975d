-- ===== src/Distributed/LogStore.antt =====
-- logStore (internal/log/distributed.go): Raft keeps its log in a Log of its own.
use proglog.Base.{
  ℕ, zero, suc, ◌+◌, ◌%◌, ◌<◌, ◌^◌, ◌≡◌, refl, ◌∙◌, ap, List, [], ◌∷◌, ◌++◌, some, arith, length,
  get_elem?, length-append, append_assoc, append-nil, get_elem?-append_right,
}
use proglog.Base.Exec.{Result, ok, Exec, pure, ◌>>=◌, ◌>>◌}
use proglog.Api.{Record, Libs, Reliable, Fits}
use proglog.Segment.Layout.{Payload}
use proglog.Log
use proglog.Log.{Log}
use proglog.Log.Truncate.{truncate}
use proglog.Log.Refine.{Holds, append-Holds, read-Holds}

-- raft.Log; Data is `content`, and AppendedAt is a count of nanoseconds.
pub record RaftLog : Type 0 where
  pub content : List ℕ
  pub index : ℕ
  pub kind : ℕ
  pub term : ℕ
  pub extensions : List ℕ
  pub appended_at : ℕ

-- FirstIndex and LastIndex
unfoldable pub first_index : Log → Result ℕ
first_index = Log.lowest_offset

unfoldable pub last_index : Log → Result ℕ
last_index = Log.highest_offset

-- What GetLog writes into `out`; raft.LogType is a uint8.
abbrev pub to_entry : Record → RaftLog → RaftLog
to_entry r out = record out {
  content = r.value;
  index = r.offset;
  kind = r.kind % 2 ^ 8;
  term = r.term;
}

-- GetLog: the entry that `out` is then.
unfoldable pub get_log : Libs → ℕ → RaftLog → Exec Log RaftLog
get_log libs index out = do r ← Log.read libs index; pure (to_entry r out)

-- The record of an entry; its offset is Append's to set.
abbrev pub to_record : RaftLog → Record
to_record e = record { value = e.content; offset = 0; term = e.term; kind = e.kind }

-- StoreLogs; StoreLog is StoreLogs of one entry.
unfoldable pub store_logs : Libs → List RaftLog → Exec Log (Unit {0})
store_logs libs [] = pure tt
store_logs libs (e ∷ es) = do Log.append libs (some (to_record e)); store_logs libs es

-- DeleteRange
unfoldable pub delete_range : Libs → ℕ → ℕ → Exec Log (Unit {0})
delete_range libs min max = truncate libs max

-- The entries have consecutive indices from `next` on, and Marshal accepts each.
abbrev pub Storable : Libs → ℕ → List RaftLog → Type 0
Storable libs next [] = Unit {0}
Storable libs next (e ∷ es) =
    (e.index ≡ next)
    × Fits (record (to_record e) { offset = next })
    × ((p : Payload) × (libs.marshal (record (to_record e) { offset = next }) ≡ ok p)
        × (length p < 2 ^ 48))
    × (next + 1 < 2 ^ 63)
    × Storable libs (next + 1) es

-- The payloads that a StoreLogs has added, which decode to the entries.
pub record Stored (libs : Libs) (es : List RaftLog) (l' : Log) (first : ℕ) (qs : List Payload)
    : Type 0 where
  pub added : List Payload
  pub holds : Holds l' first (qs ++ added)
  pub count : length added ≡ length es
  pub decodes :
      (k : ℕ) (e : RaftLog)
      → get_elem? es k ≡ some e
      → (p : Payload) × (get_elem? added k ≡ some p)
        × (libs.unmarshal p ≡ ok (record (to_record e) { offset = e.index }))

decodes_next :
    (libs : Libs) (e : RaftLog) (es : List RaftLog) (p : Payload) (added : List Payload)
    → libs.unmarshal p ≡ ok (record (to_record e) { offset = e.index })
    → ((k : ℕ) (x : RaftLog)
        → get_elem? es k ≡ some x
        → (q : Payload) × (get_elem? added k ≡ some q)
          × (libs.unmarshal q ≡ ok (record (to_record x) { offset = x.index })))
    → (k : ℕ) (x : RaftLog) → get_elem? (e ∷ es) k ≡ some x
    → (q : Payload) × (get_elem? (p ∷ added) k ≡ some q)
      × (libs.unmarshal q ≡ ok (record (to_record x) { offset = x.index }))
decodes_next libs e es p added u f zero x g = let same : e ≡ x = cc in (p, refl, rw (← same) u)
decodes_next libs e es p added u f (suc k) x g = f k x g

index_at :
    (libs : Libs) (next : ℕ) (es : List RaftLog) (k : ℕ) (e : RaftLog)
    → Storable libs next es
    → get_elem? es k ≡ some e
    → e.index ≡ next + k
index_at libs next [] k e s g = absurd cc
index_at libs next (x ∷ es) zero e (at, fits, m, top, s) g =
    let same : x.index ≡ e.index = cc in omega (arith, at, same)
index_at libs next (x ∷ es) (suc k) e (at, fits, m, top, s) g =
    omega (arith, index_at libs (next + 1) es k e s g)

-- What comes back of an entry: all that the store keeps of it.
abbrev pub kept_of : RaftLog → RaftLog → RaftLog
kept_of e out = record e { extensions = out.extensions; appended_at = out.appended_at }

module _ (libs : Libs) (reliable : Reliable libs) where
  pub store_logs-Stored :
      (es : List RaftLog) (l : Log) (first : ℕ) (qs : List Payload)
      → Holds l first qs
      → Storable libs (first + length qs) es
      → ((store_logs libs es l).0 ≡ ok tt) × Stored libs es (store_logs libs es l).1 first qs
  unfolding store_logs
  store_logs-Stored [] l first qs h s = (
    refl,
    record { added = []; holds = rw append-nil h; count = refl; decodes = λ k e g. absurd cc },
  )
  store_logs-Stored (e ∷ es) l first qs h (at, fits, (p, m, small), top, s) =
      let (result, holds) = append-Holds libs reliable l first qs h (to_record e) p m small top in
      let count : first + length (qs ++ (p ∷ [])) ≡ first + length qs + 1 =
        omega (arith, length-append qs (p ∷ [])) in
      let (okay, rest) =
        store_logs-Stored es (Log.append libs (some (to_record e)) l).1 first (qs ++ (p ∷ [])) holds
          (rw count s) in
      rw result (
        okay,
        record {
          added = p ∷ rest.added;
          holds = rw append_assoc at rest.holds;
          count = ap suc rest.count;
          decodes =
              decodes_next libs e es p rest.added (rw at (reliable.unmarshal-marshal _ p fits m))
                rest.decodes;
        },
      )

  read_entry :
      (l : Log) (off : ℕ) (e out : RaftLog)
      → e.kind < 2 ^ 8
      → (Log.read libs off l).0 ≡ ok (record (to_record e) { offset = e.index })
      → (get_log libs off out l).0 ≡ ok (kept_of e out)
  unfolding get_log
  read_entry l off e out small h =
      let byte : e.kind % 2 ^ 8 ≡ e.kind = omega arith in ground (arith, h, byte)

  -- StoreLogs of entries that Marshal accepts, whose indices follow the last one, succeeds, and GetLog
  -- at the index of each of them, whose type is a byte, then writes its data, index, type and term
  -- into `out`. The extensions and the time of an entry are not stored: `out` keeps those it had.
  pub get_log-store_logs :
      (l : Log) (first : ℕ) (qs : List Payload) (es : List RaftLog) (k : ℕ) (e out : RaftLog)
      → Holds l first qs
      → Storable libs (first + length qs) es
      → get_elem? es k ≡ some e
      → e.kind < 2 ^ 8
      → ((store_logs libs es l).0 ≡ ok tt)
        × ((get_log libs e.index out (store_logs libs es l).1).0 ≡ ok (kept_of e out))
  get_log-store_logs l first qs es k e out h s g small =
      let (okay, f) = store_logs-Stored es l first qs h s in
      let (p, there, u) = f.decodes k e g in
      let at : e.index ≡ first + (length qs + k) =
        omega (arith, index_at libs (first + length qs) es k e s g) in
      let now =
        read-Holds libs (store_logs libs es l).1 first (qs ++ f.added) f.holds (length qs + k) p
          (get_elem?-append_right qs f.added (length qs + k) k refl ∙ there) in
      (
        okay,
        read_entry _ e.index e out small
            (ap (λ i. (Log.read libs i (store_logs libs es l).1).0) at ∙ now.0 ∙ u),
      )
