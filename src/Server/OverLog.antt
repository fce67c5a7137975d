-- ===== src/Server/OverLog.antt =====
-- internal/log's Log as the server's CommitLog.
use proglog.Base.{
  ℕ, ◌+◌, ◌<◌, ◌≡◌, ap, sym, ◌∙◌, List, ◌++◌, Option, none, some, arith, length, get_elem?,
  get_elem?_total, get_elem?-append, inl, inr, ◌⊎◌,
}
use proglog.Base.Exec.{Result, ok, err, Exec, offset_out_of_range}
use proglog.Api.{Record, Libs, Server}
use proglog.Auth.{Enforce, authorize}
use proglog.Log
use proglog.Log.{Log}
use proglog.Log.Bounds.{place}
use proglog.Log.Refine
use proglog.Log.Refine.{read-Holds, read_out_of_range}
use proglog.Segment.Layout.{Payload}
use proglog.Server.{Config}
use proglog.Server.Stream.{Readable}

module _ (libs : Libs) where
  -- The server with a Log and the casbin authorizer; `servers` stands in for the cluster.
  abbrev pub over_log : Enforce → Exec Log (List Server) → Config
  over_log enforce servers = record {
    Log = Log;
    append = Log.append libs;
    read = Log.read libs;
    authorize = authorize enforce;
    get_servers = servers;
  }

  -- A log in its invariant whose payloads are all marshalled records.
  pub record IsReadable (l : Log) : Type 0 where
    pub first : ℕ
    pub payloads : List Payload
    pub holds : Log.Refine.Holds l first payloads
    pub decodes :
        (k : ℕ) (p : Payload)
        → get_elem? payloads k ≡ some p
        → (r : Record) × (libs.unmarshal p ≡ ok r)

  abbrev pub value_of : Result Record → Option Record
  value_of (ok r) = some r
  value_of (err e) = none

  unfoldable pub record_at : Log → ℕ → Option Record
  record_at l off = value_of (Log.read libs off l).0

  -- Two logs with the same payloads show the same records.
  pub record_at-Holds :
      (l m : Log) (first : ℕ) (qs : List Payload) (off : ℕ)
      → Log.Refine.Holds l first qs
      → Log.Refine.Holds m first qs
      → record_at l off ≡ record_at m off
  unfolding record_at
  record_at-Holds l m first qs off h k = elim (place first (length qs) off) [
    | inl (i, b, e) ↦
        let (p, g) = get_elem?_total qs i b in
        rw e (
          ap value_of
            ((read-Holds libs l first qs h i p g).0 ∙ sym (read-Holds libs m first qs k i p g).0))
    | inr out ↦
        rw
          (read_out_of_range libs l first qs h off out, read_out_of_range libs m first qs k off out)
  ]

  -- A log that has further records behind those of another shows the same below their offsets, and the
  -- other shows nothing from there on.
  pub record_at-ahead :
      (l m : Log) (first : ℕ) (qs more : List Payload) (off : ℕ)
      → Log.Refine.Holds l first (qs ++ more)
      → Log.Refine.Holds m first qs
      → (record_at m off ≡ none) ⊎ ((off < first + length qs) × (record_at m off ≡ record_at l off))
  unfolding record_at
  record_at-ahead l m first qs more off h k = elim (place first (length qs) off) [
    | inl (i, b, e) ↦
        let (p, g) = get_elem?_total qs i b in
        let shown = ap value_of (
          (read-Holds libs m first qs k i p g).0
          ∙ sym
              (read-Holds libs l first (qs ++ more) h i p (get_elem?-append qs more i b ∙ g)).0) in
        inr (omega arith, rw e shown)
    | inr out ↦ inl (
        ap (λ (x : Result Record × Log). value_of x.0)
          (read_out_of_range libs m first qs k off out))
  ]

  pub read-IsReadable-holds :
      (l : Log) (off : ℕ) (h : IsReadable l)
      → Log.Refine.Holds (Log.read libs off l).1 h.first h.payloads
  read-IsReadable-holds l off h = elim (place h.first (length h.payloads) off) [
    | inl (i, b, e) ↦
        let (p, g) = get_elem?_total h.payloads i b in
        rw e (read-Holds libs l h.first h.payloads h.holds i p g).1
    | inr out ↦ rw (read_out_of_range libs l h.first h.payloads h.holds off out) h.holds
  ]

  some-value : (r : Result Record) (x : Record) → value_of r ≡ some x → r ≡ ok x
  some-value (ok a) x e = cc
  some-value (err a) x e = cc

  pub found_read :
      (l : Log) (off : ℕ) (r : Record) → record_at l off ≡ some r → (Log.read libs off l).0 ≡ ok r
  unfolding record_at
  found_read l off r e = some-value (Log.read libs off l).0 r e

  pub missing_read :
      (l : Log) (off : ℕ)
      → IsReadable l
      → record_at l off ≡ none
      → (Log.read libs off l).0 ≡ err (offset_out_of_range off)
  unfolding record_at
  missing_read l off h e = elim (place h.first (length h.payloads) off) [
    | inl (i, b, o) ↦
        let (p, g) = get_elem?_total h.payloads i b in
        let (r, u) = h.decodes i p g in
        let shown : (Log.read libs off l).0 ≡ ok r =
          rw o ((read-Holds libs l h.first h.payloads h.holds i p g).0 ∙ u) in
        cc (ap value_of shown)
    | inr out ↦
        ap (λ (t : Result Record × Log). t.0)
          (read_out_of_range libs l h.first h.payloads h.holds off out)
  ]

  module _ (enforce : Enforce) (servers : Exec Log (List Server)) where
    -- The log of internal/log keeps the promises of the CommitLog interface: Read returns the record
    -- at an offset or ErrOffsetOutOfRange, and changes no record.
    abbrev pub log_readable : Readable (over_log enforce servers)
    log_readable = record {
      IsValid = IsReadable;
      view = record_at;
      read_found = λ l off r h e. found_read l off r e;
      read_missing = missing_read;
      read_keeps = λ l off h. record {
        first = h.first;
        payloads = h.payloads;
        holds = read-IsReadable-holds l off h;
        decodes = h.decodes;
      };
      read_views = λ l off o h.
          record_at-Holds (Log.read libs off l).1 l h.first h.payloads o
            (read-IsReadable-holds l off h) h.holds;
    }
