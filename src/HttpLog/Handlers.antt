-- ===== src/HttpLog/Handlers.antt =====
-- What a client of the HTTP server sees.
use proglog.Base.{
  ℕ, zero, suc, ◌+◌, ◌≤◌, ◌<◌, ◌^◌, ◌≡◌, List, [], ◌∷◌, ◌++◌, some, Bool, true, arith, length,
  length-append, get_elem?, get_elem?-append, get_elem?-append_right, get_elem?_total, ◌⊎◌, inl,
  inr, Bool-cases, ltb, ltb→lt, ◌%◌, lt_trichotomy, ◌==◌, if◌then◌else◌,
}
use proglog.HttpLog.{Record, Log, append, read, body, http_error, handle_produce, handle_consume}

-- The records have the offsets from `k` on, one after the other.
abbrev NumberedFrom : ℕ → List Record → Type 0
NumberedFrom k [] = Unit {0}
NumberedFrom k (r ∷ rs) = (r.offset ≡ k) × NumberedFrom (suc k) rs

-- Every record's offset is its place, and the slice's length is a uint64.
pub record IsNumbered (c : Log) : Type 0 where
  pub offsets : NumberedFrom 0 c.records
  pub fits : length c.records < 2 ^ 63

NumberedFrom-snoc :
    (k : ℕ) (rs : List Record) (r : Record)
    → NumberedFrom k rs
    → r.offset ≡ k + length rs
    → NumberedFrom k (rs ++ (r ∷ []))
NumberedFrom-snoc k [] r h e = (omega arith, tt)
NumberedFrom-snoc k (s ∷ rs) r h e = (h.0, NumberedFrom-snoc (suc k) rs r h.1 (omega arith))

NumberedFrom-get :
    (k : ℕ) (rs : List Record) (n : ℕ) (r : Record)
    → NumberedFrom k rs
    → get_elem? rs n ≡ some r
    → r.offset ≡ k + n
NumberedFrom-get k [] n r h g = cc
NumberedFrom-get k (s ∷ rs) zero r h g = ground (arith, h.0)
NumberedFrom-get k (s ∷ rs) (suc n) r h g = omega (arith, NumberedFrom-get (suc k) rs n r h.1 g)

-- Producing records keeps every record's offset equal to its place, as long as there are fewer
-- than 2 ^ 63.
handle_produce-IsNumbered :
    (c : Log) (r : Record) (encodes : Bool)
    → IsNumbered c
    → length c.records + 1 < 2 ^ 63
    → IsNumbered (handle_produce (some r) encodes c).1
unfolding handle_produce append
handle_produce-IsNumbered c r encodes h fits = record {
  offsets = NumberedFrom-snoc 0 c.records _ h.offsets (omega (arith, h.fits));
  fits =
      omega (
        arith,
        fits,
        length-append c.records (record r { offset = length c.records % 2 ^ 64 } ∷ []),
      );
}

-- A client that posts a record, to a log of fewer than 2 ^ 63 - 1 of them, gets the number of
-- records before it as the offset; from then on a GET of that offset is answered with the record,
-- with the offset in it, and any other GET as before.
pub consume-produce :
    (c : Log) (r : Record) (n : ℕ)
    → length c.records + 1 < 2 ^ 63
    → ((handle_produce (some r) true c).0 ≡ body (record { offset = length c.records }))
      × (handle_consume (some n) true (handle_produce (some r) true c).1 ≡ (
          if n == length c.records
          then body (record { found = record r { offset = length c.records } })
          else handle_consume (some n) true c))
unfolding handle_produce handle_consume append read
consume-produce c r n fits =
    let off : length c.records % 2 ^ 64 ≡ length c.records = omega (arith, fits) in
    let new : Record = record r { offset = length c.records % 2 ^ 64 } in
    let size : length (c.records ++ (new ∷ [])) ≡ length c.records + 1 =
      length-append c.records (new ∷ []) in
    (
      ground (arith, off),
      elim (lt_trichotomy n (length c.records)) [
        | inl lt ↦ ground (arith, off, size, get_elem?-append c.records (new ∷ []) n lt)
        | inr (inl e) ↦ ground (arith, off, size, get_elem?-append_right c.records (new ∷ []) n 0)
        | inr (inr gt) ↦ ground (arith, off, size)
      ],
    )

-- On a log whose records have their places as offsets, a GET is answered with a record exactly
-- when the offset is below the number of records, and that record has the offset; otherwise it is
-- an internal server error, and never a panic.
handle_consume_cases :
    (c : Log) (n : ℕ)
    → IsNumbered c
    → ((n < length c.records)
        × ((r : Record) × (handle_consume (some n) true c ≡ body (record { found = r }))
            × (r.offset ≡ n)))
      ⊎ ((length c.records ≤ n) × (handle_consume (some n) true c ≡ http_error 500))
unfolding handle_consume read
handle_consume_cases c n h = elim (Bool-cases (ltb n (length c.records))) [
  | inl lt ↦
      let (r, g) = get_elem?_total c.records n (ltb→lt _ _ lt) in
      inl (
        ltb→lt _ _ lt,
        (r, ground (arith, h.fits, g), omega (arith, NumberedFrom-get 0 c.records n r h.offsets g)),
      )
  | inr ge ↦ inr (ground arith, ground (arith, h.fits))
]
