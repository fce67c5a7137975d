-- ===== src/HttpLog/Session.antt =====
-- A client's session with the HTTP server (_httpLogServer/server/http.go), and what it is promised.
use proglog.Base.{
  ℕ, zero, suc, ◌+◌, ◌<◌, ◌^◌, ◌%◌, ◌≡◌, refl, ap, List, [], ◌∷◌, ◌++◌, Option, some, none, true,
  arith, length, length-append, get_elem?, get_elem?_total, get_elem?-none, inl, inr, Bool-cases,
  ltb, ltb→lt,
}
use proglog.HttpLog.{
  Record, Log, new_log, append, read, Response, body, http_error, ProduceResponse, ConsumeResponse,
  handle_produce, handle_consume, status_bad_request, status_internal_server_error,
}

-- What NewHTTPServer routes: POST to handleProduce and GET to handleConsume, each with its body as
-- the JSON decoder gives it.
pub data Request : Type 0 where
  post : Option Record → Request
  get : Option ℕ → Request

pub data Reply : Type 0 where
  produced : Response ProduceResponse → Reply
  consumed : Response ConsumeResponse → Reply

-- Responses can be encoded here.
unfoldable pub serve_http : Request → Log → Reply × Log
serve_http (post r) c = let (x, c') = handle_produce r true c in (produced x, c')
serve_http (get offset) c = (consumed (handle_consume offset true c), c)

unfoldable pub session : List Request → Log → List Reply
session [] c = []
session (q ∷ qs) c = let (x, c') = serve_http q c in x ∷ session qs c'

-- The record that was posted as the `n`-th, with that number.
abbrev pub nth : List Record → ℕ → Response ConsumeResponse
nth rs n = elim (get_elem? rs n) [
  | none ↦ http_error status_internal_server_error
  | some r ↦ body (record { found = record r { offset = n } })
]

-- What the client is promised, behind the records that were posted.
abbrev pub promised : List Record → List Request → List Reply
promised posted [] = []
promised posted (post none ∷ qs) = produced (http_error status_bad_request) ∷ promised posted qs
promised posted (post (some r) ∷ qs) =
    produced (body (record { offset = length posted })) ∷ promised (posted ++ (r ∷ [])) qs
promised posted (get none ∷ qs) = consumed (http_error status_bad_request) ∷ promised posted qs
promised posted (get (some n) ∷ qs) = consumed (nth posted n) ∷ promised posted qs

-- The records that a log keeps of those that were posted.
abbrev numbered : ℕ → List Record → List Record
numbered k [] = []
numbered k (r ∷ rs) = record r { offset = k } ∷ numbered (suc k) rs

length-numbered : (k : ℕ) (rs : List Record) → length (numbered k rs) ≡ length rs
length-numbered k [] = refl
length-numbered k (r ∷ rs) = ap suc (length-numbered (suc k) rs)

numbered-snoc :
    (k : ℕ) (rs : List Record) (r : Record)
    → numbered k (rs ++ (r ∷ [])) ≡ numbered k rs ++ (record r { offset = k + length rs } ∷ [])
numbered-snoc k [] r = let e : k + 0 ≡ k = omega arith in rw e refl
numbered-snoc k (s ∷ rs) r =
    let e : k + suc (length rs) ≡ suc k + length rs = omega arith in
    rw e (ap (λ t. record s { offset = k } ∷ t) (numbered-snoc (suc k) rs r))

get_elem?-numbered :
    (k : ℕ) (rs : List Record) (n : ℕ) (r : Record)
    → get_elem? rs n ≡ some r
    → get_elem? (numbered k rs) n ≡ some (record r { offset = k + n })
get_elem?-numbered k [] n r g = absurd cc
get_elem?-numbered k (s ∷ rs) zero r g =
    let same : s ≡ r = cc in let e : k + 0 ≡ k = omega arith in rw (e, same) refl
get_elem?-numbered k (s ∷ rs) (suc n) r g =
    let e : k + suc n ≡ suc k + n = omega arith in rw e (get_elem?-numbered (suc k) rs n r g)

abbrev keeps : List Record → Log
keeps rs = record { records = numbered 0 rs }

handle_consume-nth :
    (rs : List Record) (n : ℕ)
    → length rs < 2 ^ 64
    → handle_consume (some n) true (keeps rs) ≡ nth rs n
unfolding handle_consume read
handle_consume-nth rs n small = elim (Bool-cases (ltb n (length rs))) [
  | inl b ↦
      let (r, g) = get_elem?_total rs n (ltb→lt _ _ b) in
      ground (arith, length-numbered 0 rs, g, get_elem?-numbered 0 rs n r g, b)
  | inr b ↦
      let missing : get_elem? rs n ≡ none = get_elem?-none rs n (ground (arith, b)) in
      ground (arith, length-numbered 0 rs, missing, b)
]

append-keeps :
    (rs : List Record) (r : Record)
    → length rs < 2 ^ 64
    → append r (keeps rs) ≡ (length rs, keeps (rs ++ (r ∷ [])))
unfolding append
append-keeps rs r small =
    let off : length (numbered 0 rs) % 2 ^ 64 ≡ length rs = omega (arith, length-numbered 0 rs) in
    let zero_off : 0 + length rs ≡ length rs = omega arith in
    rw (off, numbered-snoc 0 rs r, zero_off) refl

session-keeps :
    (qs : List Request) (rs : List Record)
    → length rs + length qs < 2 ^ 64
    → session qs (keeps rs) ≡ promised rs qs
unfolding session serve_http handle_produce handle_consume
session-keeps [] rs small = refl
session-keeps (post none ∷ qs) rs small =
    ap (λ t. produced (http_error status_bad_request) ∷ t) (session-keeps qs rs (omega arith))
session-keeps (post (some r) ∷ qs) rs small = rw (append-keeps rs r (omega arith)) (
    ap (λ t. produced (body (record { offset = length rs })) ∷ t)
      (session-keeps qs (rs ++ (r ∷ [])) (omega (arith, length-append rs (r ∷ [])))))
session-keeps (get none ∷ qs) rs small =
    ap (λ t. consumed (http_error status_bad_request) ∷ t) (session-keeps qs rs (omega arith))
session-keeps (get (some n) ∷ qs) rs small =
    rw (handle_consume-nth rs n (omega arith))
      (ap (λ t. consumed (nth rs n) ∷ t) (session-keeps qs rs (omega arith)))

-- The new server answers every sequence of fewer than 2 ^ 64 requests as a list of records does: a
-- posted record gets the number of records that were posted before it as its offset, a GET of an
-- offset is answered with the record that was posted under it, with the offset in it, and a GET of
-- an offset that was not given out yet is an internal server error. A body that cannot be decoded
-- is a bad request and changes nothing.
pub session-promised :
    (qs : List Request) → length qs < 2 ^ 64 → session qs new_log ≡ promised [] qs
unfolding new_log
session-promised qs small = session-keeps qs [] (omega arith)
