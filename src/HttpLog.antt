-- ===== src/HttpLog.antt =====
-- _httpLogServer/server/log.go and http.go: the first server, a log in memory behind HTTP.
pub mod Handlers
pub mod Session
use proglog.Base.{
  ℕ, Bool, true, false, ◌+◌, ◌%◌, ◌^◌, List, [], ◌∷◌, ◌++◌, Option, none, some, length, get_elem?,
  leb, if◌then◌else◌,
}

pub record Record : Type 0 where
  pub value : List ℕ
  pub offset : ℕ

pub record Log : Type 0 where
  pub records : List Record

-- NewLog
unfoldable pub new_log : Log
new_log = record { records = [] }

-- Append; it never fails.
unfoldable pub append : Record → Log → ℕ × Log
append r c =
    let off = length c.records % 2 ^ 64 in
    (off, record c { records = c.records ++ (record r { offset = off } ∷ []) })

pub data ReadResult : Type 0 where
  record_at : Record → ReadResult
  offset_not_found panic : ReadResult

abbrev pub at_index : Option Record → ReadResult
at_index none = panic
at_index (some r) = record_at r

-- Read
unfoldable pub read : ℕ → Log → ReadResult
read offset c =
    if leb (length c.records % 2 ^ 64) offset
    then offset_not_found
    else at_index (get_elem? c.records offset)

-- What a handler writes: a JSON body with the status 200, or an error's text with its status.
-- `broken` is a handler that panicked.
pub data Response (A : Type 0) : Type 0 where
  body : A → Response A
  http_error : ℕ → Response A
  broken : Response A

abbrev pub status_bad_request : ℕ
status_bad_request = 400

abbrev pub status_internal_server_error : ℕ
status_internal_server_error = 500

pub record ProduceResponse : Type 0 where
  pub offset : ℕ

pub record ConsumeResponse : Type 0 where
  pub found : Record

-- The end of a handler: `encodes` says whether the response could be encoded and written.
abbrev pub encode : {A : Type 0} → Bool → A → Response A
encode true a = body a
encode false a = http_error status_internal_server_error

-- handleProduce: the request's record as the JSON decoder gives it, `none` where it fails.
unfoldable pub handle_produce : Option Record → Bool → Log → Response ProduceResponse × Log
handle_produce none encodes c = (http_error status_bad_request, c)
handle_produce (some r) encodes c =
    let (off, c') = append r c in (encode encodes (record { offset = off }), c')

abbrev pub consume_reply : Bool → ReadResult → Response ConsumeResponse
consume_reply encodes (record_at r) = encode encodes (record { found = r })
consume_reply encodes offset_not_found = http_error status_internal_server_error
consume_reply encodes panic = broken

-- handleConsume: the request's offset, or `none` where the decoder fails.
unfoldable pub handle_consume : Option ℕ → Bool → Log → Response ConsumeResponse
handle_consume none encodes c = http_error status_bad_request
handle_consume (some offset) encodes c = consume_reply encodes (read offset c)
