-- ===== src/Api.antt =====
-- api/v1: the messages of log.proto (log.pb.go is generated from it), and what the program takes
-- from libraries outside the repository.
use proglog.Base.{ℕ, ◌<◌, ◌^◌, ◌≡◌, List, Option, Bool, IsU64}
use proglog.Base.Exec.{Error, Result, ok, offset_out_of_range}
use Prim.Native.String.{String}

-- api.Record. `type` is `kind`: a uint32.
pub record Record : Type 0 where
  pub value : List ℕ
  pub offset : ℕ
  pub term : ℕ
  pub kind : ℕ

-- The numbers of a record are in the range of their Go types.
pub record Fits (r : Record) : Type 0 where
  pub offset : IsU64 r.offset
  pub term : IsU64 r.term
  pub kind : r.kind < 2 ^ 32

-- A message field of message type is a pointer, nil where the sender left it out.
pub record ProduceRequest : Type 0 where
  pub value : Option Record

pub record ProduceResponse : Type 0 where
  pub offset : ℕ

pub record ConsumeRequest : Type 0 where
  pub offset : ℕ

pub record ConsumeResponse : Type 0 where
  pub value : Record

-- proto.Marshal and proto.Unmarshal of google.golang.org/protobuf at the messages that the code
-- gives them, and the memory map of github.com/tysonmote/gommap. A map of a file's bytes is the
-- bytes of the mapped memory; MSync gives the file's bytes after the sync.
pub record Libs : Type 0 where
  pub marshal : Record → Result (List ℕ)
  pub unmarshal : List ℕ → Result Record
  pub map_file : List ℕ → Result (List ℕ)
  pub sync_map : List ℕ → List ℕ → Result (List ℕ)
  pub unmap : List ℕ → Result (Unit {0})

-- What the program relies on: Unmarshal reads what Marshal wrote, a shared map shows the file, and
-- MS_SYNC writes the mapped memory to it.
pub record Reliable (libs : Libs) : Type 0 where
  pub unmarshal-marshal :
      (r : Record) (b : List ℕ) → Fits r → libs.marshal r ≡ ok b → libs.unmarshal b ≡ ok r
  pub maps : (b : List ℕ) → libs.map_file b ≡ ok b
  pub syncs : (b m : List ℕ) → libs.sync_map b m ≡ ok m
  pub unmaps : (m : List ℕ) → libs.unmap m ≡ ok tt

-- api.Server
pub record Server : Type 0 where
  pub id : String
  pub rpc_addr : String
  pub is_leader : Bool

-- The gRPC status codes that the errors of the program carry.
pub data Code : Type 0 where
  out_of_range permission_denied unknown : Code

-- GRPCStatus of ErrOffsetOutOfRange (api/v1/error.go), and status.New of the server's and the
-- authorizer's errors; any other error has the code Unknown.
unfoldable pub status_of : Error → Code
status_of (offset_out_of_range _) = out_of_range
status_of (Error.permission_denied _ _) = permission_denied
status_of _ = unknown
