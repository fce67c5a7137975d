-- ===== src/Server.antt =====
-- internal/server/server.go: the gRPC service over a commit log.
pub mod Access
pub mod Stream
pub mod OverLog
pub mod OverCluster
pub mod Certificates
pub mod Build
use proglog.Base.{
  ℕ, List, [], ◌∷◌, ◌++◌, Option, none, some, Bool, true, false, add64, if◌then◌else◌,
}
use proglog.Base.Exec.{
  Error, panic, unknown_peer, offset_out_of_range, Result, ok, err, Exec, pure, raise, lift, ◌>>=◌,
  ◌>>◌,
}
use proglog.Api.{Record, ProduceRequest, ProduceResponse, ConsumeRequest, ConsumeResponse, Server}
use Prim.Native.String.{String}

-- CommitLog, Authorizer and GetServerer: what the server takes from its configuration. `Log` is the
-- state behind the log.
pub record Config : Type 1 where
  pub Log : Type 0
  pub append : Option Record → Exec Log ℕ
  pub read : ℕ → Exec Log Record
  pub authorize : String → String → String → Result (Unit {0})
  pub get_servers : Exec Log (List Server)

abbrev pub object_wildcard : String
object_wildcard = "*"

abbrev pub produce_action : String
produce_action = "produce"

abbrev pub consume_action : String
consume_action = "consume"

-- What peer.FromContext and the TLS handshake give of the caller: no peer at all, a connection
-- without authentication, or verified chains of certificates by their common names.
pub data Peer : Type 0 where
  no_peer plain : Peer
  chains : List (List String) → Peer

-- The value under subjectContextKey of a call's context.
abbrev pub Context : Type 0
Context = Option String

abbrev pub first_name : List (List String) → Result String
first_name ((name ∷ _) ∷ _) = ok name
first_name _ = err panic

-- authenticate: the subject of the call.
unfoldable pub authenticate : Peer → Result Context
authenticate no_peer = err unknown_peer
authenticate plain = ok (some "")
authenticate (chains vs) = elim (first_name vs) [ ok name ↦ ok (some name) | err e ↦ err e ]

-- subject: the type assertion panics where there is no value.
unfoldable pub subject : Context → Result String
subject none = err panic
subject (some name) = ok name

-- A unary call on the server that NewGRPCServer makes: the interceptor authenticates the peer, and
-- the handler runs in the context that it returns.
unfoldable pub call {ℓ κ} : {L : Type ℓ} {A : Type κ} → Peer → (Context → Exec L A) → Exec L A
call peer handler = do ctx ← lift (authenticate peer); handler ctx

-- How a stream stands: its handler returned an error, or nil, or still runs.
pub data End : Type 0 where
  failed : Error → End
  done running : End

-- What a stream's handler did: how it stands, what it sent, and the log.
pub record Served (A L : Type 0) : Type 0 where
  pub end : End
  pub sent : List A
  pub log : L

abbrev pub sending : {A L : Type 0} → A → Served A L → Served A L
sending a s = record s { sent = a ∷ s.sent }

-- One round of ProduceStream: what Recv returns, and the error of Send.
pub record Round : Type 0 where
  pub received : Result ProduceRequest
  pub send_error : Option Error

-- One round of ConsumeStream: whether the context is done, what other calls did to the log since
-- the last round, and the error of Send.
pub record Tick (L : Type 0) : Type 0 where
  pub cancelled : Bool
  pub world : L → L
  pub send_error : Option Error

abbrev pub is_out_of_range : Error → Bool
is_out_of_range (offset_out_of_range _) = true
is_out_of_range _ = false

module _ (config : Config) where
  open config use {Log, append, read, authorize, get_servers}

  unfoldable pub allow : Context → String → Result (Unit {0})
  allow ctx action = elim (subject ctx) [
    | ok name ↦ authorize name object_wildcard action
    | err e ↦ err e
  ]

  -- Produce
  unfoldable pub produce : Context → ProduceRequest → Exec Log ProduceResponse
  produce ctx req = do
    lift (allow ctx produce_action)
    off ← append req.value
    pure (record { offset = off })

  -- Consume
  unfoldable pub consume : Context → ConsumeRequest → Exec Log ConsumeResponse
  consume ctx req = do
    lift (allow ctx consume_action)
    r ← read req.offset
    pure (record { value = r })

  -- GetServers
  unfoldable pub get_servers_handler : Exec Log (List Server)
  get_servers_handler = get_servers

  -- ProduceStream, over the rounds that the stream has had.
  unfoldable pub produce_stream : Context → List Round → Log → Served ProduceResponse Log
  produce_stream ctx [] l = record { end = running; sent = []; log = l }
  produce_stream ctx (t ∷ ts) l = elim t.received [
    | err e ↦ record { end = failed e; sent = []; log = l }
    | ok req ↦
        let (res, l') = produce ctx req l in
        elim res [
          | err e ↦ record { end = failed e; sent = []; log = l' }
          | ok a ↦ elim t.send_error [
            | some e ↦ record { end = failed e; sent = []; log = l' }
            | none ↦ sending a (produce_stream ctx ts l')
          ]
        ]
  ]

  -- ConsumeStream from an offset on, over the rounds that the stream has had.
  unfoldable pub consume_stream : Context → ℕ → List (Tick Log) → Log → Served ConsumeResponse Log
  consume_stream ctx offset [] l = record { end = running; sent = []; log = l }
  consume_stream ctx offset (t ∷ ts) l = elim t.cancelled [
    | true ↦ record { end = done; sent = []; log = l }
    | false ↦
        let (res, l') = consume ctx (record { offset = offset }) (t.world l) in
        elim res [
          | err e ↦ elim (is_out_of_range e) [
            | true ↦ consume_stream ctx offset ts l'
            | false ↦ record { end = failed e; sent = []; log = l' }
          ]
          | ok a ↦ elim t.send_error [
            | some e ↦ record { end = failed e; sent = []; log = l' }
            | none ↦ sending a (consume_stream ctx (add64 offset 1) ts l')
          ]
        ]
  ]
