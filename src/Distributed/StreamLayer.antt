-- ===== src/Distributed/StreamLayer.antt =====
-- StreamLayer (internal/log/distributed.go): the first byte of a connection tells Raft's from the
-- others'; the multiplexer of internal/agent/agent.go looks at it too.
use proglog.Base.{
  ℕ, ◌≡◌, List, [], ◌∷◌, ◌++◌, Option, none, some, Bool, true, false, ◌==◌, arith, if◌then◌else◌,
}
use proglog.Base.Exec.{Error, eof, foreign, Result, ok, err}

abbrev pub raft_rpc : ℕ
raft_rpc = 1

-- A net.Conn: the bytes that wait to be read, those that were written, the error that a write
-- returns, and whether TLS is put around it, as a client or as a server.
pub data Wrap : Type 0 where
  plain tls_client tls_server : Wrap

pub record Conn : Type 0 where
  pub incoming : List ℕ
  pub outgoing : List ℕ
  pub broken : Option Error
  pub wrap : Wrap

-- The parts of a StreamLayer that Dial and Accept look at: whether there is a TLS configuration.
pub record StreamLayer : Type 0 where
  pub server_tls : Bool
  pub peer_tls : Bool

abbrev pub write_all : List ℕ → Conn → Result Conn
write_all b c = elim c.broken [
  | some e ↦ err e
  | none ↦ ok (record c { outgoing = c.outgoing ++ b })
]

-- `tls.Client(conn, s.peerTLSConfig)`, where there is one.
abbrev pub as_client : StreamLayer → Result Conn → Result Conn
as_client s (err e) = err e
as_client s (ok c) = if s.peer_tls then ok (record c { wrap = tls_client }) else ok c

abbrev pub dialled : StreamLayer → Result Conn → Result Conn
dialled s (err e) = err e
dialled s (ok c) = as_client s (write_all (raft_rpc ∷ []) c)

-- Dial, over what the net.Dialer returned.
unfoldable pub dial : StreamLayer → Result Conn → Result Conn
dial s dialed = dialled s dialed

-- The error that fmt.Errorf makes of another first byte.
abbrev pub not_raft : Error
not_raft = foreign 3

abbrev pub as_server : StreamLayer → Conn → Result Conn
as_server s c = if s.server_tls then ok (record c { wrap = tls_server }) else ok c

-- A read of one byte waits for it; it returns io.EOF on a connection that was closed before.
abbrev pub read_first : StreamLayer → Conn → List ℕ → Result Conn
read_first s c [] = err eof
read_first s c (b ∷ bs) =
    if raft_rpc == b then as_server s (record c { incoming = bs }) else err not_raft

-- Accept, over what the listener returned.
unfoldable pub accept : StreamLayer → Result Conn → Result Conn
accept s (err e) = err e
accept s (ok c) = read_first s c c.incoming

-- The matcher that setupLog gives to the multiplexer, on the first byte of a connection.
unfoldable pub is_raft : List ℕ → Bool
is_raft [] = false
is_raft (b ∷ _) = b == raft_rpc

-- What Dial sends on a new connection, followed by any bytes, is what the multiplexer hands to Raft,
-- and Accept takes it: it then has exactly the bytes behind the first one to read.
pub accept-dial :
    (client server : StreamLayer) (out in' sent : Conn) (body : List ℕ)
    → out.outgoing ≡ []
    → dial client (ok out) ≡ ok sent
    → in'.incoming ≡ sent.outgoing ++ body
    → (is_raft in'.incoming ≡ true)
      × (accept server (ok in')
          ≡ ok (record in' {
            incoming = body;
            wrap = if server.server_tls then tls_server else in'.wrap;
          }))
unfolding dial accept is_raft
accept-dial client server out in' sent body e d i = ground (arith, e, d, i)
