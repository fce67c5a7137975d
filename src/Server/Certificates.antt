-- ===== src/Server/Certificates.antt =====
-- Which callers the interceptor of internal/server/server.go lets through, under the TLS settings of
-- internal/config/tls.go.
use proglog.Base.{◌≡◌, refl, sym, ◌∙◌, List, [], ◌∷◌, some, Bool, true, false, ◌⊎◌, inl, inr}
use proglog.Base.Exec.{ok, err, panic}
use proglog.Server.{Peer, chains, authenticate}
use proglog.Tls.{TlsConfig, Tls, Certs, setup_tls_config, setup_tls_config-require, is_set}
use Prim.Native.String.{String}

-- What crypto/tls gives of a client that finished the handshake: the verified chains of the client's
-- certificate, each with the certificate first, where client certificates are required; and none
-- where they are not asked for.
pub data Shaken : Bool → Peer → Type 0 where
  verified :
      (name : String) (issuers : List String) (more : List (List String))
      → Shaken true (chains ((name ∷ issuers) ∷ more))
  unasked : Shaken false (chains [])

-- The interceptor gives the call the name of the certificate that the client showed, the first one of
-- its first chain.
abbrev pub Named : Peer → Type 0
Named peer =
    (name : String) × (issuers : List String) × (more : List (List String)) × (peer
      ≡ chains ((name ∷ issuers) ∷ more))
    × (authenticate peer ≡ ok (some name))

Shaken-cases :
    (b : Bool) (peer : Peer)
    → Shaken b peer
    → ((b ≡ true) × Named peer) ⊎ ((b ≡ false) × (authenticate peer ≡ err panic))
unfolding authenticate
Shaken-cases true peer (verified name issuers more) = inl (refl, (name, issuers, more, refl, refl))
Shaken-cases false peer unasked = inr (refl, refl)

-- A server with the settings of SetupTLSConfig, and a client that finished the handshake: where there
-- is a file of authorities, the interceptor gives every call the name in the client's certificate;
-- where there is none, it panics at every call.
pub authenticate-setup_tls_config :
    (C P : Type 0) (certs : Certs C P) (cfg : TlsConfig) (t : Tls C P) (peer : Peer)
    → setup_tls_config certs cfg ≡ ok t
    → cfg.server ≡ true
    → Shaken t.require_client peer
    → ((is_set cfg.ca_file ≡ true) × Named peer)
      ⊎ ((is_set cfg.ca_file ≡ false) × (authenticate peer ≡ err panic))
authenticate-setup_tls_config C P certs cfg t peer e server shaken =
    let demanded : t.require_client ≡ is_set cfg.ca_file =
      (setup_tls_config-require certs cfg t e).0 ∙ rw server refl in
    elim (Shaken-cases t.require_client peer shaken) [
      | inl (b, found) ↦ inl (sym demanded ∙ b, found)
      | inr (b, fails) ↦ inr (sym demanded ∙ b, fails)
    ]
