-- ===== src/Tls.antt =====
-- internal/config/tls.go: the TLS settings from the names of files.
use proglog.Base.{
  ℕ, ◌≡◌, List, [], ◌∷◌, Option, none, some, Bool, true, false, arith, if◌then◌else◌, not, ◌&&◌,
}
use proglog.Base.Exec.{Error, foreign, Result, ok, err}
use text.Mathlib.Text.{◌==◌ as str_eq}
use Prim.Native.String.{String}

pub record TlsConfig : Type 0 where
  pub cert_file : String
  pub key_file : String
  pub ca_file : String
  pub server_address : String
  pub server : Bool

-- tls.Config: the fields that the code sets. `C` is a certificate with its key, `P` a pool of
-- certificates; `require_client` says that ClientAuth is tls.RequireAndVerifyClientCert.
pub record Tls (C P : Type 0) : Type 0 where
  pub certificates : List C
  pub client_cas : Option P
  pub root_cas : Option P
  pub require_client : Bool
  pub server_name : String

-- tls.LoadX509KeyPair, os.ReadFile, and AppendCertsFromPEM on a new pool: `none` where it is false.
pub record Certs (C P : Type 0) : Type 0 where
  pub load_key_pair : String → String → Result C
  pub read_file : String → Result (List ℕ)
  pub parse_pool : List ℕ → Option P

abbrev pub is_set : String → Bool
is_set s = not (str_eq s "")

-- The error that fmt.Errorf makes of a pool that does not parse.
abbrev pub bad_root : Error
bad_root = foreign 2

module _ {C P : Type 0} where
  abbrev pub with_certificate : Tls C P → Result C → Result (Tls C P)
  with_certificate t (err e) = err e
  with_certificate t (ok c) = ok (record t { certificates = c ∷ [] })

  abbrev pub with_pool : TlsConfig → Tls C P → Option P → Result (Tls C P)
  with_pool cfg t none = err bad_root
  with_pool cfg t (some ca) =
      if cfg.server
      then ok (record t {
        client_cas = some ca;
        require_client = true;
        server_name = cfg.server_address;
      })
      else ok (record t { root_cas = some ca; server_name = cfg.server_address })

  abbrev pub with_roots : Certs C P → TlsConfig → Tls C P → Result (List ℕ) → Result (Tls C P)
  with_roots certs cfg t (err e) = err e
  with_roots certs cfg t (ok b) = with_pool cfg t (certs.parse_pool b)

  abbrev pub no_tls : Tls C P
  no_tls = record {
    certificates = [];
    client_cas = none;
    root_cas = none;
    require_client = false;
    server_name = "";
  }

  abbrev pub key_pair : Certs C P → TlsConfig → Result (Tls C P)
  key_pair certs cfg =
      if is_set cfg.cert_file && is_set cfg.key_file
      then with_certificate no_tls (certs.load_key_pair cfg.cert_file cfg.key_file)
      else ok no_tls

  abbrev pub authority : Certs C P → TlsConfig → Result (Tls C P) → Result (Tls C P)
  authority certs cfg (err e) = err e
  authority certs cfg (ok t) =
      if is_set cfg.ca_file then with_roots certs cfg t (certs.read_file cfg.ca_file) else ok t

  abbrev pub has_certificate : Tls C P → Bool
  has_certificate t = elim t.certificates [ [] ↦ false | _ ∷ _ ↦ true ]

  -- SetupTLSConfig
  unfoldable pub setup_tls_config : Certs C P → TlsConfig → Result (Tls C P)
  setup_tls_config certs cfg = authority certs cfg (key_pair certs cfg)

  -- Where SetupTLSConfig succeeds, the result demands client certificates exactly if it is for a
  -- server with a file of authorities, and it has an own certificate exactly if both files are named.
  pub setup_tls_config-require :
      (certs : Certs C P) (cfg : TlsConfig) (t : Tls C P)
      → setup_tls_config certs cfg ≡ ok t
      → (t.require_client ≡ cfg.server && is_set cfg.ca_file)
        × (has_certificate t ≡ is_set cfg.cert_file && is_set cfg.key_file)
  unfolding setup_tls_config
  setup_tls_config-require certs cfg t h = (ground (arith, h), ground (arith, h))
