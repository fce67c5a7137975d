-- ===== src/Cli.antt =====
-- cmd/proglog/main.go: the agent's configuration from viper, which knows the flags by their names.
pub mod Flags
use proglog.Base.{
  ℕ, ◌≡◌, refl, List, [], ◌∷◌, Option, none, some, Bool, true, false, if◌then◌else◌, ◌&&◌,
}
use proglog.Base.Exec.{Error, Result, ok, err}
use proglog.Tls.{TlsConfig, Tls, Certs, setup_tls_config, is_set}
use text.Mathlib.Text.{◌==◌ as str_eq}
use Prim.Native.String.{String}

-- agent.Config; a slice that is nil is none.
pub record Config (C P : Type 0) : Type 0 where
  pub server_tls_config : Option (Tls C P)
  pub peer_tls_config : Option (Tls C P)
  pub data_dir : String
  pub bind_addr : String
  pub rpc_port : ℕ
  pub node_name : String
  pub bootstrap : Bool
  pub start_join_addrs : Option (List String)
  pub acl_model_file : String
  pub acl_policy_file : String

-- The getters of viper, behind flags and file.
pub record Viper : Type 0 where
  pub get_string : String → String
  pub get_int : String → ℕ
  pub get_bool : String → Bool
  pub get_string_slice : String → Option (List String)

-- What ReadInConfig returned: no error, no such file, or another error.
pub data ReadIn : Type 0 where
  read_in not_found : ReadIn
  unreadable : Error → ReadIn

abbrev pub server_files : Viper → Bool → TlsConfig
server_files v server = record {
  cert_file = v.get_string "server-tls-cert-file";
  key_file = v.get_string "server-tls-key-file";
  ca_file = v.get_string "server-tls-ca-file";
  server_address = "";
  server = server;
}

abbrev pub peer_files : Viper → TlsConfig
peer_files v = record {
  cert_file = v.get_string "peer-tls-cert-file";
  key_file = v.get_string "peer-tls-key-file";
  ca_file = v.get_string "peer-tls-ca-file";
  server_address = "";
  server = false;
}

-- The same values, but for the flag that names the model file.
abbrev set_model : String → Viper → Viper
set_model file v = record v {
  get_string = λ name. if str_eq name "acl-model-file" then file else v.get_string name;
}

module _ {C P : Type 0} where
  abbrev pub just : Result (Tls C P) → Result (Option (Tls C P))
  just (err e) = err e
  just (ok t) = ok (some t)

  abbrev pub tls_if_set : Certs C P → TlsConfig → Result (Option (Tls C P))
  tls_if_set certs cfg =
      if is_set cfg.cert_file && is_set cfg.key_file
      then just (setup_tls_config certs cfg)
      else ok none

  abbrev pub values : Viper → Config C P
  values v = record {
    server_tls_config = none;
    peer_tls_config = none;
    data_dir = v.get_string "data-dir";
    bind_addr = v.get_string "bind-addr";
    rpc_port = v.get_int "rpc-port";
    node_name = v.get_string "node-name";
    bootstrap = v.get_bool "bootstrap";
    start_join_addrs = v.get_string_slice "start-join-addrs";
    acl_model_file = v.get_string "acl-mode-file";
    acl_policy_file = v.get_string "acl-policy-file";
  }

  abbrev pub with_peer : Config C P → Result (Option (Tls C P)) → Result (Config C P)
  with_peer c (err e) = err e
  with_peer c (ok t) = ok (record c { peer_tls_config = t })

  abbrev pub with_server :
      Config C P → Result (Option (Tls C P)) → Result (Option (Tls C P)) → Result (Config C P)
  with_server c (err e) peer = err e
  with_server c (ok t) peer = with_peer (record c { server_tls_config = t }) peer

  -- setupConfig
  unfoldable pub setup_config : Certs C P → ReadIn → Viper → Result (Config C P)
  setup_config certs (unreadable e) v = err e
  setup_config certs read_in v =
      with_server (values v) (tls_if_set certs (server_files v true))
        (tls_if_set certs (peer_files v))
  setup_config certs not_found v =
      with_server (values v) (tls_if_set certs (server_files v true))
        (tls_if_set certs (peer_files v))

  -- The flag "acl-model-file" changes nothing: setupConfig asks for the model file under a name that
  -- no flag has.
  setup_config-set_model :
      (certs : Certs C P) (r : ReadIn) (v : Viper) (file : String)
      → setup_config certs r (set_model file v) ≡ setup_config certs r v
  unfolding setup_config
  setup_config-set_model certs (unreadable e) v file = refl
  setup_config-set_model certs read_in v file = refl
  setup_config-set_model certs not_found v file = refl
