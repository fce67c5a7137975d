-- ===== src/ConfigFiles.antt =====
-- internal/config/files.go: where the configuration files are.
use proglog.Base.{List, [], ◌∷◌, if◌then◌else◌}
use proglog.Base.Exec.{panic, Result, ok, err}
use proglog.Tls.{is_set}
use Prim.Native.String.{String}

-- os.Getenv, os.UserHomeDir and filepath.Join.
pub record Env : Type 0 where
  pub getenv : String → String
  pub user_home_dir : Result String
  pub join : List String → String

-- configFile
unfoldable pub config_file : Env → String → Result String
config_file env filename =
    if is_set (env.getenv "CONFIG_DIR")
    then ok (env.join (env.getenv "CONFIG_DIR" ∷ filename ∷ []))
    else elim env.user_home_dir [
      | err e ↦ err panic
      | ok home ↦ ok (env.join (home ∷ "projects" ∷ ".proglog" ∷ filename ∷ []))
    ]

-- The names that the variables of the package are made of: CAFile, the server's certificate and key,
-- those of the root client and of the nobody client, and the model and policy of the authorization.
abbrev pub file_names : List String
file_names =
    "ca.pem" ∷ "server.pem" ∷ "server-key.pem" ∷ "root-client.pem" ∷ "root-client-key.pem"
    ∷ "nobody-client.pem" ∷ "nobody-client-key.pem" ∷ "model.conf" ∷ "policy.csv" ∷ []
