-- ===== src/Server/Build.antt =====
-- NewGRPCServer (internal/server/server.go): the options and the services of the gRPC server.
use proglog.Base.{List, [], ◌∷◌, ◌++◌}
use proglog.Base.Exec.{Result, Exec, modify, ◌>>◌}
use proglog.Server.{Peer, Context, authenticate}
use Prim.Native.String.{String}

-- The interceptors of a chain, in the order in which they run.
pub data Interceptor : Type 0 where
  ctxtags zap_logging : Interceptor
  auth_by : (Peer → Result Context) → Interceptor

-- The options: those of the caller, the two chains, and the statistics of OpenCensus.
pub data ServerOption (O : Type 0) : Type 0 where
  given : O → ServerOption O
  stream_chain unary_chain : List Interceptor → ServerOption O
  stats_handler : ServerOption O

-- What the code calls of the libraries: trace.ApplyConfig with the sampler that takes every call,
-- view.Register, grpc.NewServer, SetServingStatus to serving, and the two registrations.
pub record Grpc (O E : Type 0) : Type 0 where
  pub sample_always : E → E
  pub register_views : Exec E (Unit {0})
  pub new_server : List (ServerOption O) → E → E
  pub set_serving : String → E → E
  pub register_health : E → E
  pub register_log : E → E

abbrev pub all_given : {O : Type 0} → List O → List (ServerOption O)
all_given [] = []
all_given (o ∷ os) = given o ∷ all_given os

abbrev pub interceptors : List Interceptor
interceptors = ctxtags ∷ zap_logging ∷ auth_by authenticate ∷ []

-- The options that NewServer gets.
abbrev pub server_options : {O : Type 0} → List O → List (ServerOption O)
server_options os =
    all_given os ++ (stream_chain interceptors ∷ unary_chain interceptors ∷ stats_handler ∷ [])

-- NewGRPCServer; newgrpcServer never fails.
unfoldable pub new_grpc_server : {O E : Type 0} → Grpc O E → List O → Exec E (Unit {0})
new_grpc_server grpc os = do
  modify grpc.sample_always
  grpc.register_views
  modify (grpc.new_server (server_options os))
  modify (grpc.set_serving "")
  modify grpc.register_health
  modify grpc.register_log
