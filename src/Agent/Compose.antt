-- ===== src/Agent/Compose.antt =====
-- The functions that NewAgent runs and Shutdown runs (internal/agent/agent.go), on one state.
use proglog.Base.{List}
use proglog.Base.Exec.{Exec, zoom}
use proglog.Api.{Libs}
use proglog.Agent.{Parts}
use proglog.Agent.Setup.{
  Addresses, Outside, setup_logger, setup_mux, setup_log, setup_server, setup_membership,
}
use proglog.Cli.{Config}
use proglog.Distributed.Setup.{RaftLibrary, Starting, close_log}
use proglog.Membership.Setup.{Serf, leave}
use Prim.Native.String.{String}

-- The state of a service: the two logs with Raft, what lies outside of the process, and serf.
pub record World (E N S : Type 0) : Type 0 where
  pub starting : Starting E
  pub outside : N
  pub serf : S

-- What the agent's functions call.
pub record Surroundings (E N S : Type 0) : Type 0 where
  pub libs : Libs
  pub raft : RaftLibrary E
  pub net : Addresses
  pub outside : Outside N
  pub serf : Serf S
  pub leaders : List String
  pub meanwhile : Starting E → Starting E
  pub raft_shutdown : Exec E (Unit {0})
  pub graceful_stop : N → N

module _ {E N S : Type 0} where
  abbrev pub on_starting : Exec (Starting E) (Unit {0}) → Exec (World E N S) (Unit {0})
  on_starting = zoom (λ (w : World E N S). w.starting) (λ s w. record w { starting = s })

  abbrev pub on_outside : Exec N (Unit {0}) → Exec (World E N S) (Unit {0})
  on_outside = zoom (λ (w : World E N S). w.outside) (λ n w. record w { outside = n })

  abbrev pub on_serf : Exec S (Unit {0}) → Exec (World E N S) (Unit {0})
  on_serf = zoom (λ (w : World E N S). w.serf) (λ s w. record w { serf = s })

  -- The lists of functions of NewAgent and of Shutdown.
  abbrev pub parts : {C P : Type 0} → Surroundings E N S → Config C P → Parts (World E N S)
  parts s c = record {
    setup_logger = on_outside (setup_logger s.outside);
    setup_mux = on_outside (setup_mux s.net s.outside c);
    setup_log = on_starting (setup_log s.libs s.raft s.net s.leaders s.meanwhile c);
    setup_server = on_outside (setup_server s.outside c);
    setup_membership = on_serf (setup_membership s.net s.serf c);
    leave = on_serf (leave s.serf);
    graceful_stop = λ w. record w { outside = s.graceful_stop w.outside };
    close_log = on_starting (close_log s.libs s.raft_shutdown);
  }
