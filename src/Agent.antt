-- ===== src/Agent.antt =====
-- internal/agent/agent.go: the start and the end of a service's components.
pub mod Setup
pub mod Compose
pub mod Fresh
pub mod Stop
use proglog.Base.{◌≡◌, List, [], ◌∷◌, Bool, true, false, arith, if◌then◌else◌}
use proglog.Base.Exec.{Result, panic, ok, err, Exec, pure, ◌>>◌, modify, zoom}

-- A list of functions, run until one returns an error.
unfoldable pub run_each : {S : Type 0} → List (Exec S (Unit {0})) → Exec S (Unit {0})
run_each [] = pure tt
run_each (f ∷ fs) = do f; run_each fs

-- The components' own functions, on the state of the service.
pub record Parts (S : Type 0) : Type 0 where
  pub setup_logger : Exec S (Unit {0})
  pub setup_mux : Exec S (Unit {0})
  pub setup_log : Exec S (Unit {0})
  pub setup_server : Exec S (Unit {0})
  pub setup_membership : Exec S (Unit {0})
  pub leave : Exec S (Unit {0})
  pub graceful_stop : S → S
  pub close_log : Exec S (Unit {0})

-- NewAgent, up to the start of serve.
unfoldable pub new_agent : {S : Type 0} → Parts S → Exec S (Unit {0})
new_agent parts = run_each (
    parts.setup_logger ∷ parts.setup_mux ∷ parts.setup_log ∷ parts.setup_server
    ∷ parts.setup_membership ∷ [])

-- The flag and the channel of an Agent, and the rest of the service.
pub record Agent (S : Type 0) : Type 0 where
  pub shutdown : Bool
  pub closed : Bool
  pub service : S

-- Closing a closed channel panics.
unfoldable pub close_channel : {S : Type 0} → Exec (Agent S) (Unit {0})
close_channel a = if a.closed then (err panic, a) else (ok tt, record a { closed = true })

abbrev pub stops : {S : Type 0} → Parts S → List (Exec S (Unit {0}))
stops parts = parts.leave ∷ modify parts.graceful_stop ∷ parts.close_log ∷ []

abbrev pub on_service : {S : Type 0} → Exec S (Unit {0}) → Exec (Agent S) (Unit {0})
on_service = zoom (λ (a : Agent _). a.service) (λ s a. record a { service = s })

-- Shutdown; it holds the lock from its start to its end.
unfoldable pub shutdown : {S : Type 0} → Parts S → Exec (Agent S) (Unit {0})
shutdown parts a =
    if a.shutdown
    then (ok tt, a)
    else (close_channel >> on_service (run_each (stops parts))) (record a { shutdown = true })

abbrev pub after_serve :
    {S : Type 0} → Parts S → Result (Unit {0}) × Agent S → Result (Unit {0}) × Agent S
after_serve parts (ok _, a) = (ok tt, a)
after_serve parts (err e, a) = (err e, (shutdown parts a).1)

-- serve, where `mux` is what Serve of the multiplexer does until it returns.
unfoldable pub serve : {S : Type 0} → Parts S → Exec S (Unit {0}) → Exec (Agent S) (Unit {0})
serve parts mux a = after_serve parts (on_service mux a)

-- Shutdown runs its functions at most once: after a Shutdown, also one that failed, a further one
-- returns nil and does nothing, so that the channel is not closed twice.
pub shutdown-shutdown :
    (S : Type 0) (parts : Parts S) (a : Agent S)
    → shutdown parts (shutdown parts a).1 ≡ (ok tt, (shutdown parts a).1)
unfolding shutdown close_channel
shutdown-shutdown S parts a = ground arith

-- An agent that was not shut down is shut down in order: it leaves the cluster, stops the server
-- and closes the log. If leaving fails, the others are not run.
shutdown-order :
    (S : Type 0) (parts : Parts S) (s : S)
    → shutdown parts (record { shutdown = false; closed = false; service = s })
      ≡ (elim (parts.leave s).0 [
        | err e ↦ (err e, record { shutdown = true; closed = true; service = (parts.leave s).1 })
        | ok _ ↦ (
          (parts.close_log (parts.graceful_stop (parts.leave s).1)).0,
          record {
            shutdown = true;
            closed = true;
            service = (parts.close_log (parts.graceful_stop (parts.leave s).1)).1;
          },
        )
      ])
unfolding shutdown close_channel run_each
shutdown-order S parts s = ground arith
