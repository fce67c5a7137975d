-- ===== src/Agent/Stop.antt =====
-- Shutdown (internal/agent/agent.go) of an agent, the end of its process, and the next one.
use proglog.Base.{ℕ, ◌≡◌, refl, ap, ◌∙◌, List, ◌∷◌, some, true, false, arith}
use proglog.Base.Exec.{Error, ok, err}
use proglog.Api.{Reliable}
use proglog.Agent.{Agent, shutdown, shutdown-shutdown, close_channel, run_each}
use proglog.Agent.Compose.{World, Surroundings, parts}
use proglog.Agent.Setup.{log_config}
use proglog.Cli.{Config}
use proglog.Distributed.Bounds.{new_log_store, raft_config}
use proglog.Distributed.LogStore.{RaftLog, store_logs}
use proglog.Distributed.Setup.{close_log}
use proglog.Distributed.Setup.Exited.{new_log-with_defaults, store_logs-close_log}
use proglog.Log
use proglog.Log.{Log, new_log, with_defaults}
use proglog.Log.Killed.{killed}
use proglog.Log.Refine.{Holds}
use proglog.Log.Restart.{new_log-close}
use proglog.Log.Stored.{Stored}
use proglog.Membership.Setup.{leave}
use proglog.Segment.Crashed.{Fails}
use proglog.Segment.Layout.{Payload}
use Prim.Native.String.{String}

-- An agent that runs.
abbrev pub running : {W : Type 0} → W → Agent W
running w = record { shutdown = false; closed = false; service = w }

module _ {E N S C P : Type 0} (s : Surroundings E N S) (reliable : Reliable s.libs) (c : Config C P)
    (addr : String) where
  stopped : World E N S → Log → Agent (World E N S)
  stopped w log = record {
    shutdown = true;
    closed = true;
    service = record {
      starting = record w.starting {
        raft = (s.raft_shutdown w.starting.raft).1;
        log = some (Log.close s.libs log).1;
      };
      outside = s.graceful_stop w.outside;
      serf = (s.serf.leave w.serf).1;
    };
  }

  shutdown-stopped :
      (w : World E N S) (log : Log)
      → w.starting.log ≡ some log
      → (s.serf.leave w.serf).0 ≡ ok tt
      → (s.raft_shutdown w.starting.raft).0 ≡ ok tt
      → (Log.close s.libs log).0 ≡ ok tt
      → shutdown (parts s c) (running w) ≡ (ok tt, stopped w log)
  unfolding shutdown close_channel run_each close_log leave stopped
  shutdown-stopped w log is left shut closed = ground (arith, is, left, shut, closed)

  -- An agent whose logs are in their invariant, with their files in their directories, with the
  -- agent's configuration, and which can leave the cluster and stop Raft: Shutdown returns nil.
  -- What it leaves to the next process is not the same for the two logs. NewLog finds all records
  -- again at their offsets. Raft's own log was not closed, so that its directory is as behind a
  -- killed process: newLogStore opens it without an error, but no StoreLogs of an entry succeeds
  -- any more.
  pub shutdown-restart :
      (w : World E N S) (log store : Log) (first index : ℕ) (qs ps : List Payload) (e : RaftLog)
      (es : List RaftLog)
      → w.starting.log ≡ some log
      → w.starting.store ≡ some store
      → log.config ≡ with_defaults (log_config c addr).segment
      → store.config ≡ with_defaults (raft_config (log_config c addr).segment)
      → Holds log first qs
      → Stored log
      → Holds store index ps
      → Stored store
      → (s.serf.leave w.serf).0 ≡ ok tt
      → (s.raft_shutdown w.starting.raft).0 ≡ ok tt
      → ((shutdown (parts s c) (running w)).0 ≡ ok tt)
        × ((shut : Log) × ((shutdown (parts s c) (running w)).1.service.starting.log ≡ some shut)
            × ((new_log s.libs shut.disk (log_config c addr).segment).0 ≡ ok tt)
            × Holds (new_log s.libs shut.disk (log_config c addr).segment).1 first qs)
        × ((shutdown (parts s c) (running w)).1.service.starting.store ≡ some store)
        × ((new_log_store s.libs (killed store.segments store.disk) (log_config c addr).segment).0
            ≡ ok tt)
        × Fails
            (store_logs s.libs
              (e ∷ es)
              (new_log_store s.libs
                (killed store.segments store.disk)
                (log_config c addr).segment).1).0
  unfolding stopped
  shutdown-restart w log store first index qs ps e es is is' same same' h d h' d' left shut =
      let (closed, opens, holds, _) = new_log-close s.libs reliable log first qs h d in
      let again =
        ap (new_log s.libs (Log.close s.libs log).1.disk) same
        ∙ new_log-with_defaults s.libs (Log.close s.libs log).1.disk (log_config c addr).segment in
      let (_, opens', fails) =
        store_logs-close_log s.libs reliable E s.raft_shutdown (log_config c addr).segment
          w.starting store index ps e es is' same' h' d' in
      rw (shutdown-stopped w log is left shut closed) (
        refl,
        ((Log.close s.libs log).1, refl, rw again at opens, rw again at holds),
        is',
        opens',
        fails,
      )

module _ {E N S C P : Type 0} (s : Surroundings E N S) (c : Config C P) where
  -- Where leaving the cluster fails, Shutdown returns that error, and neither stops the server nor
  -- Raft, nor closes the log; and every later Shutdown returns nil and does none of it either.
  pub shutdown-leave :
      (w : World E N S) (e : Error)
      → (s.serf.leave w.serf).0 ≡ err e
      → ((shutdown (parts s c) (running w)).0 ≡ err e)
        × ((shutdown (parts s c) (running w)).1.service.starting ≡ w.starting)
        × ((shutdown (parts s c) (running w)).1.service.outside ≡ w.outside)
        × (shutdown (parts s c) (shutdown (parts s c) (running w)).1
            ≡ (ok tt, (shutdown (parts s c) (running w)).1))
  unfolding shutdown close_channel run_each leave
  shutdown-leave w e fails = (
    ground (arith, fails),
    ground (arith, fails),
    ground (arith, fails),
    shutdown-shutdown (World E N S) (parts s c) (running w),
  )
