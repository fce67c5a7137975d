-- ===== src/Examples/ServerRuns.antt =====
-- The gRPC service of internal/server, run over the log on the concrete libraries.
use proglog.Base.{
  ℕ, zero, suc, ◌+◌, ◌<◌, ◌≡◌, refl, [], ◌∷◌, some, none, true, false, arith, length,
}
use proglog.Base.Exec.{ok, err, permission_denied, pure}
use proglog.Api.{Record}
use proglog.Auth.{Enforce, authorize}
use proglog.Log.{Log}
use proglog.Server.{
  Config, Round, failed, Tick, running, produce, produce_stream, consume_stream, subject, allow,
  consume_action,
}
use proglog.Server.Access.{produce-denied}
use proglog.Server.Stream.{Streamed, Grows, consume_stream-Streamed, consume_stream_progress}
use proglog.Server.OverLog.{over_log, IsReadable, log_readable, record_at}
use proglog.Examples.Codec.{libs, decode-encode}
use proglog.Examples.LogRuns.{one, hello, payload, one-Holds, decode_payload}
use proglog.Log.Refine.{read-Holds}
use text.Mathlib.Text.{◌==◌ as str_eq}

-- The policy of test/policy.csv: root may do everything.
abbrev pub enforce : Enforce
enforce subject object action = ok (str_eq subject "root")

abbrev config : Config
config = over_log libs enforce (pure [])

-- A stream of two messages.
abbrev message : Round
message = record { received = ok (record { value = some hello }); send_error = none }

produce-denied_example :
    (produce config (some "nobody") (record { value = some hello }) one
      ≡ (err (permission_denied "nobody" "produce"), one))
    × (produce_stream config (some "nobody") (message ∷ message ∷ []) one
        ≡ record { end = failed (permission_denied "nobody" "produce"); sent = []; log = one })
produce-denied_example =
    produce-denied config enforce (λ n o a. refl) "nobody" (record { value = some hello }) message
      (message ∷ []) one refl

one-IsReadable : IsReadable libs one
one-IsReadable = record {
  first = 5;
  payloads = payload 5 ∷ [];
  holds = one-Holds;
  decodes = λ k p g. decode_payload k p g;
}

abbrev quiet : Tick Log
quiet = record { cancelled = false; world = λ l. l; send_error = none }

abbrev cut : Tick Log
cut = record { cancelled = true; world = λ l. l; send_error = none }

allowed : allow config (some "root") consume_action ≡ ok tt
unfolding allow subject authorize
allowed = refl

still-Grows : Grows config (log_readable libs enforce (pure [])) (some "root") allowed (λ l. l)
still-Grows = record { valid = λ l v. v; keeps = λ l off r v e. e }

consume_stream-Streamed_example :
    Streamed config
      (log_readable libs enforce (pure []))
      (some "root")
      allowed
      one
      5
      (consume_stream config (some "root") 5 (quiet ∷ quiet ∷ cut ∷ []) one)
consume_stream-Streamed_example =
    consume_stream-Streamed config (log_readable libs enforce (pure [])) (some "root") allowed
      (quiet ∷ quiet ∷ cut ∷ []) 5 one one-IsReadable
      (still-Grows, (still-Grows, (still-Grows, tt))) (omega arith)

shown : (i : ℕ) → i < 1 → (r : Record) × (record_at libs one (5 + i) ≡ some r)
unfolding record_at
shown zero b = (
  record hello { offset = 5 },
  rw (read-Holds libs one 5 (payload 5 ∷ []) one-Holds 0 (payload 5) refl).0
      (rw (decode-encode (record hello { offset = 5 }) (omega arith))),
)
shown (suc i) b = absurd (omega arith)

consume_stream_progress_example :
    (length (consume_stream config (some "root") 5 (quiet ∷ []) one).sent ≡ 1)
    × ((consume_stream config (some "root") 5 (quiet ∷ []) one).end ≡ running)
consume_stream_progress_example =
    consume_stream_progress config (log_readable libs enforce (pure [])) (some "root") allowed
      (quiet ∷ []) 5 one one-IsReadable (still-Grows, tt) (refl, refl, tt) (omega arith) shown
