-- ===== src/Log/Durable.antt =====
-- What a client of the log (internal/log/log.go) finds after a restart.
use proglog.Base.{
  ℕ, ◌+◌, ◌<◌, ◌^◌, ◌≡◌, ◌∙◌, List, [], ◌∷◌, ◌++◌, some, arith, length, get_elem?-append_right,
}
use proglog.Base.Exec.{ok}
use proglog.Api.{Record, Libs, Reliable, Fits}
use proglog.Segment.Layout.{Payload}
use proglog.Log.{Log, append, read, close, new_log}
use proglog.Log.Refine.{Holds, append-Holds, read-Holds}
use proglog.Log.Refine.Files.{append-Stored}
use proglog.Log.Stored.{Stored}
use proglog.Log.Restart.{new_log-close}

-- A record that Marshal accepts, with a payload below 2 ^ 48 bytes, is appended to a log in its
-- invariant, with its files in the directory, at an offset below 2 ^ 63. It survives a restart:
-- Close succeeds, and Read of the log that NewLog makes of the directory, at the offset behind the
-- last one, gives the record.
pub read-new_log :
    (libs : Libs) (reliable : Reliable libs) (l : Log) (first : ℕ) (qs : List Payload) (r : Record)
    (p : Payload)
    → Holds l first qs
    → Stored l
    → libs.marshal (record r { offset = first + length qs }) ≡ ok p
    → Fits (record r { offset = first + length qs })
    → length p < 2 ^ 48
    → first + length qs + 1 < 2 ^ 63
    → ((close libs (append libs (some r) l).1).0 ≡ ok tt)
      × ((read libs
            (first + length qs)
            (new_log libs
              (close libs (append libs (some r) l).1).1.disk
              (append libs (some r) l).1.config).1).0
          ≡ ok (record r { offset = first + length qs }))
read-new_log libs reliable l first qs r p h s m fits small top =
    let (_, holds) = append-Holds libs reliable l first qs h r p m small top in
    let stored = append-Stored libs reliable l first qs h r p m small top s in
    let (okay, _, again, _) =
      new_log-close libs reliable (append libs (some r) l).1 first (qs ++ (p ∷ [])) holds stored in
    let found =
      read-Holds libs _ first (qs ++ (p ∷ [])) again (length qs) p
        (get_elem?-append_right qs (p ∷ []) (length qs) 0 (omega arith)) in
    (okay, found.0 ∙ reliable.unmarshal-marshal _ p fits m)
