-- ===== src/Examples/BalancerRuns.antt =====
-- The client's balancer and the first server, run on small inputs.
use proglog.Base.{
  ℕ, ◌<◌, ◌≡◌, refl, List, [], ◌∷◌, none, some, true, false, arith, length, get_elem?, inl,
}
use proglog.Base.Exec.{ok}
use proglog.Api.{Server}
use proglog.Picker.{Picker, Ready, Text, SubConn, picked, codes, pick, build, contains, starts_with}
use proglog.Picker.RoundRobin.{IsConsume, after_picks, pick_fair}
use proglog.Picker.Visits.{Reordered, swapped}
use proglog.Picker.Routes.{pick_follower, pick_leader}
use proglog.Resolver.{ready_of, addresses, build-addresses}
use proglog.HttpLog.Session.{post, get, produced, consumed, session, session-promised}
use proglog.HttpLog.{new_log, http_error, Record, body}
use Prim.Native.String.{String}

abbrev consume_method : Text
consume_method = codes "/log.v1.Log/Consume"

abbrev produce_method : Text
produce_method = codes "/log.v1.Log/Produce"

is_consume : IsConsume consume_method
unfolding contains starts_with
is_consume = (refl, refl)

abbrev ready : List Ready
ready = (7, some false) ∷ ((8, some true) ∷ ((9, some false) ∷ []))

abbrev no_picker : Picker
no_picker = record { leader = none; followers = []; current = 0 }

abbrev two_followers : Picker
two_followers = record { leader = some 8; followers = 7 ∷ 9 ∷ []; current = 0 }

pick_follower_example :
    (j : ℕ) × (sc : SubConn) × (get_elem? ready j ≡ some (sc, some false))
    × ((pick consume_method (build ready no_picker).1).0 ≡ picked sc)
pick_follower_example = pick_follower consume_method ready no_picker is_consume tt (omega arith)

pick_leader_example :
    pick produce_method (build ready no_picker).1 ≡ (picked 8, (build ready no_picker).1)
unfolding contains starts_with
pick_leader_example = pick_leader produce_method ready no_picker tt (inl refl)

pick_fair_example :
    (n : ℕ) × (n < 2)
    × ((pick consume_method (after_picks n consume_method two_followers)).0 ≡ picked 9)
pick_fair_example = pick_fair consume_method is_consume two_followers 1 9 refl (omega arith)

abbrev servers : List Server
servers =
    record { id = "a"; rpc_addr = "host:1"; is_leader = true }
    ∷ record { id = "b"; rpc_addr = "host:10"; is_leader = false }
    ∷ record { id = "c"; rpc_addr = "host:100"; is_leader = false }
    ∷ []

abbrev number : String → SubConn
number s = length (codes s)

-- The map is visited from another server on.
abbrev visited : List Ready
visited = (7, some false) ∷ (6, some true) ∷ (8, some false) ∷ []

visited-ready : Reordered visited (ready_of number (addresses servers))
unfolding addresses
visited-ready = swapped (7, some false) (6, some true) ((8, some false) ∷ [])

build-addresses_example :
    (fs : List SubConn) × (build visited no_picker
      ≡ (ok tt, record { leader = some 6; followers = fs; current = 0 }))
    × Reordered fs (7 ∷ 8 ∷ [])
unfolding addresses
build-addresses_example = build-addresses number servers visited no_picker 6 visited-ready refl

abbrev note : Record
note = record { value = 1 ∷ []; offset = 9 }

-- Two posts, a GET of each, of one that is not there, and a bad request.
session-promised_example :
    session
      (post (some note) ∷ post (some note) ∷ get (some 1) ∷ get (some 2) ∷ post none ∷ [])
      new_log
    ≡ produced (body (record { offset = 0 }))
      ∷ produced (body (record { offset = 1 }))
      ∷ consumed (body (record { found = record note { offset = 1 } }))
      ∷ consumed (http_error 500)
      ∷ produced (http_error 400)
      ∷ []
session-promised_example =
    session-promised
      (post (some note) ∷ post (some note) ∷ get (some 1) ∷ get (some 2) ∷ post none ∷ [])
      (omega arith)
