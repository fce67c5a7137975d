-- ===== src/Resolver.antt =====
-- internal/loadbalance/resolver.go: the servers of the cluster become addresses for the balancer.
pub mod Connect
use proglog.Base.{
  ◌≡◌, refl, ◌∙◌, List, [], ◌∷◌, Option, some, Bool, true, false, arith, Bool-cases, inl, inr,
}
use proglog.Base.Exec.{Error, Result, ok, err, Exec}
use proglog.Api.{Server}
use proglog.Picker.{SubConn, Ready, Picker, build}
use proglog.Picker.Routes.{others, build_lem, IsTagged}
use proglog.Picker.Visits.{
  Reordered, leaders, leaders-Reordered, others-Reordered, IsTagged-Reordered, single_Reordered,
  newest-marked,
}
use Prim.Native.String.{String}

-- resolver.Address, with its attribute "is_leader".
pub record Address : Type 0 where
  pub addr : String
  pub is_leader : Option Bool

-- The connections of a Resolver: GetServers over the one, UpdateState on the other, and what the
-- logger wrote.
pub record Conns (S : Type 0) : Type 0 where
  pub get_servers : Exec S (List Server)
  pub update_state : List Address → Exec S (Unit {0})
  pub log_error : String → Error → S → S

abbrev pub to_address : Server → Address
to_address s = record { addr = s.rpc_addr; is_leader = some s.is_leader }

-- The loop of ResolveNow.
unfoldable pub addresses : List Server → List Address
addresses [] = []
addresses (s ∷ ss) = to_address s ∷ addresses ss

abbrev pub after_update : {S : Type 0} → Conns S → Result (Unit {0}) × S → S
after_update conns (ok _, s) = s
after_update conns (err e, s) = conns.log_error "failed update client's connection" e s

abbrev pub after_servers : {S : Type 0} → Conns S → Result (List Server) × S → S
after_servers conns (err e, s) = conns.log_error "failed to resolve server" e s
after_servers conns (ok ss, s) = after_update conns (conns.update_state (addresses ss) s)

-- ResolveNow, which holds the lock from its start to its end.
unfoldable pub resolve_now : {S : Type 0} → Conns S → S → S
resolve_now conns s = after_servers conns (conns.get_servers s)

-- The balancer's ready connections, where it is connected to every address: `dial` gives the
-- connection of an address.
abbrev pub ready_of : (String → SubConn) → List Address → List Ready
ready_of dial [] = []
ready_of dial (a ∷ as') = (dial a.addr, a.is_leader) ∷ ready_of dial as'

abbrev pub followers_of : (String → SubConn) → List Server → List SubConn
followers_of dial [] = []
followers_of dial (s ∷ ss) =
    let rest = followers_of dial ss in
    elim s.is_leader [ true ↦ rest | false ↦ dial s.rpc_addr ∷ rest ]

-- The connections of the servers that are marked as the leader.
abbrev pub leaders_of : (String → SubConn) → List Server → List SubConn
leaders_of dial [] = []
leaders_of dial (s ∷ ss) =
    let rest = leaders_of dial ss in
    elim s.is_leader [ true ↦ dial s.rpc_addr ∷ rest | false ↦ rest ]

ready-IsTagged :
    (dial : String → SubConn) (ss : List Server) → IsTagged (ready_of dial (addresses ss))
unfolding addresses
ready-IsTagged dial [] = tt
ready-IsTagged dial (s ∷ ss) = ready-IsTagged dial ss

others-ready :
    (dial : String → SubConn) (ss : List Server)
    → others (ready_of dial (addresses ss)) ≡ followers_of dial ss
unfolding addresses
others-ready dial [] = refl
others-ready dial (s ∷ ss) = ground (arith, others-ready dial ss)

leaders-ready :
    (dial : String → SubConn) (ss : List Server)
    → leaders (ready_of dial (addresses ss)) ≡ leaders_of dial ss
unfolding addresses
leaders-ready dial [] = refl
leaders-ready dial (s ∷ ss) = ground (arith, leaders-ready dial ss)

-- ResolveNow passes the servers of GetServers on, one of them marked as the leader, and the balancer
-- is connected to each. Build visits these connections in any order, and never panics: every address
-- says whether it is the leader's. The picker's leader is then the connection of the server that is
-- marked, and its followers are those of the others, each as often as it is there.
pub build-addresses :
    (dial : String → SubConn) (ss : List Server) (ready : List Ready) (p : Picker)
    (leader : SubConn)
    → Reordered ready (ready_of dial (addresses ss))
    → leaders_of dial ss ≡ leader ∷ []
    → (fs : List SubConn) × (build ready p
        ≡ (ok tt, record p { leader = some leader; followers = fs }))
      × Reordered fs (followers_of dial ss)
build-addresses dial ss ready p leader visits marked =
    let tagged = IsTagged-Reordered visits (ready-IsTagged dial ss) in
    let one = single_Reordered leader (leaders-Reordered visits) (leaders-ready dial ss ∙ marked) in
    (
      others ready,
      build_lem ready p tagged ∙ rw (newest-marked p.leader ready leader one) refl,
      rw (← others-ready dial ss) (others-Reordered visits),
    )
