-- ===== src/Picker.antt =====
-- internal/loadbalance/picker.go: which connection serves a call.
pub mod RoundRobin
pub mod Routes
pub mod Visits
use proglog.Base.{
  ℕ, ◌%◌, ◌^◌, List, [], ◌∷◌, ◌++◌, Option, none, some, Bool, true, false, length, get_elem?, ◌==◌,
  ◌||◌, ◌&&◌, add64, if◌then◌else◌,
}
use proglog.Base.Exec.{Exec, Result, ok, err, panic}
use Prim.Native.Char.{code}
use Prim.Native.String.{String}

-- A balancer.SubConn, by a number that tells it from the others; the interface value may be nil.
abbrev pub SubConn : Type 0
SubConn = ℕ

-- A method's name as its bytes.
abbrev pub Text : Type 0
Text = List ℕ

abbrev pub codes : String → Text
codes String.[] = []
codes (String.◌∷◌ c s) = code c ∷ codes s

-- strings.Contains
unfoldable pub starts_with : Text → Text → Bool
starts_with [] hay = true
starts_with (c ∷ needle) [] = false
starts_with (c ∷ needle) (d ∷ hay) = c == d && starts_with needle hay

unfoldable pub contains : Text → Text → Bool
contains [] needle = starts_with needle []
contains (c ∷ hay) needle = starts_with needle (c ∷ hay) || contains hay needle

pub record Picker : Type 0 where
  pub leader : Option SubConn
  pub followers : List SubConn
  pub current : ℕ

-- One entry of ReadySCs: the connection, which is the key of the map, and its attribute "is_leader",
-- `none` where there is none.
abbrev pub Ready : Type 0
Ready = SubConn × Option Bool

-- The loop of Build over the map, in the order in which the map is visited, which Go does not fix.
unfoldable pub build_loop : List Ready → List SubConn → Exec Picker (Unit {0})
build_loop [] followers p = (ok tt, record p { followers = followers })
build_loop ((sc, none) ∷ rest) followers p = (err panic, p)
build_loop ((sc, some true) ∷ rest) followers p =
    build_loop rest followers (record p { leader = some sc })
build_loop ((sc, some false) ∷ rest) followers p = build_loop rest (followers ++ (sc ∷ [])) p

-- Build
unfoldable pub build : List Ready → Exec Picker (Unit {0})
unfolding build_loop
build ready p = build_loop ready [] p

pub data PickResult : Type 0 where
  picked : SubConn → PickResult
  no_sub_conn_available out_of_range : PickResult

abbrev pub result_of : Option SubConn → PickResult
result_of none = no_sub_conn_available
result_of (some sc) = picked sc

abbrev pub follower_at : List SubConn → ℕ → PickResult
follower_at followers i = elim (get_elem? followers i) [ some sc ↦ picked sc | none ↦ out_of_range ]

-- nextFollower
unfoldable pub next_follower : Picker → PickResult × Picker
next_follower p =
    let cur = add64 p.current 1 in
    (follower_at p.followers (cur % length p.followers), record p { current = cur })

abbrev pub produce_name : Text
produce_name = codes "Produce"

abbrev pub consume_name : Text
consume_name = codes "Consume"

-- Pick
unfoldable pub pick : Text → Picker → PickResult × Picker
pick full_method_name p =
    if contains full_method_name produce_name || length p.followers == 0
    then (result_of p.leader, p)
    else if contains full_method_name consume_name
    then next_follower p
    else (no_sub_conn_available, p)
