-- ===== src/Distributed/Cluster/Listed.antt =====
-- What GetServers (internal/log/distributed.go) shows of Join and Leave.
use proglog.Base.{
  ◌≡◌, refl, ap, ◌∙◌, List, [], ◌∷◌, ◌++◌, map, Bool, true, false, ◌&&◌, ◌||◌, arith, Bool-cases,
  inl, inr, if◌then◌else◌,
}
use proglog.Base.Exec.{ok}
use proglog.Api.{Server}
use proglog.Distributed.Cluster.{Peer, Raft, same_id, join, leave, get_servers}
use proglog.Distributed.Cluster.Join.{join-joined}
use proglog.Distributed.Cluster.Members.{
  Configures, any_peer, without, taken, has, once, joined, absent-without, without_twice,
}
use text.Mathlib.Text.{◌==◌ as str_eq}
use text.Mathlib.TextPositions.{eq_refl}
use Prim.Native.String.{String}

-- A server of the list has this identifier and address; or this identifier.
abbrev pub lists : String → String → List Server → Bool
lists id addr [] = false
lists id addr (x ∷ xs) = (str_eq x.id id && str_eq x.rpc_addr addr) || lists id addr xs

abbrev pub mentions : String → List Server → Bool
mentions id [] = false
mentions id (x ∷ xs) = str_eq x.id id || mentions id xs

abbrev shown : String → Peer → Server
shown leader p = record { id = p.id; rpc_addr = p.address; is_leader = str_eq leader p.address }

lists-has :
    (leader id addr : String) (ps : List Peer)
    → lists id addr (map (shown leader) ps) ≡ has id addr ps
lists-has leader id addr [] = refl
lists-has leader id addr (p ∷ ps) = ground (arith, lists-has leader id addr ps)

mentions-any_peer :
    (leader id : String) (ps : List Peer)
    → mentions id (map (shown leader) ps) ≡ any_peer (same_id id) ps
mentions-any_peer leader id [] = refl
mentions-any_peer leader id (p ∷ ps) = ground (arith, mentions-any_peer leader id ps)

has-snoc :
    (id addr : String) (ps : List Peer)
    → has id addr (ps ++ (record { id = id; address = addr } ∷ [])) ≡ true
has-snoc id addr [] = rw (eq_refl id, eq_refl addr) refl
has-snoc id addr (p ∷ ps) = ground (arith, has-snoc id addr ps)

without-snoc :
    (id addr : String) (ps : List Peer)
    → without id (ps ++ (record { id = id; address = addr } ∷ [])) ≡ without id ps
without-snoc id addr [] = rw (eq_refl id) refl
without-snoc id addr (p ∷ ps) = ground (arith, without-snoc id addr ps)

-- The members behind a Join.
abbrev behind : String → String → List Peer → List Peer
behind id addr ps = if has id addr ps then ps else joined id addr ps

has-behind : (id addr : String) (ps : List Peer) → has id addr (behind id addr ps) ≡ true
has-behind id addr ps = elim (Bool-cases (has id addr ps)) [
  | inl b ↦ rw b b
  | inr b ↦ rw b (has-snoc id addr (without id ps))
]

without-behind :
    (id addr : String) (ps : List Peer) → without id (behind id addr ps) ≡ without id ps
without-behind id addr ps = elim (Bool-cases (has id addr ps)) [
  | inl b ↦ rw b refl
  | inr b ↦ rw b (without-snoc id addr (without id ps) ∙ without_twice id ps)
]

module _ (S : Type 0) (raft : Raft S) (configures : Configures S raft) where
  seen : (s : S) → (get_servers raft s).0 ≡ ok (map (shown (raft.leader s)) (configures.view s))
  unfolding get_servers
  seen s = ground (arith, configures.gets_view s)

  -- On a leader, once Join of a server at an address that no other server has has returned, GetServers
  -- lists the server under that address; and once Leave of it has returned after that, GetServers lists
  -- no server of that identifier, and the members are those that there were, without it.
  pub get_servers-join :
      (id addr : String) (s : S)
      → once id (configures.view s) ≡ true
      → taken id addr (configures.view s) ≡ false
      → ((xs : List Server) × ((get_servers raft (join raft id addr s).1).0 ≡ ok xs)
          × (lists id addr xs ≡ true))
        × ((xs : List Server) × ((get_servers raft (leave raft id (join raft id addr s).1).1).0
              ≡ ok xs)
            × (mentions id xs ≡ false))
        × (configures.view (leave raft id (join raft id addr s).1).1
            ≡ without id (configures.view s))
  unfolding leave
  get_servers-join id addr s o t =
      let (_, members) = join-joined S raft configures id addr s o t in
      let after = (join raft id addr s).1 in
      let (_, left) = configures.removes id after in
      (
        (
          _,
          seen after,
          lists-has (raft.leader after) id addr (configures.view after)
              ∙ ap (has id addr) members
              ∙ has-behind id addr (configures.view s),
        ),
        (
          _,
          seen (leave raft id after).1,
          mentions-any_peer (raft.leader (leave raft id after).1) id _
              ∙ ap (any_peer (same_id id)) left
              ∙ absent-without id (configures.view after),
        ),
        left ∙ ap (without id) members ∙ without-behind id addr (configures.view s),
      )
