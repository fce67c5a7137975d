-- ===== src/Distributed/Cluster/Members.antt =====
-- The members of Raft's configuration, and what Raft documents of the calls that change them.
use proglog.Base.{
  ◌≡◌, refl, List, [], ◌∷◌, ◌++◌, Bool, true, false, not, ◌&&◌, ◌||◌, arith, if◌then◌else◌,
}
use proglog.Base.Exec.{Error, ok, err}
use Prim.Native.String.{String}
use proglog.Distributed.Cluster.{Peer, Raft, same_id, same_address}

abbrev pub any_peer : (Peer → Bool) → List Peer → Bool
any_peer f [] = false
any_peer f (p ∷ ps) = f p || any_peer f ps

abbrev pub without : String → List Peer → List Peer
without id [] = []
without id (p ∷ ps) = let rest = without id ps in if same_id id p then rest else p ∷ rest

-- Another server has the address.
abbrev pub taken : String → String → List Peer → Bool
taken id addr = any_peer λ p. same_address addr p && not (same_id id p)

-- The server is a member with this address.
abbrev pub has : String → String → List Peer → Bool
has id addr = any_peer λ p. same_id id p && same_address addr p

-- At most one member has the identifier.
abbrev pub once : String → List Peer → Bool
once id [] = true
once id (p ∷ ps) =
    let rest = once id ps in if same_id id p then not (any_peer (same_id id) ps) else rest

abbrev pub joined : String → String → List Peer → List Peer
joined id addr ps = without id ps ++ (record { id = id; address = addr } ∷ [])

-- What Raft documents of these calls on a leader: RemoveServer takes the server out; AddVoter adds
-- a server that is no member, and refuses an address that another server has.
pub record Configures (S : Type 0) (raft : Raft S) : Type 1 where
  pub view : S → List Peer
  pub gets_view : (s : S) → raft.get_configuration s ≡ (ok (view s), s)
  pub removes :
      (id : String) (s : S)
      → ((raft.remove_server id s).0 ≡ ok tt)
        × (view (raft.remove_server id s).1 ≡ without id (view s))
  pub adds :
      (id addr : String) (s : S)
      → any_peer (same_id id) (view s) ≡ false
      → taken id addr (view s) ≡ false
      → ((raft.add_voter id addr s).0 ≡ ok tt)
        × (view (raft.add_voter id addr s).1 ≡ joined id addr (view s))
  pub refuses :
      (id addr : String) (s : S)
      → taken id addr (view s) ≡ true
      → ((e : Error) × ((raft.add_voter id addr s).0 ≡ err e))
        × (view (raft.add_voter id addr s).1 ≡ view s)

pub taken-without :
    (id addr : String) (ps : List Peer) → taken id addr (without id ps) ≡ taken id addr ps
taken-without id addr [] = refl
taken-without id addr (p ∷ ps) = ground (arith, taken-without id addr ps)

pub absent-without : (id : String) (ps : List Peer) → any_peer (same_id id) (without id ps) ≡ false
absent-without id [] = refl
absent-without id (p ∷ ps) = ground (arith, absent-without id ps)

pub without_absent :
    (id : String) (ps : List Peer) → any_peer (same_id id) ps ≡ false → without id ps ≡ ps
without_absent id [] h = refl
without_absent id (p ∷ ps) h = ground (arith, without_absent id ps)

pub without_twice : (id : String) (ps : List Peer) → without id (without id ps) ≡ without id ps
without_twice id ps = without_absent id (without id ps) (absent-without id ps)
