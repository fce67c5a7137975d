-- ===== src/Distributed/Cluster/Join.antt =====
-- What Join (internal/log/distributed.go) does to the members of the cluster.
use proglog.Base.{
  ◌≡◌, refl, ◌∙◌, List, [], ◌∷◌, Bool, true, false, ◌&&◌, ◌||◌, arith, Bool-cases, inl, inr,
  if◌then◌else◌,
}
use proglog.Base.Exec.{Error, ok, err}
use Prim.Native.String.{String}
use proglog.Distributed.Cluster.{Peer, Raft, same_id, same_address, join_each, join}
use proglog.Distributed.Cluster.Members.{
  any_peer, taken, has, once, joined, Configures, taken-without, absent-without, without_twice,
}

module _ (S : Type 0) (raft : Raft S) (configures : Configures S raft) (id addr : String) where
  -- A step of the loop, on a server that is another one, and on one that conflicts.
  join_other :
      (p : Peer) (ps : List Peer) (s : S)
      → (same_id id p || same_address addr p) ≡ false
      → join_each raft id addr (p ∷ ps) s ≡ join_each raft id addr ps s
  unfolding join_each
  join_other p ps s e = ground (arith, e)

  join_conflict :
      (p : Peer) (ps : List Peer) (s : S)
      → (same_id id p || same_address addr p) ≡ true
      → (same_id id p && same_address addr p) ≡ false
      → join_each raft id addr (p ∷ ps) s ≡ join_each raft id addr ps (raft.remove_server id s).1
  unfolding join_each
  join_conflict p ps s e f = ground (arith, e, f, (configures.removes id s).0)

  join_stays :
      (p : Peer) (ps : List Peer) (s : S)
      → (same_id id p && same_address addr p) ≡ true
      → join_each raft id addr (p ∷ ps) s ≡ (ok tt, s)
  unfolding join_each
  join_stays p ps s e = ground (arith, e)

  -- An address that another server has stays taken, and Join fails.
  join_each-taken :
      (ps : List Peer) (s : S)
      → taken id addr (configures.view s) ≡ true
      → has id addr ps ≡ false
      → ((e : Error) × ((join_each raft id addr ps s).0 ≡ err e))
        × (taken id addr (configures.view (join_each raft id addr ps s).1) ≡ true)
  unfolding join_each
  join_each-taken [] s t h =
      let (failed, same) = configures.refuses id addr s t in (failed, rw same t)
  join_each-taken (p ∷ ps) s t h = elim (Bool-cases (same_id id p || same_address addr p)) [
    | inl e ↦ rw (join_conflict p ps s e (ground arith)) (
        join_each-taken ps (raft.remove_server id s).1
          (rw ((configures.removes id s).1, taken-without id addr (configures.view s)) t)
          (ground arith))
    | inr e ↦ rw (join_other p ps s e) (join_each-taken ps s t (ground arith))
  ]

  join_each-free :
      (ps : List Peer) (s : S)
      → any_peer (same_id id) ps ≡ false
      → any_peer (same_address addr) ps ≡ false
      → join_each raft id addr ps s ≡ raft.add_voter id addr s
  unfolding join_each
  join_each-free [] s f g = refl
  join_each-free (p ∷ ps) s f g =
      join_other p ps s (ground arith) ∙ join_each-free ps s (ground arith) (ground arith)

  added :
      (s : S)
      → taken id addr (configures.view s) ≡ false
      → ((raft.add_voter id addr (raft.remove_server id s).1).0 ≡ ok tt)
        × (configures.view (raft.add_voter id addr (raft.remove_server id s).1).1
            ≡ joined id addr (configures.view s))
  added s t =
      let (gone, is) = configures.removes id s in
      let (okay, now) =
        configures.adds id addr (raft.remove_server id s).1
          (rw is (absent-without id (configures.view s)))
          (rw (is, taken-without id addr (configures.view s)) t) in
      (okay, now ∙ rw (is, without_twice id (configures.view s)) refl)

  -- Join on a leader, of a server that is no member at the address, fails where another server of
  -- the cluster has it, and that server stays: the code asks Raft to remove the server that joins,
  -- not the one it conflicts with.
  pub join-taken :
      (s : S)
      → taken id addr (configures.view s) ≡ true
      → has id addr (configures.view s) ≡ false
      → ((e : Error) × ((join raft id addr s).0 ≡ err e))
        × (taken id addr (configures.view (join raft id addr s).1) ≡ true)
  unfolding join
  join-taken s t h = rw (configures.gets_view s) (join_each-taken (configures.view s) s t h)

  free_address :
      (ps : List Peer)
      → any_peer (same_id id) ps ≡ false
      → taken id addr ps ≡ false
      → any_peer (same_address addr) ps ≡ false
  free_address [] f t = refl
  free_address (p ∷ ps) f t =
      let rest : any_peer (same_address addr) ps ≡ false =
        free_address ps (ground arith) (ground arith) in
      ground arith

  not_has : (ps : List Peer) → any_peer (same_id id) ps ≡ false → has id addr ps ≡ false
  not_has [] f = refl
  not_has (p ∷ ps) f = let rest : has id addr ps ≡ false = not_has ps (ground arith) in ground arith

  -- The member that moves to another address is removed, and then added.
  join_each-moves :
      (ps : List Peer) (s : S)
      → any_peer (same_id id) ps ≡ true
      → once id ps ≡ true
      → taken id addr ps ≡ false
      → has id addr ps ≡ false
      → join_each raft id addr ps s ≡ raft.add_voter id addr (raft.remove_server id s).1
  join_each-moves [] s i o t h = cc
  join_each-moves (p ∷ ps) s i o t h = elim (Bool-cases (same_id id p)) [
    | inl e ↦
        let alone : any_peer (same_id id) ps ≡ false = ground arith in
        join_conflict p ps s (ground arith) (ground arith)
        ∙ join_each-free ps (raft.remove_server id s).1 alone (free_address ps alone (ground arith))
    | inr e ↦
        join_other p ps s (ground arith)
        ∙ join_each-moves ps s (ground arith) (ground arith) (ground arith) (ground arith)
  ]

  join_each-has :
      (ps : List Peer) (s : S)
      → once id ps ≡ true
      → taken id addr ps ≡ false
      → has id addr ps ≡ true
      → join_each raft id addr ps s ≡ (ok tt, s)
  join_each-has [] s o t h = cc
  join_each-has (p ∷ ps) s o t h = elim (Bool-cases (same_id id p)) [
    | inl e ↦
        let alone : has id addr ps ≡ false = not_has ps (ground arith) in
        join_stays p ps s (ground arith)
    | inr e ↦
        join_other p ps s (ground arith)
        ∙ join_each-has ps s (ground arith) (ground arith) (ground arith)
  ]

  join_all :
      (s : S) (b c : Bool)
      → has id addr (configures.view s) ≡ b
      → any_peer (same_id id) (configures.view s) ≡ c
      → once id (configures.view s) ≡ true
      → taken id addr (configures.view s) ≡ false
      → ((join_each raft id addr (configures.view s) s).0 ≡ ok tt)
        × (configures.view (join_each raft id addr (configures.view s) s).1
            ≡ (if b then configures.view s else joined id addr (configures.view s)))
  join_all s true c h i o t = rw (join_each-has (configures.view s) s o t h) (refl, refl)
  join_all s false true h i o t = rw (join_each-moves (configures.view s) s i o t h) (added s t)
  join_all s false false h i o t =
      rw (join_each-free (configures.view s) s i (free_address (configures.view s) i t))
        (configures.adds id addr s i t)

  -- Join on a leader, at an address that no other server has, succeeds. A server that is a member
  -- there already stays; else it is added with the address, and loses the address that it had.
  pub join-joined :
      (s : S)
      → once id (configures.view s) ≡ true
      → taken id addr (configures.view s) ≡ false
      → ((join raft id addr s).0 ≡ ok tt)
        × (configures.view (join raft id addr s).1 ≡ (
            if has id addr (configures.view s)
            then configures.view s
            else joined id addr (configures.view s)))
  unfolding join
  join-joined s o t = rw (configures.gets_view s) (join_all s _ _ refl refl o t)
